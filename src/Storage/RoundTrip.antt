-- ===== src/Storage/RoundTrip.antt =====
-- `parse_header` reads back what `make_header` wrote.
use kb.Base.{
  ℕ, ◌^◌, ◌<◌, ◌≡◌, refl, ◌≢◌, inl, inr, true, false, none, some, ◌++◌, arith, ◌==◌, if◌then◌else◌,
  Bool-cases, length, take, drop, replicate, Bytes, IsBytes, le, le_value, crc32, crc32-lt, ok,
}
use kb.Storage.Header.{
  magic_word, version_number, Fields, header_bytes, header_unpack, header_pack, draft_fields,
  make_header, parse_header, valid_state, writing_state, header_size, fits,
}

le_value-le_4 : (n : ℕ) → n < 2 ^ 32 → le_value (le 4 n) ≡ n
le_value-le_4 n h = omega arith

le_value-le_2 : (n : ℕ) → n < 2 ^ 16 → le_value (le 2 n) ≡ n
le_value-le_2 n h = omega arith

reserved_lem : (xs : Bytes) → xs ≡ replicate 36 0 → take 36 (take 36 (xs ++ replicate 36 0)) ≡ xs
reserved_lem xs e = rw e

-- The header in the given state, with the checksum of its final state.
unfoldable pub header_of : ℕ → ℕ → Bytes → Bytes
header_of state generation content = header_bytes (record (draft_fields state generation content) {
  header_crc = crc32 (header_bytes (draft_fields valid_state generation content));
})

fits-draft :
    (state generation : ℕ) (content : Bytes) (header_crc : ℕ)
    → state < 2 ^ 32
    → generation < 2 ^ 32
    → length content < 2 ^ 32
    → header_crc < 2 ^ 32
    → fits (record (draft_fields state generation content) { header_crc = header_crc }) ≡ true
unfolding fits
fits-draft state generation content header_crc s g l h = ground (arith, crc32-lt content)

header_pack_lem : (f : Fields) → fits f ≡ true → header_pack f ≡ ok (header_bytes f)
unfolding header_pack
header_pack_lem f h = rw h

make_header_step :
    (state generation : ℕ) (content : Bytes)
    → fits (draft_fields valid_state generation content) ≡ true
    → fits (record (draft_fields state generation content) {
      header_crc = crc32 (header_bytes (draft_fields valid_state generation content));
    })
      ≡ true
    → make_header state generation content ≡ ok (header_of state generation content)
unfolding make_header header_of
make_header_step state generation content p q =
    rw (make_header, header_pack_lem (draft_fields valid_state generation content) p)
      (header_pack_lem _ q)

pub make_header_lem :
    (state generation : ℕ) (content : Bytes)
    → state < 2 ^ 32
    → generation < 2 ^ 32
    → length content < 2 ^ 32
    → make_header state generation content ≡ ok (header_of state generation content)
unfolding make_header
make_header_lem state generation content s g l =
    make_header_step state generation content
      (fits-draft valid_state generation content 0 (omega arith) g l (omega arith))
      (fits-draft state generation content _ s g l (crc32-lt _))

-- What `fits` tests.
record IsInRange (f : Fields) : Type 0 where
  magic : f.magic < 2 ^ 32
  version : f.version < 2 ^ 16
  header_length : f.header_length < 2 ^ 16
  state : f.state < 2 ^ 32
  generation : f.generation < 2 ^ 32
  payload_length : f.payload_length < 2 ^ 32
  payload_crc : f.payload_crc < 2 ^ 32
  header_crc : f.header_crc < 2 ^ 32

fits-IsInRange : (f : Fields) → fits f ≡ true → IsInRange f
unfolding fits
fits-IsInRange f h = ground arith

-- Unpacking gives the packed values back.
header_unpack-header_bytes :
    (f : Fields) → IsInRange f → f.reserved ≡ replicate 36 0 → header_unpack (header_bytes f) ≡ f
unfolding header_unpack
header_unpack-header_bytes f h r = λ i. record {
  magic = le_value-le_4 f.magic h.magic i;
  version = le_value-le_2 f.version h.version i;
  header_length = le_value-le_2 f.header_length h.header_length i;
  state = le_value-le_4 f.state h.state i;
  generation = le_value-le_4 f.generation h.generation i;
  payload_length = le_value-le_4 f.payload_length h.payload_length i;
  payload_crc = le_value-le_4 f.payload_crc h.payload_crc i;
  header_crc = le_value-le_4 f.header_crc h.header_crc i;
  reserved = reserved_lem f.reserved r i;
}

parse_header_lem :
    (blob : Bytes) (f : Fields)
    → length blob ≡ header_size
    → header_unpack blob ≡ f
    → f.magic ≡ magic_word
    → f.version ≡ version_number
    → f.header_length ≡ header_size
    → f.state ≡ valid_state
    → crc32 (header_bytes (record f { state = valid_state; header_crc = 0 })) ≡ f.header_crc
    → parse_header blob
      ≡ some (record {
        generation = f.generation;
        payload_length = f.payload_length;
        payload_crc = f.payload_crc;
      })
unfolding parse_header
parse_header_lem blob f l u m v hl st c = ground arith

-- A header in any other state than `VALID` is not accepted.
pub parse_header-state :
    (blob : Bytes) → (header_unpack blob).state ≢ valid_state → parse_header blob ≡ none
unfolding parse_header
parse_header-state blob h = ground arith

-- A complete header is read back.
pub parse_header-valid :
    (generation : ℕ) (content : Bytes)
    → generation < 2 ^ 32
    → length content < 2 ^ 32
    → parse_header (header_of valid_state generation content)
      ≡ some (record {
        generation = generation;
        payload_length = length content;
        payload_crc = crc32 content;
      })
unfolding header_of
parse_header-valid generation content g l =
    parse_header_lem (header_of valid_state generation content) f refl
      (header_unpack-header_bytes f
        (fits-IsInRange f
          (fits-draft valid_state generation content _ (omega arith) g l (crc32-lt _)))
        refl)
      refl refl refl refl refl
  where
    f : Fields
    f = record (draft_fields valid_state generation content) {
      header_crc = crc32 (header_bytes (draft_fields valid_state generation content));
    }

pub length-header_of :
    (state generation : ℕ) (content : Bytes) → length (header_of state generation content) ≡ 64
unfolding header_of
length-header_of state generation content = refl

pub IsBytes-header_of :
    (state generation : ℕ) (content : Bytes) → IsBytes (header_of state generation content)
unfolding header_of
IsBytes-header_of state generation content = omega arith

-- The header from the word behind the state on.
abbrev pub header_tail : ℕ → Bytes → Bytes
header_tail generation content = drop 12 (header_of valid_state generation content)

abbrev pub header_front : Bytes
header_front = le 4 magic_word ++ (le 2 version_number ++ le 2 header_size)

-- Two headers that differ in the state differ in the state's four bytes only.
pub header_of-parts :
    (state generation : ℕ) (content : Bytes)
    → header_of state generation content
      ≡ header_front ++ (le 4 state ++ header_tail generation content)
unfolding header_of
header_of-parts state generation content = refl

-- A header with its payload still being written is not accepted.
pub parse_header-writing :
    (generation : ℕ) (content : Bytes)
    → parse_header (header_of writing_state generation content) ≡ none
parse_header-writing generation content =
    parse_header-state (header_of writing_state generation content)
      (unfold header_unpack header_of in omega arith)

pub parse_header-erased : parse_header (replicate 64 255) ≡ none
parse_header-erased = parse_header-state (replicate 64 255) (unfold header_unpack in omega arith)

header_of-state :
    (state generation : ℕ) (content : Bytes)
    → state < 2 ^ 32
    → (header_unpack (header_of state generation content)).state ≡ state
unfolding header_unpack header_of
header_of-state state generation content s = omega arith

-- For a state word, a generation and a payload length below 2 ^ 32, `make_header` gives a header of
-- 64 bytes, and `parse_header` reads it back as the generation, the length and the checksum of the
-- payload if the state is `VALID`, and as nothing if it is any other.
pub parse_header-make_header :
    (state generation : ℕ) (content : Bytes)
    → state < 2 ^ 32
    → generation < 2 ^ 32
    → length content < 2 ^ 32
    → (head : Bytes) × (make_header state generation content ≡ ok head)
      × (length head ≡ header_size)
      × (parse_header head ≡ (
          if state == valid_state
          then some (record {
            generation = generation;
            payload_length = length content;
            payload_crc = crc32 content;
          })
          else none))
parse_header-make_header state generation content s g l = (
  header_of state generation content,
  make_header_lem state generation content s g l,
  length-header_of state generation content,
  elim (Bool-cases (state == valid_state)) [
    | inl e ↦
        let e' : state ≡ valid_state = ground arith in
        rw e' (parse_header-valid generation content g l)
    | inr e ↦
        rw e
          (parse_header-state _ (omega (arith, header_of-state state generation content s, ne e)))
  ],
)
  where
    ne : (state == valid_state) ≡ false → state ≢ valid_state
    ne e = ground arith
