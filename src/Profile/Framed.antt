-- ===== src/Profile/Framed.antt =====
-- A compiled container is parsed back.
use kb.Base.{
  ℕ, ◌+◌, ◌*◌, ◌≤◌, ◌<◌, ◌≡◌, refl, true, false, List, [], ◌∷◌, ◌++◌, append_assoc, arith, ltb, leb,
  ◌!=◌, le→leb, length, take, drop, length-append, slice-append, Bytes, crc32, crc32-lt, ok,
}
use kb.Profile.Record.{record_size, validate_record}
use kb.Profile.Container.{
  container_header, record_names, field_i, field_h, field_b, has_identity, parse_profile_binary,
}
use kb.Profile.Compile.{join, container_bytes, compile_set}

-- Records of the fixed size with these names.
abbrev pub AreRecords : List Bytes → List Bytes → Type 0
AreRecords [] [] = Unit
AreRecords [] (n ∷ ns) = ⊥
AreRecords (r ∷ rs) [] = ⊥
AreRecords (r ∷ rs) (n ∷ ns) =
    (length r ≡ record_size) × (validate_record r ≡ ok n) × AreRecords rs ns

length-join :
    (records names : List Bytes)
    → AreRecords records names
    → length (join records) ≡ length records * record_size
length-join [] [] v = refl
length-join [] (n ∷ names) v = elim v [ ]
length-join (r ∷ records) [] v = elim v [ ]
length-join (r ∷ records) (n ∷ names) v =
    omega (arith, length-append r (join records), v.0, length-join records names v.2)

-- The loop reads the records that start at its offset.
record_names-join :
    (before : Bytes) (records names : List Bytes) (offset : ℕ)
    → length before ≡ offset
    → AreRecords records names
    → record_names (length records) offset (before ++ join records) ≡ ok names
unfolding record_names
record_names-join before [] [] offset e v = refl
record_names-join before [] (n ∷ names) offset e v = elim v [ ]
record_names-join before (r ∷ records) [] offset e v = elim v [ ]
record_names-join before (r ∷ records) (n ∷ names) offset e v =
    let rest : record_names (length records) (offset + record_size) (before ++ (r ++ join records))
        ≡ ok names =
      rw (← append_assoc before r (join records)) (
        record_names-join (before ++ r) records names (offset + record_size)
          (omega (arith, length-append before r, v.0)) v.2) in
    rw (slice-append offset record_size before r (join records) e v.0, v.1, rest, record_names)

!=_refl : (a : ℕ) → (a != a) ≡ false
!=_refl a = ground arith

-- The guards of the parser, one after the other.
parse_guards :
    (blob : Bytes) (count active : ℕ) (names : List Bytes)
    → length blob ≡ container_header + count * record_size
    → has_identity blob ≡ true
    → field_i 8 blob ≡ length blob
    → field_i 12 blob ≡ crc32 (drop container_header blob)
    → field_b 16 blob ≡ count
    → field_b 17 blob ≡ active
    → field_h 18 blob ≡ record_size
    → 1 ≤ count
    → count ≤ 5
    → active < count
    → record_names count container_header blob ≡ ok names
    → parse_profile_binary blob
      ≡ ok (record {
        profile_count = count;
        active_profile = active;
        names = names;
        body_crc32 = crc32 (drop container_header blob);
      })
unfolding parse_profile_binary
parse_guards blob count active names size identity total crc c a s low high among read =
    let long : ltb (length blob) container_header ≡ false = ground arith in
    let active_fits : leb count active ≡ false = ground arith in
    rw
      (
        long,
        identity,
        total,
        crc,
        c,
        a,
        s,
        le→leb 1 count low,
        le→leb count 5 high,
        active_fits,
        size,
        !=_refl (crc32 (drop container_header blob)),
        !=_refl (container_header + count * record_size),
        read,
      )
      (λ i.
        ok
          (record { profile_count = c i; active_profile = a i; names = names; body_crc32 = crc i }))

-- A container of one to five valid records, with an active one among them, is compiled, and it is
-- parsed as their number, the active one, their names and the checksum of their bytes.
pub parse-compile_set :
    (active : ℕ) (records names : List Bytes)
    → 1 ≤ length records
    → length records ≤ 5
    → active < length records
    → AreRecords records names
    → (blob : Bytes) × (compile_set active records ≡ ok blob)
      × (parse_profile_binary blob
          ≡ ok (record {
            profile_count = length records;
            active_profile = active;
            names = names;
            body_crc32 = crc32 (join records);
          }))
unfolding compile_set
parse-compile_set active records names low high among v =
    let body = join records in
    let blob = container_bytes (length records) active body in
    let filled = length-join records names v in
    let size : length blob ≡ container_header + length records * record_size =
      omega (arith, filled) in
    let total : field_i 8 blob ≡ length blob = omega (arith, filled) in
    (
      container_bytes (length records) active (join records),
      rw (le→leb 1 (length records) low, le→leb (length records) 5 high, not_leb),
      parse_guards blob (length records) active names size refl total (omega (arith, crc32-lt body))
          (omega arith) (omega arith) refl low high among
          (record_names-join (take container_header blob) records names container_header refl v),
    )
  where
    not_leb : leb (length records) active ≡ false
    not_leb = ground arith
