-- ===== src/Protocol/Frames.antt =====
-- `pack` and `unpack` are inverse to one another.
use kb.Base.{
  ℕ, ◌+◌, ◌^◌, ◌≤◌, ◌<◌, ◌≡◌, refl, sym, ap, ◌∙◌, ◌++◌, append-nil, arith, length, take, drop,
  length-append, take-append-drop, drop-all, take-append, drop-append, drop-drop, slice,
  length-slice, Bytes, IsBytes, le, le_value, ljust, IsBytes-take, IsBytes-drop, le-le_value,
  le_value-lt, length-ljust, ljust-full, crc32, crc32-lt, ok,
}
use kb.Protocol.Report.{
  Report, report_id, version_number, payload_size, frame_prefix, pack, fields_of, unpack,
}
use kb.Protocol.Framing.{
  IsInRange, fits-IsInRange, IsInRange-fits, unpack_lem, IsFrame, unpack-IsFrame, frame_of,
  pack_lem, pack-eq-ok, le_value-le_1, le_value-le_2, le_value-le_4,
}

-- A frame with 36 payload bytes is read back.
module _ (r : Report) (padded : Bytes) (sized : length padded ≡ 36) (h : IsInRange r) where
  abbrev sealed : Bytes
  sealed = le 4 (crc32 (drop 1 (frame_prefix r padded)))

  payload-frame : slice (frame_of r padded) 24 36 ≡ padded
  payload-frame = take-append 36 padded sealed sized

  seal-frame : slice (frame_of r padded) 60 4 ≡ sealed
  seal-frame =
      ap (take 4) (sym (drop-drop 24 36 (frame_of r padded)) ∙ drop-append 36 padded sealed sized)

  body-frame : slice (frame_of r padded) 1 59 ≡ drop 1 (frame_prefix r padded)
  body-frame = take-append 59 (drop 1 (frame_prefix r padded)) sealed (omega (arith, sized))

  length-frame_of : length (frame_of r padded) ≡ 64
  length-frame_of = omega (arith, length-append padded sealed, sized)

  fields-frame : fields_of (frame_of r padded) ≡ record r { payload = padded }
  unfolding fields_of
  fields-frame = λ i. record {
    kind = le_value-le_1 r.kind h.kind i;
    opcode = le_value-le_1 r.opcode h.opcode i;
    sequence = le_value-le_2 r.sequence h.sequence i;
    transfer_id = le_value-le_4 r.transfer_id h.transfer_id i;
    offset = le_value-le_4 r.offset h.offset i;
    total_length = le_value-le_4 r.total_length h.total_length i;
    payload = payload-frame i;
    flags = le_value-le_1 r.flags h.flags i;
    status = le_value-le_1 r.status h.status i;
  }

  unpack-frame_of : unpack (frame_of r padded) ≡ ok (record r { payload = padded })
  unpack-frame_of =
      unpack_lem (frame_of r padded) (record r { payload = padded }) length-frame_of refl refl
        (ap crc32 payload-frame ∙ sym (le_value-le_4 (crc32 padded) (crc32-lt padded)))
        (ap crc32 body-frame ∙ sym (ap le_value seal-frame ∙ le_value-le_4 _ (crc32-lt _)))
        fields-frame

-- A report that `pack` accepts is read back by `unpack`, with its payload padded to 36 bytes.
pub unpack-pack :
    (r : Report) (blob : Bytes)
    → pack r ≡ ok blob
    → unpack blob ≡ ok (record r { payload = ljust payload_size r.payload })
unpack-pack r blob h =
    let (short, fit, e) = pack-eq-ok r blob h in
    rw (← e) (
      unpack-frame_of r (ljust payload_size r.payload) (length-ljust 36 r.payload short)
        (fits-IsInRange r fit))

-- A field of a byte string in front of what follows it.
peel :
    (i w n : ℕ) (xs : Bytes)
    → i + w ≤ length xs
    → IsBytes xs
    → le_value (slice xs i w) ≡ n
    → drop i xs ≡ le w n ++ drop (i + w) xs
peel i w n xs h b e =
    rw
      (
        ← e,
        le-le_value w (slice xs i w) (length-slice xs i w h)
            (IsBytes-take w (drop i xs) (IsBytes-drop i xs b)),
        ← drop-drop i w xs,
      )
      (sym (take-append-drop w (drop i xs)))

-- A frame is the concatenation of its fields.
module _ (blob : Bytes) (r : Report) (bytes : IsBytes blob) (f : IsFrame blob r) where
  field :
      (i w n : ℕ)
      → i + w ≤ 64
      → le_value (slice blob i w) ≡ n
      → drop i blob ≡ le w n ++ drop (i + w) blob
  field i w n h e = peel i w n blob (omega (arith, f.sized)) bytes e

  last_word : ℕ
  last_word = le_value (slice blob 60 4)

  behind-payload : drop 24 blob ≡ slice blob 24 36 ++ le 4 last_word
  unfolding last_word
  behind-payload =
      sym (take-append-drop 36 (drop 24 blob))
      ∙ ap (◌++◌ (slice blob 24 36)) (
          drop-drop 24 36 blob
          ∙ field 60 4 last_word (omega arith) refl
          ∙ ap (◌++◌ (le 4 last_word)) (drop-all 64 blob (omega (arith, f.sized)))
          ∙ append-nil _)

  blob-fields : blob ≡ frame_prefix (fields_of blob) (slice blob 24 36) ++ le 4 last_word
  unfolding fields_of
  blob-fields =
      field 0 1 report_id (omega arith) f.head.0
      ∙ ap (◌++◌ (le 1 report_id)) (
          field 1 1 version_number (omega arith) f.head.1
          ∙ ap (◌++◌ (le 1 version_number)) (
              field 2 1 _ (omega arith) refl
              ∙ ap (◌++◌ (le 1 (le_value (slice blob 2 1)))) (
                  field 3 1 _ (omega arith) refl
                  ∙ ap (◌++◌ (le 1 (le_value (slice blob 3 1)))) (
                      field 4 1 _ (omega arith) refl
                      ∙ ap (◌++◌ (le 1 (le_value (slice blob 4 1)))) (
                          field 5 1 _ (omega arith) refl
                          ∙ ap (◌++◌ (le 1 (le_value (slice blob 5 1)))) (
                              field 6 2 _ (omega arith) refl
                              ∙ ap (◌++◌ (le 2 (le_value (slice blob 6 2)))) (
                                  field 8 4 _ (omega arith) refl
                                  ∙ ap (◌++◌ (le 4 (le_value (slice blob 8 4)))) (
                                      field 12 4 _ (omega arith) refl
                                      ∙ ap (◌++◌ (le 4 (le_value (slice blob 12 4)))) (
                                          field 16 4 _ (omega arith) refl
                                          ∙ ap (◌++◌ (le 4 (le_value (slice blob 16 4)))) (
                                              field 20 4 _ (omega arith) (sym f.crcs.0)
                                              ∙ ap (◌++◌ (le 4 (crc32 (slice blob 24 36))))
                                                  behind-payload))))))))))

  length-payload : length (slice blob 24 36) ≡ 36
  length-payload = length-slice blob 24 36 (omega (arith, f.sized))

  seal : crc32 (drop 1 (frame_prefix (fields_of blob) (slice blob 24 36))) ≡ last_word
  unfolding last_word
  seal =
      ap crc32 (
        sym (
          take-append 59 (drop 1 (frame_prefix (fields_of blob) (slice blob 24 36)))
            (le 4 last_word) (omega (arith, length-payload)))
        ∙ ap (λ xs. slice xs 1 59) (sym blob-fields))
      ∙ f.crcs.1

  word : (i w : ℕ) → i + w ≤ 64 → le_value (slice blob i w) < 256 ^ w
  word i w h =
      le_value-lt w (slice blob i w) (length-slice blob i w (omega (arith, f.sized)))
        (IsBytes-take w (drop i blob) (IsBytes-drop i blob bytes))

  fields-IsInRange : IsInRange (fields_of blob)
  unfolding fields_of
  fields-IsInRange = record {
    kind = word 2 1 (omega arith);
    opcode = word 3 1 (omega arith);
    flags = word 4 1 (omega arith);
    status = word 5 1 (omega arith);
    sequence = word 6 2 (omega arith);
    transfer_id = word 8 4 (omega arith);
    offset = word 12 4 (omega arith);
    total_length = word 16 4 (omega arith);
  }

  pack-fields : pack (fields_of blob) ≡ ok blob
  unfolding fields_of
  pack-fields =
      pack_lem (fields_of blob) (omega (arith, length-payload))
        (IsInRange-fits (fields_of blob) fields-IsInRange)
      ∙ rw (ljust-full 36 (slice blob 24 36) length-payload, seal) (ap ok (sym blob-fields))

-- A 64-byte frame that `unpack` accepts is packed again to the same bytes.
pub pack-unpack : (blob : Bytes) (r : Report) → IsBytes blob → unpack blob ≡ ok r → pack r ≡ ok blob
pack-unpack blob r bytes h =
    let f = unpack-IsFrame blob r h in rw (← f.fields) (pack-fields blob r bytes f)

-- A report whose fields are in range and whose payload fits has a frame.
pub pack_fits :
    (r : Report) → length r.payload ≤ 36 → IsInRange r → (blob : Bytes) × (pack r ≡ ok blob)
pack_fits r short h =
    (frame_of r (ljust payload_size r.payload), pack_lem r short (IsInRange-fits r h))
