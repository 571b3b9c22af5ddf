-- ===== src/Storage/Programmed.antt =====
-- What `program` leaves in the flash, and that it touches nothing else.
use kb.Base.{
  ℕ, ◌+◌, bit_and, bit_or, ◌≡◌, refl, ◌∙◌, some, [], ◌∷◌, ◌++◌, append_assoc, arith, length,
  get_elem?, set, replicate, length-append, get_elem?-append_middle, set-append_middle, Bytes,
  IsBytes, bit_or-full, bit_and-full, ok,
}
use kb.Storage.Nor.{program}

-- Each new byte only clears bits of the old one.
abbrev pub Writable : Bytes → Bytes → Type 0
Writable [] [] = Unit
Writable [] (o ∷ os) = ⊥
Writable (v ∷ vs) [] = ⊥
Writable (v ∷ vs) (o ∷ os) = (bit_or v o ≡ o) × (bit_and o v ≡ v) × Writable vs os

program-step :
    (i v : ℕ) (vs : Bytes) (flash : Bytes) (o : ℕ)
    → get_elem? flash i ≡ some o
    → bit_or v o ≡ o
    → bit_and o v ≡ v
    → program i (v ∷ vs) flash ≡ program (i + 1) vs (set flash i v)
unfolding program
program-step i v vs flash o e h k = ground arith

-- Writable bytes are stored exactly, and their neighbours stay.
pub program_lem :
    (pre new old post : Bytes)
    → Writable new old
    → program (length pre) new (pre ++ (old ++ post)) ≡ (ok tt, pre ++ (new ++ post))
unfolding program
program_lem pre [] [] post w = refl
program_lem pre [] (o ∷ os) post w = elim w [ ]
program_lem pre (v ∷ vs) [] post w = elim w [ ]
program_lem pre (v ∷ vs) (o ∷ os) post w =
    let at : length (pre ++ (v ∷ [])) ≡ length pre + 1 = length-append pre (v ∷ []) in
    program-step (length pre) v vs (pre ++ (o ∷ (os ++ post))) o
      (get_elem?-append_middle pre (os ++ post) o) w.0 w.1
    ∙ rw
        (
          set-append_middle pre (os ++ post) o v,
          ← at,
          ← append_assoc pre (v ∷ []) (os ++ post),
          ← append_assoc pre (v ∷ []) (vs ++ post),
        )
        (program_lem (pre ++ (v ∷ [])) vs os post w.2)

-- An erased area takes any bytes.
pub Writable-erased : (new : Bytes) → IsBytes new → Writable new (replicate (length new) 255)
Writable-erased [] b = tt
Writable-erased (v ∷ vs) b = (bit_or-full v b.0, bit_and-full v b.0, Writable-erased vs b.1)

-- The same inside a region that has a part of its own before and behind.
pub program-inside :
    (i : ℕ) (pre front new old rest post : Bytes)
    → length pre + length front ≡ i
    → Writable new old
    → program i new (pre ++ ((front ++ (old ++ rest)) ++ post))
      ≡ (ok tt, pre ++ ((front ++ (new ++ rest)) ++ post))
program-inside i pre front new old rest post at w =
    rw (← at, ← length-append pre front, regroup old, regroup new)
      (program_lem (pre ++ front) new old (rest ++ post) w)
  where
    regroup :
        (ys : Bytes)
        → pre ++ ((front ++ (ys ++ rest)) ++ post) ≡ (pre ++ front) ++ (ys ++ (rest ++ post))
    regroup ys = simp append_assoc
