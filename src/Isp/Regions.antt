-- ===== src/Isp/Regions.antt =====
-- The checks of the regions in `main` of kb7-isp-verify.py on what was read of a flash.
use kb.Base.{
  ℕ, ◌+◌, ◌-◌, ◌≤◌, ◌≡◌, refl, ap, ap₂, List, [], ◌∷◌, map, arith, ◌==◌, le→leb, length, take,
  length-take, slice, Bytes, get_elem?-take, slice_equal,
}
use kb.Isp.Reader.{
  isp_flash_base, Region, region_end, slice_index, region_bytes, region_passes, fwin,
}

-- The regions lie in the mapped flash.
abbrev pub AllMapped : List Region → Type 0
AllMapped [] = Unit
AllMapped (r ∷ rest) = (isp_flash_base ≤ r.region_store) × AllMapped rest

-- An address of the mapped flash up to the end of what was read.
slice_index-inside :
    (size address : ℕ)
    → isp_flash_base ≤ address
    → address - isp_flash_base ≤ size
    → slice_index size address ≡ address - isp_flash_base
slice_index-inside size address mapped inside =
    rw (le→leb isp_flash_base address mapped) (omega arith)

pub slice-take :
    (content : Bytes) (q first n : ℕ)
    → first + n ≤ q
    → slice (take q content) first n ≡ slice content first n
slice-take content q first n inside =
    slice_equal (take q content) content first first n
      (λ j below. get_elem?-take q content (first + j) (omega arith))

region_bytes-take :
    (content : Bytes) (q : ℕ) (r : Region)
    → q ≤ length content
    → isp_flash_base ≤ r.region_store
    → r.region_store + r.region_size - isp_flash_base ≤ q
    → region_bytes (take q content) r ≡ region_bytes content r
region_bytes-take content q r whole mapped inside =
    let first = r.region_store - isp_flash_base in
    let last = r.region_store + r.region_size - isp_flash_base in
    let read : length (take q content) ≡ q = omega (arith, length-take q content) in
    rw
      (
        read,
        slice_index-inside q r.region_store mapped (omega arith),
        slice_index-inside q (r.region_store + r.region_size) (omega arith) inside,
        slice_index-inside (length content) r.region_store mapped (omega arith),
        slice_index-inside (length content) (r.region_store + r.region_size) (omega arith)
            (omega arith),
      )
      (slice-take content q first (last - first) (omega arith))

region_end-cons :
    (r : Region) (rest : List Region) (q : ℕ)
    → region_end (r ∷ rest) ≤ q
    → (r.region_store + r.region_size - isp_flash_base ≤ q) × (region_end rest ≤ q)
region_end-cons r rest q h = (ground arith, ground arith)

-- A prefix that has the end of every region passes the checks that the whole passes.
pub region_passes-take :
    (content : Bytes) (q : ℕ) (regions : List Region)
    → q ≤ length content
    → AllMapped regions
    → region_end regions ≤ q
    → map (region_passes (take q content)) regions ≡ map (region_passes content) regions
region_passes-take content q [] whole mapped inside = refl
region_passes-take content q (r ∷ rest) whole mapped inside =
    let (own, others) = region_end-cons r rest q inside in
    ap₂ ◌∷◌
      (ap (λ (bs : Bytes). fwin bs == r.region_checksum)
        (region_bytes-take content q r whole mapped.0 own))
      (region_passes-take content q rest whole mapped.1 others)
