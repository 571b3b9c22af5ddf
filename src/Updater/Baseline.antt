-- ===== src/Updater/Baseline.antt =====
-- The captured baseline in kb7-updater-plan.py: `parse_manifest` and `validate_baseline`. The text
-- of a SHA-256 is a parameter, and so is the dictionary of the anchors.
use kb.Base.{
  ℕ, ◌+◌, ◌-◌, Bool, ◌&&◌, [], ◌∷◌, ltb, leb, ◌==◌, length, take, slice, Bytes, le_value, eq_bytes,
  Result, ok,
}
use kb.Updater.Regions.{
  PlanFault, flash_bytes, flash_base, sector_bytes, core0_start, core0_length, core0_envelope_end,
  core1_start, core1_length, core1_envelope_end, core0_spec, core1_spec,
}
use kb.Updater.Operations.{require, erased}
use kb.Updater.Sequence.{◌>>=◌, fwin_checksum}

abbrev pub loader_start : ℕ
loader_start = 0x1000

abbrev pub manifest_start : ℕ
manifest_start = 0x10000

abbrev pub region2_start : ℕ
region2_start = 0x100000

abbrev pub region2_length : ℕ
region2_length = 0x146af8c

-- A record of the manifest, without its index.
pub record ManifestRegion : Type 0 where
  pub load : ℕ
  pub stored_at : ℕ
  pub stored_length : ℕ
  pub checksum : ℕ

-- `struct.unpack_from("<IIII", manifest, offset)`, inside the manifest.
abbrev pub manifest_region : Bytes → ℕ → ManifestRegion
manifest_region manifest offset = record {
  load = le_value (slice manifest offset 4);
  stored_at = le_value (slice manifest (offset + 4) 4);
  stored_length = le_value (slice manifest (offset + 8) 4);
  checksum = le_value (slice manifest (offset + 12) 4);
}

-- A record against the four values that are expected of it.
abbrev pub is_region : ManifestRegion → ℕ → ℕ → ℕ → ℕ → Bool
is_region r load stored_at stored_length checksum =
    (r.load == load)
    && (r.stored_at == stored_at)
    && (r.stored_length == stored_length)
    && (r.checksum == checksum)

-- The four records.
pub record Manifest : Type 0 where
  pub region0 : ManifestRegion
  pub region1 : ManifestRegion
  pub region2 : ManifestRegion
  pub region3 : ManifestRegion

abbrev pub manifest_regions : Bytes → Manifest
manifest_regions manifest = record {
  region0 = manifest_region manifest 0x20;
  region1 = manifest_region manifest 0x30;
  region2 = manifest_region manifest 0x40;
  region3 = manifest_region manifest 0x50;
}

-- `b"SN_FWIN\0"` and `b"v1.0.00\0"`
abbrev pub manifest_magic : Bytes
manifest_magic = 83 ∷ 78 ∷ 95 ∷ 70 ∷ 87 ∷ 73 ∷ 78 ∷ 0 ∷ []

abbrev pub manifest_version : Bytes
manifest_version = 118 ∷ 49 ∷ 46 ∷ 48 ∷ 46 ∷ 48 ∷ 48 ∷ 0 ∷ []

-- The loop over the records and what is expected of them.
abbrev pub is_layout : Manifest → Bool
is_layout m =
    is_region m.region0 core0_spec.vma (flash_base + core0_start) core0_length
      core0_spec.manifest_checksum
    && is_region m.region1 core1_spec.vma (flash_base + core1_start) core1_length
        core1_spec.manifest_checksum
    && is_region m.region2 (flash_base + region2_start) (flash_base + region2_start) region2_length
        m.region2.checksum
    && is_region m.region3 0x18000000 (flash_base + core1_start) 0 0

unfoldable pub parse_manifest : Bytes → Result PlanFault Manifest
parse_manifest manifest =
    require (length manifest == sector_bytes && eq_bytes (take 8 manifest) manifest_magic) (
      require (eq_bytes (slice manifest 8 8) manifest_version)
        (let regions = manifest_regions manifest in require (is_layout regions) (ok regions)))

-- The texts of `STOCK_SHA256`, or of other anchors.
pub record Anchors : Type 0 where
  pub header_anchor : Bytes
  pub loader_anchor : Bytes
  pub manifest_anchor : Bytes
  pub core0_anchor : Bytes
  pub core1_anchor : Bytes

-- `slices`
pub record BaselineSlices : Type 0 where
  pub header_slice : Bytes
  pub loader_slice : Bytes
  pub manifest_slice : Bytes
  pub core0_slice : Bytes
  pub core1_slice : Bytes

abbrev pub slices_of : Bytes → BaselineSlices
slices_of image = record {
  header_slice = slice image 0 loader_start;
  loader_slice = slice image loader_start (manifest_start - loader_start);
  manifest_slice = slice image manifest_start (core0_start - manifest_start);
  core0_slice = slice image core0_start core0_length;
  core1_slice = slice image core1_start core1_length;
}

abbrev pub is_anchored : (Bytes → Bytes) → BaselineSlices → Anchors → Bool
is_anchored sha256 s anchors =
    eq_bytes (sha256 s.header_slice) anchors.header_anchor
    && eq_bytes (sha256 s.loader_slice) anchors.loader_anchor
    && eq_bytes (sha256 s.manifest_slice) anchors.manifest_anchor
    && eq_bytes (sha256 s.core0_slice) anchors.core0_anchor
    && eq_bytes (sha256 s.core1_slice) anchors.core1_anchor

-- One round of the loop over the first three records; a store below the flash is out of it.
abbrev pub is_checked : Bytes → ManifestRegion → Bool
is_checked image r =
    let start = r.stored_at - flash_base in
    let end = start + r.stored_length in
    leb flash_base r.stored_at
    && ltb start end
    && leb end (length image)
    && (fwin_checksum (slice image start r.stored_length) == r.checksum)

-- `b"SNC7320A"`
abbrev pub header_magic : Bytes
header_magic = 83 ∷ 78 ∷ 67 ∷ 55 ∷ 51 ∷ 50 ∷ 48 ∷ 65 ∷ []

abbrev pub is_tail_erased : Bytes → ℕ → ℕ → Bool
is_tail_erased image start end = eq_bytes (slice image start (end - start)) (erased (end - start))

-- The digest of the image, its slices and its manifest.
pub record BaselineInfo : Type 0 where
  pub baseline_sha256 : Bytes
  pub slices : BaselineSlices
  pub manifest : Manifest

unfoldable pub validate_baseline : (Bytes → Bytes) → Anchors → Bytes → Result PlanFault BaselineInfo
validate_baseline sha256 anchors image =
    let s = slices_of image in
    require (length image == flash_bytes) (
      require (eq_bytes (take 8 s.header_slice) header_magic) (
        require (is_anchored sha256 s anchors) (
          parse_manifest s.manifest_slice >>= λ m.
          require
            (is_checked image m.region0 && is_checked image m.region1 && is_checked image m.region2)
            (require (is_tail_erased image (core0_start + core0_length) core0_envelope_end) (
              require (is_tail_erased image (core1_start + core1_length) core1_envelope_end)
                (ok (record { baseline_sha256 = sha256 image; slices = s; manifest = m })))))))
