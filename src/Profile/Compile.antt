-- ===== src/Profile/Compile.antt =====
-- `compile_profile_binary` of profile_binary.py behind the compilation of its records, and the
-- default action table.
use kb.Base.{
  ℕ, ◌+◌, ◌&&◌, not, List, [], ◌∷◌, ◌++◌, leb, ◌==◌, ◌!=◌, if◌then◌else◌, length, replicate, Bytes,
  le, crc32, Result, ok, err,
}
use kb.Profile.Record.{ProfileFault, profile_format_error, record_size, is_keyboard_usage}
use kb.Profile.Container.{container_magic, container_version, container_header, profile_count_max}

-- `DEFAULT_USAGES`
abbrev pub default_usages : Bytes
default_usages =
    0x29 ∷ 0x1f ∷ 0x39 ∷ 0x64 ∷ 0x3b ∷ 0x21 ∷ 0x07 ∷ 0x06 ∷ 0x3e ∷ 0x25 ∷ 0x0c ∷ 0x05 ∷ 0x40 ∷ 0x27
    ∷ 0x0f ∷ 0x37 ∷ 0x43 ∷ 0x2a ∷ 0x28 ∷ 0xe4 ∷ 0x3a ∷ 0x2b ∷ 0x04 ∷ 0x1d ∷ 0x3c ∷ 0x22 ∷ 0x09
    ∷ 0x19 ∷ 0x3f ∷ 0x17 ∷ 0x0b ∷ 0x11 ∷ 0x41 ∷ 0x2d ∷ 0x33 ∷ 0x38 ∷ 0x44 ∷ 0x2f ∷ 0xe5 ∷ 0x50
    ∷ 0x35 ∷ 0x14 ∷ 0x16 ∷ 0xe0 ∷ 0x3d ∷ 0x08 ∷ 0x0a ∷ 0xe2 ∷ 0x23 ∷ 0x1c ∷ 0x0d ∷ 0x10 ∷ 0x42
    ∷ 0x12 ∷ 0x34 ∷ 0xe6 ∷ 0x45 ∷ 0x30 ∷ 0x52 ∷ 0x51 ∷ 0x1e ∷ 0x1a ∷ 0xe1 ∷ 0xe3 ∷ 0x20 ∷ 0x15
    ∷ 0x1b ∷ 0x2c ∷ 0x24 ∷ 0x18 ∷ 0x0e ∷ 0x36 ∷ 0x26 ∷ 0x13 ∷ 0x32 ∷ 0x65 ∷ 0x2e ∷ 0x31 ∷ 0xf1
    ∷ 0x4f ∷ 0x8a ∷ 0x87 ∷ 0x8b ∷ 0x88 ∷ 0x89 ∷ []

-- `struct.pack("<HBB", code, kind, argument)`
abbrev pub action_bytes : ℕ → ℕ → ℕ → Bytes
action_bytes code kind argument = le 2 code ++ (kind ∷ argument ∷ [])

abbrev pub default_action : ℕ → ℕ → Bytes
default_action mode usage =
    if mode != 0
    then action_bytes 0 0 0
    else if usage == 0xf1
    then action_bytes 0 4 3
    else if is_keyboard_usage usage
    then action_bytes usage 2 0
    else action_bytes 0 1 0

abbrev pub mode_defaults : ℕ → Bytes → Bytes
mode_defaults mode [] = []
mode_defaults mode (usage ∷ usages) = default_action mode usage ++ mode_defaults mode usages

-- `_default_actions`
unfoldable pub default_actions : Bytes
default_actions =
    mode_defaults 0 default_usages
    ++ (mode_defaults 1 default_usages
        ++ (mode_defaults 2 default_usages ++ mode_defaults 3 default_usages))

-- `b"".join(records)`
abbrev pub join : List Bytes → Bytes
join [] = []
join (x ∷ xs) = x ++ join xs

-- `HEADER.pack`, for the body and the numbers of a container.
abbrev pub container_bytes : ℕ → ℕ → Bytes → Bytes
container_bytes count active body =
    le 4 container_magic
    ++ (le 2 container_version
        ++ (le 2 container_header
            ++ (le 4 (container_header + length body)
                ++ (le 4 (crc32 body)
                    ++ (le 1 count
                        ++ (le 1 active
                            ++ (le 2 record_size
                                ++ (le 4 container_header
                                    ++ (le 4 0 ++ (replicate 20 0 ++ body))))))))))

-- The guards of a profile set, and its container.
unfoldable pub compile_set : ℕ → List Bytes → Result ProfileFault Bytes
compile_set active records =
    if not (leb 1 (length records) && leb (length records) profile_count_max)
    then err profile_format_error
    else if leb (length records) active
    then err profile_format_error
    else ok (container_bytes (length records) active (join records))
