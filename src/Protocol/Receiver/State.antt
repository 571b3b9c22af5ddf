-- ===== src/Protocol/Receiver/State.antt =====
-- The state of `OfflineReceiver`, its answers and the statuses of protocol.py.
use kb.Base.{ℕ, Bool, false, ◌||◌, List, [], ◌∷◌, ◌==◌, if◌then◌else◌, Bytes}
use kb.Protocol.Transfer.{store_screen, store_profile}

-- The status of a response.
pub data Status : Type 0 where
  ok_status bad_length bad_state bad_crc range_status unsupported : Status

-- `OK, BAD_VERSION, BAD_CRC, BAD_LENGTH, BAD_STATE, RANGE, STORAGE, UNSUPPORTED = range(8)`
abbrev pub status_code : Status → ℕ
status_code ok_status = 0
status_code bad_crc = 2
status_code bad_length = 3
status_code bad_state = 4
status_code range_status = 5
status_code unsupported = 7

abbrev pub reset_token : ℕ
reset_token = 0x4b423752

abbrev pub capabilities : ℕ
capabilities = 0x1f

-- b"RESETKB7"
abbrev pub reset_text : Bytes
reset_text = 0x52 ∷ 0x45 ∷ 0x53 ∷ 0x45 ∷ 0x54 ∷ 0x4b ∷ 0x42 ∷ 0x37 ∷ []

-- The two validators that COMMIT runs: `parse_binary` and `parse_profile_binary`, true where they
-- return and false where they raise.
pub record Validators : Type 0 where
  pub accepts_screen : Bytes → Bool
  pub accepts_profile : Bytes → Bool

-- The attributes; the two dictionaries have one field for each of their two keys.
pub record Receiver : Type 0 where
  pub screen_capacity : ℕ
  pub profile_capacity : ℕ
  pub stored_screen : Bytes
  pub stored_profile : Bytes
  pub runtime_screen_ids : List ℕ
  pub selected_screen : ℕ
  pub receiving : Bool
  pub transfer_id : ℕ
  pub expected : ℕ
  pub expected_crc : ℕ
  pub next_offset : ℕ
  pub buffer : Bytes
  pub store : ℕ

-- `abort`
unfoldable pub abort : Receiver → Receiver
abort c = record c {
  receiving = false;
  transfer_id = 0;
  expected = 0;
  expected_crc = 0;
  next_offset = 0;
  buffer = [];
  store = store_screen;
}

abbrev pub stored : Receiver → ℕ → Bytes
stored c store = if store == store_screen then c.stored_screen else c.stored_profile

-- `self.stores[store] = value`
abbrev pub put_store : Receiver → ℕ → Bytes → Receiver
put_store c store value = record c {
  stored_screen = if store == store_screen then value else c.stored_screen;
  stored_profile = if store == store_screen then c.stored_profile else value;
}

-- `x in xs`
abbrev pub contains : List ℕ → ℕ → Bool
contains [] a = false
contains (x ∷ xs) a = x == a || contains xs a

-- How a branch of `process` leaves the receiver, and what it answers.
pub record Reply : Type 0 where
  pub state : Receiver
  pub status : Status
  pub payload : Bytes

abbrev pub refuse : Receiver → Status → Reply
refuse c s = record { state = c; status = s; payload = [] }

abbrev pub accept : Receiver → Reply
accept c = record { state = c; status = ok_status; payload = [] }

abbrev pub is_store : ℕ → Bool
is_store flags = flags == store_screen || flags == store_profile
