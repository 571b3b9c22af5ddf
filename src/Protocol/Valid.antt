-- ===== src/Protocol/Valid.antt =====
-- The invariant of the receiver, kept by every frame.
use kb.Base.{
  ℕ, ◌+◌, ◌≤◌, ◌≡◌, refl, ap, ◌∙◌, ◌≢◌, ◌⊎◌, inl, inr, Bool, true, false, [], arith, ◌==◌,
  Bool-cases, length, take, length-append, length-take, Bytes, crc32,
}
use kb.Protocol.Report.{Report}
use kb.Protocol.Transfer.{store_screen, slot_header_bytes}
use kb.Protocol.Receiver.{
  Validators, Receiver, abort, put_store, contains, is_store, lower_limit, is_above, begun,
  chunk_size, extended, on_begin, on_write, accepts, on_commit, on_abort, on_select,
  on_factory_reset,
}

-- A stored payload is empty, or it passed its validator and fits its slot.
abbrev pub IsStored : (Bytes → Bool) → ℕ → ℕ → Bytes → Type 0
IsStored accepts_it least capacity content =
    (length content ≡ 0)
    ⊎ ((accepts_it content ≡ true)
        × (least ≤ length content)
        × (length content + slot_header_bytes ≤ capacity))

-- What a transfer in progress has been checked for.
pub record IsAdmitted (c : Receiver) : Type 0 where
  pub named : c.transfer_id ≢ 0
  pub known : is_store c.store ≡ true
  pub enough : lower_limit c.store ≤ c.expected
  pub within : is_above c c.store c.expected ≡ false

module _ (v : Validators) where
  pub record IsValid (c : Receiver) : Type 0 where
    pub counted : length c.buffer ≡ c.next_offset
    pub bounded : c.next_offset ≤ c.expected
    pub admitted : c.receiving ≡ true → IsAdmitted c
    pub idle : c.receiving ≡ false → c ≡ abort c
    pub screen : IsStored v.accepts_screen 64 c.screen_capacity c.stored_screen
    pub profile : IsStored v.accepts_profile 1840 c.profile_capacity c.stored_profile
    pub selected :
        (contains c.runtime_screen_ids c.selected_screen ≡ true)
        ⊎ ((c.runtime_screen_ids ≡ []) × (c.selected_screen ≡ 0))

  module _ (c : Receiver) (h : IsValid c) where
    pub abort-IsValid : IsValid (abort c)
    unfolding abort
    abort-IsValid = record {
      counted = refl;
      bounded = omega arith;
      admitted = λ e. cc;
      idle = λ e. refl;
      screen = h.screen;
      profile = h.profile;
      selected = h.selected;
    }

    pub on_begin-cases :
        (m : Report) (padded : Bytes)
        → ((on_begin c m padded).state ≡ c)
          ⊎ ((on_begin c m padded).state ≡ begun c m)
            × (m.transfer_id ≢ 0)
            × (is_store m.flags ≡ true)
            × (lower_limit m.flags ≤ m.total_length)
            × (is_above c m.flags m.total_length ≡ false)
    unfolding on_begin
    on_begin-cases m padded = ground arith

    pub on_write-cases :
        (m : Report) (padded : Bytes)
        → ((on_write c m padded).state ≡ c)
          ⊎ ((on_write c m padded).state ≡ extended c padded) × (c.receiving ≡ true)
    unfolding on_write
    on_write-cases m padded = ground arith

    pub on_commit-cases :
        (m : Report) (padded : Bytes)
        → ((on_commit v c m padded).state ≡ c)
          ⊎ ((on_commit v c m padded).state ≡ abort (put_store c c.store c.buffer))
            × (c.receiving ≡ true)
            × (c.next_offset ≡ c.expected)
            × (crc32 c.buffer ≡ c.expected_crc)
            × (accepts v c.store c.buffer ≡ true)
    unfolding on_commit
    on_commit-cases m padded = ground arith

    pub on_abort-cases :
        (m : Report) (padded : Bytes)
        → ((on_abort c m padded).state ≡ c) ⊎ ((on_abort c m padded).state ≡ abort c)
    unfolding on_abort
    on_abort-cases m padded = ground arith

    pub on_select-cases :
        (m : Report) (padded : Bytes)
        → ((on_select c m padded).state ≡ c)
          ⊎ ((on_select c m padded).state ≡ record c { selected_screen = m.offset })
            × (contains c.runtime_screen_ids m.offset ≡ true)
    unfolding on_select
    on_select-cases m padded = ground arith

    pub on_factory_reset-cases :
        (m : Report) (padded : Bytes)
        → ((on_factory_reset c m padded).state ≡ c)
          ⊎ ((on_factory_reset c m padded).state
              ≡ abort (record c { stored_screen = []; stored_profile = [] }))
    unfolding on_factory_reset
    on_factory_reset-cases m padded = ground arith

    pub begun-IsValid :
        (m : Report)
        → m.transfer_id ≢ 0
        → is_store m.flags ≡ true
        → lower_limit m.flags ≤ m.total_length
        → is_above c m.flags m.total_length ≡ false
        → IsValid (begun c m)
    begun-IsValid m named known enough within = record {
      counted = refl;
      bounded = omega arith;
      admitted = λ e. record { named = named; known = known; enough = enough; within = within };
      idle = λ e. cc;
      screen = h.screen;
      profile = h.profile;
      selected = h.selected;
    }

    pub extended-IsValid :
        (padded : Bytes) → length padded ≡ 36 → c.receiving ≡ true → IsValid (extended c padded)
    extended-IsValid padded full going = record {
      counted = omega (
        arith,
        h.counted,
        full,
        length-append c.buffer (take (chunk_size c) padded),
        length-take (chunk_size c) padded,
      );
      bounded = omega (arith, h.bounded);
      admitted = λ e.
          let a = h.admitted e in
          record { named = a.named; known = a.known; enough = a.enough; within = a.within };
      idle = λ e. cc;
      screen = h.screen;
      profile = h.profile;
      selected = h.selected;
    }

    -- A complete transfer that its validator accepts may be stored.
    committed-IsStored :
        c.receiving ≡ true
        → c.next_offset ≡ c.expected
        → accepts v c.store c.buffer ≡ true
        → let c' = put_store c c.store c.buffer in
          IsStored v.accepts_screen 64 c.screen_capacity c'.stored_screen
          × IsStored v.accepts_profile 1840 c.profile_capacity c'.stored_profile
    committed-IsStored going complete good = elim (Bool-cases (c.store == store_screen)) [
      | inl e ↦ rw e (inr (rw e at good, fits_screen e, fits_screen_slot e), h.profile)
      | inr e ↦ rw e (h.screen, inr (rw e at good, fits_profile e, fits_profile_slot e))
    ]
      where
        a : IsAdmitted c
        a = h.admitted going

        sized : length c.buffer ≡ c.expected
        sized = h.counted ∙ complete

        fits_screen : (c.store == store_screen) ≡ true → 64 ≤ length c.buffer
        fits_screen e = let low = a.enough in ground (arith, sized)

        fits_screen_slot :
            (c.store == store_screen) ≡ true
            → length c.buffer + slot_header_bytes ≤ c.screen_capacity
        fits_screen_slot e = let high = a.within in ground (arith, sized)

        fits_profile : (c.store == store_screen) ≡ false → 1840 ≤ length c.buffer
        fits_profile e = let low = a.enough in ground (arith, sized)

        fits_profile_slot :
            (c.store == store_screen) ≡ false
            → length c.buffer + slot_header_bytes ≤ c.profile_capacity
        fits_profile_slot e = let high = a.within in ground (arith, sized)

    pub committed-IsValid :
        c.receiving ≡ true
        → c.next_offset ≡ c.expected
        → accepts v c.store c.buffer ≡ true
        → IsValid (abort (put_store c c.store c.buffer))
    unfolding abort
    committed-IsValid going complete good =
        let kept = committed-IsStored going complete good in
        record {
          counted = refl;
          bounded = omega arith;
          admitted = λ e. cc;
          idle = λ e. refl;
          screen = kept.0;
          profile = kept.1;
          selected = h.selected;
        }

    pub reset-IsValid : IsValid (abort (record c { stored_screen = []; stored_profile = [] }))
    unfolding abort
    reset-IsValid = record {
      counted = refl;
      bounded = omega arith;
      admitted = λ e. cc;
      idle = λ e. refl;
      screen = inl refl;
      profile = inl refl;
      selected = h.selected;
    }

    pub select-IsValid :
        (id : ℕ)
        → contains c.runtime_screen_ids id ≡ true
        → IsValid (record c { selected_screen = id })
    unfolding abort
    select-IsValid id known = record {
      counted = h.counted;
      bounded = h.bounded;
      admitted = λ e.
          let a = h.admitted e in
          record { named = a.named; known = a.known; enough = a.enough; within = a.within };
      idle = λ e. ap (λ (d : Receiver). record d { selected_screen = id }) (h.idle e);
      screen = h.screen;
      profile = h.profile;
      selected = inl known;
    }
