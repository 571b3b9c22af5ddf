-- ===== src/Protocol/Wire.antt =====
-- Frames on their way: packed by the host, unpacked and processed by the receiver.
use kb.Base.{
  ℕ, ◌≤◌, ◌≡◌, refl, List, [], ◌∷◌, length, Bytes, ljust, length-ljust, ljust-full, Result, ok, err,
}
use kb.Protocol.Report.{Report, ProtocolFault, payload_size}
use kb.Protocol.Receiver.{Validators, Receiver, process}
use kb.Protocol.Report.{pack, unpack}
use kb.Protocol.Framing.{IsInRange}
use kb.Protocol.Frames.{unpack-pack, pack_fits}

-- The loop of the command `protocol-plan` over the frames.
unfoldable pub pack_all : List Report → Result ProtocolFault (List Bytes)
pack_all [] = ok []
pack_all (m ∷ ms) = elim (pack m) [
  | err e ↦ err e
  | ok frame ↦ elim (pack_all ms) [ err e ↦ err e | ok frames ↦ ok (frame ∷ frames) ]
]

module _ (v : Validators) where
  -- One frame at the receiver.
  unfoldable pub receive : Receiver → Bytes → Result ProtocolFault (Receiver × Report)
  receive c frame = elim (unpack frame) [ err e ↦ err e | ok m ↦ process v c m ]

  -- The frames one after the other, with the status of each answer.
  unfoldable pub receive_all : Receiver → List Bytes → Result ProtocolFault (Receiver × List ℕ)
  receive_all c [] = ok (c, [])
  receive_all c (frame ∷ frames) = elim (receive c frame) [
    | err e ↦ err e
    | ok (c', r) ↦ elim (receive_all c' frames) [
      | err e ↦ err e
      | ok (c'', statuses) ↦ ok (c'', r.status ∷ statuses)
    ]
  ]

-- A report as it arrives.
abbrev pub on_wire : Report → Report
on_wire m = record m { payload = ljust payload_size m.payload }

pub receive-pack :
    (v : Validators) (c : Receiver) (m : Report) (frame : Bytes)
    → pack m ≡ ok frame
    → receive v c frame ≡ process v c (on_wire m)
unfolding receive
receive-pack v c m frame h = rw (unpack-pack m frame h, receive)

pub ljust-ljust : (n : ℕ) (xs : Bytes) → length xs ≤ n → ljust n (ljust n xs) ≡ ljust n xs
ljust-ljust n xs h = ljust-full n (ljust n xs) (length-ljust n xs h)

-- A plan whose reports are all in range is packed, and its first frame is processed as it arrives.
pub record Delivered (v : Validators) (c : Receiver) (ms : List Report) (c' : Receiver)
    (statuses : List ℕ) : Type 0 where
  pub frames : List Bytes
  pub packed : pack_all ms ≡ ok frames
  pub received : receive_all v c frames ≡ ok (c', statuses)

pub Delivered-nil : (v : Validators) (c : Receiver) → Delivered v c [] c []
unfolding pack_all receive_all
Delivered-nil v c = record { frames = []; packed = refl; received = refl }

pub Delivered-cons :
    (v : Validators) (c c' c'' : Receiver) (m r : Report) (ms : List Report) (statuses : List ℕ)
    → length m.payload ≤ 36
    → IsInRange m
    → process v c (on_wire m) ≡ ok (c', r)
    → Delivered v c' ms c'' statuses
    → Delivered v c (m ∷ ms) c'' (r.status ∷ statuses)
unfolding pack_all receive_all
Delivered-cons v c c' c'' m r ms statuses short range h d =
    let (frame, p) = pack_fits m short range in cons frame p
  where
    cons : (frame : Bytes) → pack m ≡ ok frame → Delivered v c (m ∷ ms) c'' (r.status ∷ statuses)
    cons frame p = record {
      frames = frame ∷ d.frames;
      packed = rw (pack_all, p, d.packed);
      received = rw (receive_all, receive-pack v c m frame p, h, d.received);
    }
