-- ===== src/Base/Texts.antt =====
-- Strict UTF-8, as `bytes.decode("utf-8")` takes it.
use Prim.Native.Nat.{ℕ}
use mathlib.Core.Path.{◌≡◌, refl}
use mathlib.Core.Bool.{Bool, true, false, ◌&&◌}
use mathlib.Core.Option.{Option, none, some}
use mathlib.Core.List.{List, [], ◌∷◌}
use kb.Base.Tests.{leb, if◌then◌else◌}
use kb.Base.ByteStrings.{Bytes}

-- The ranges of the bytes that must follow a first byte; none after a byte that starts nothing.
abbrev pub continuations : ℕ → Option (List (ℕ × ℕ))
continuations x =
    let tail : ℕ × ℕ = (0x80, 0xbf) in
    if leb x 0x7f
    then some []
    else if leb 0xc2 x && leb x 0xdf
    then some (tail ∷ [])
    else if leb 0xe0 x && leb x 0xe0
    then some ((0xa0, 0xbf) ∷ tail ∷ [])
    else if leb 0xed x && leb x 0xed
    then some ((0x80, 0x9f) ∷ tail ∷ [])
    else if leb 0xe1 x && leb x 0xef
    then some (tail ∷ tail ∷ [])
    else if leb 0xf0 x && leb x 0xf0
    then some ((0x90, 0xbf) ∷ tail ∷ tail ∷ [])
    else if leb 0xf1 x && leb x 0xf3
    then some (tail ∷ tail ∷ tail ∷ [])
    else if leb 0xf4 x && leb x 0xf4
    then some ((0x80, 0x8f) ∷ tail ∷ tail ∷ [])
    else none

-- A text of which these bytes are still to come.
abbrev pub is_text_after : List (ℕ × ℕ) → Bytes → Bool
is_text_after [] [] = true
is_text_after (p ∷ ps) [] = false
is_text_after [] (x ∷ xs) = elim (continuations x) [ none ↦ false | some ps ↦ is_text_after ps xs ]
is_text_after ((low, high) ∷ ps) (x ∷ xs) = leb low x && leb x high && is_text_after ps xs

unfoldable pub is_utf8 : Bytes → Bool
is_utf8 xs = is_text_after [] xs

-- The euro sign is a text, and a surrogate is none.
euro_lem : is_utf8 (0xe2 ∷ 0x82 ∷ 0xac ∷ []) ≡ true
unfolding is_utf8
euro_lem = refl

surrogate_lem : is_utf8 (0xed ∷ 0xa0 ∷ 0x80 ∷ []) ≡ false
unfolding is_utf8
surrogate_lem = refl
