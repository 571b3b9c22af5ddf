-- ===== src/Screen/Lists.antt =====
-- The identifiers and the widgets of the screens of a document.
use kb.Base.{
  ℕ, ◌≡◌, refl, sym, ap, ◌∙◌, Bool, false, ◌||◌, List, [], ◌∷◌, ◌++◌, append_assoc, append-nil,
  arith, ◌==◌,
}
use kb.Screen.Parser.{WidgetEntry, ScreenEntry, is_member}

abbrev pub entry_ids : List ScreenEntry → List ℕ
entry_ids [] = []
entry_ids (e ∷ es) = e.id ∷ entry_ids es

abbrev pub all_widgets : List ScreenEntry → List WidgetEntry
all_widgets [] = []
all_widgets (e ∷ es) = e.widgets ++ all_widgets es

abbrev pub Distinct : List ℕ → Type 0
Distinct [] = Unit
Distinct (x ∷ xs) = (is_member x xs ≡ false) × Distinct xs

-- One more element at the end.
pub is_member-append_one :
    (v : ℕ) (xs : List ℕ) (y : ℕ) → is_member v (xs ++ (y ∷ [])) ≡ (v == y || is_member v xs)
is_member-append_one v [] y = refl
is_member-append_one v (x ∷ xs) y =
    rw (is_member-append_one v xs y) (swap (v == x) (v == y) (is_member v xs))
  where
    swap : (a b c : Bool) → (a || (b || c)) ≡ (b || (a || c))
    swap a b c = ground arith

pub Distinct-append_one :
    (xs : List ℕ) (y : ℕ) → Distinct xs → is_member y xs ≡ false → Distinct (xs ++ (y ∷ []))
Distinct-append_one [] y d h = (refl, tt)
Distinct-append_one (x ∷ xs) y d h =
    let parts = apart y x (is_member y xs) h in
    (is_member-append_one x xs y ∙ rw (parts.0, d.0), Distinct-append_one xs y d.1 parts.1)
  where
    apart : (a b : ℕ) (c : Bool) → (a == b || c) ≡ false → ((b == a) ≡ false) × (c ≡ false)
    apart a b c h = ground arith

pub entry_ids-append :
    (es : List ScreenEntry) (e : ScreenEntry)
    → entry_ids (es ++ (e ∷ [])) ≡ entry_ids es ++ (e.id ∷ [])
entry_ids-append [] e = refl
entry_ids-append (x ∷ es) e = ap (◌∷◌ x.id) (entry_ids-append es e)

pub all_widgets-append :
    (es : List ScreenEntry) (e : ScreenEntry)
    → all_widgets (es ++ (e ∷ [])) ≡ all_widgets es ++ e.widgets
all_widgets-append [] e = append-nil e.widgets
all_widgets-append (x ∷ es) e =
    ap (λ ws. x.widgets ++ ws) (all_widgets-append es e)
    ∙ sym (append_assoc x.widgets (all_widgets es) e.widgets)
