-- ===== src/Common/Find.antt =====
-- std::string::find, and where it finds a separator.
use Prim.Native.Nat.{ℕ, suc}
use mathlib.Core.List.{[], ◌∷◌, ◌++◌}
use mathlib.Core.Bool.{Bool, true, false, ◌&&◌, ◌||◌}
use mathlib.Core.Path.{◌≡◌, refl}
use mathlib.Core.Logic.{inl, inr}
use mathlib.Core.Option.{Option, none, some}
use mathlib.Core.Option
use native.Mathlib.Omega.{arith}
use tube.Common.Tests.{◌==◌, if◌then◌else◌, Bool-cases, Option-cases}
use tube.Common.Lists.{length}
use tube.Common.Text.{Bytes}

unfoldable pub is_prefix : Bytes → Bytes → Bool
is_prefix [] ys = true
is_prefix (x ∷ xs) [] = false
is_prefix (x ∷ xs) (y ∷ ys) = x == y && is_prefix xs ys

-- The index of the first place where the pattern stands.
unfoldable pub find : Bytes → Bytes → Option ℕ
unfolding is_prefix
find pat [] = if is_prefix pat [] then some 0 else none
find pat (x ∷ xs) =
    let rest = Option.map (λ i. suc i) (find pat xs) in
    if is_prefix pat (x ∷ xs) then some 0 else rest

abbrev pub elem : ℕ → Bytes → Bool
elem c [] = false
elem c (x ∷ xs) = x == c || elem c xs

-- A pattern tail that has no p stands before a p only if it stands there without it.
is_prefix-before :
    (ps xs ys : Bytes) (p : ℕ)
    → elem p ps ≡ false
    → is_prefix ps (xs ++ p ∷ ys) ≡ true
    → is_prefix ps xs ≡ true
unfolding is_prefix
is_prefix-before [] xs ys p away h = refl
is_prefix-before (q ∷ ps) [] ys p away h = ground (arith, away, h)
is_prefix-before (q ∷ ps) (x ∷ xs) ys p away h =
    ground (arith, is_prefix-before ps xs ys p, away, h)

is_prefix_self : (xs ys : Bytes) → is_prefix xs (xs ++ ys) ≡ true
unfolding is_prefix
is_prefix_self [] ys = refl
is_prefix_self (x ∷ xs) ys = ground (arith, is_prefix_self xs ys)

-- Behind a text in which a pattern does not stand, the pattern is found at the end of the text, when
-- its first character does not come again in it.
pub find-separator :
    (p : ℕ) (ps xs ys : Bytes)
    → elem p ps ≡ false
    → find (p ∷ ps) xs ≡ none
    → find (p ∷ ps) (xs ++ ((p ∷ ps) ++ ys)) ≡ some (length xs)
unfolding find is_prefix
find-separator p ps [] ys away h = rw (is_prefix_self (p ∷ ps) ys) refl
find-separator p ps (x ∷ xs) ys away h = elim (Bool-cases (is_prefix (p ∷ ps) (x ∷ xs))) [
  | inl there ↦ ground (arith, h, there)
  | inr gone ↦ rw (not_here gone) (rw (find-separator p ps xs ys away (later gone)) refl)
]
  where
    later : is_prefix (p ∷ ps) (x ∷ xs) ≡ false → find (p ∷ ps) xs ≡ none
    later gone = elim (Option-cases (find (p ∷ ps) xs)) [
      | inl nothing ↦ nothing
      | inr found ↦ ground (arith, h, gone, found.1)
    ]

    not_here :
        is_prefix (p ∷ ps) (x ∷ xs) ≡ false
        → is_prefix (p ∷ ps) (x ∷ (xs ++ ((p ∷ ps) ++ ys))) ≡ false
    not_here gone = ground (arith, gone, is_prefix-before ps xs (ps ++ ys) p, away)
