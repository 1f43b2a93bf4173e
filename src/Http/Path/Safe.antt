-- ===== src/Http/Path/Safe.antt =====
-- string_remove_dots against the slash-separated components of a path.
mod Tests
use tube.Common.{
  ℕ, zero, suc, ◌<◌, ◌≤◌, Bytes, codes, bytes_eq, Bool, true, false, List, [], ◌∷◌, ◌++◌, ◌==◌, ◌≡◌,
  ◌∙◌, refl, ap, ◌≢◌, inl, inr, arith, if◌then◌else◌, length, All, append-nil, Bool-cases,
  bytes_eq_refl, subst, ◌||◌,
}
use tube.Http.Path.{entry, from_slash, is_dots, remove_dots_loop, string_remove_dots}

-- A path as the text before its first slash and the texts behind each slash.
pub record Components : Type 0 where
  pub first : Bytes
  pub rest : List Bytes

pub components : Bytes → Components
components [] = record { first = []; rest = [] }
components (c ∷ s) =
    let cs = components s in
    if c == b'/'
    then record { first = []; rest = cs.first ∷ cs.rest }
    else record { first = c ∷ cs.first; rest = cs.rest }

-- A component that is `.` or `..` becomes empty.
pub blank : Bytes → Bytes
blank c = if bytes_eq c (codes ".") || bytes_eq c (codes "..") then [] else c

pub blank_all : List Bytes → List Bytes
blank_all [] = []
blank_all (c ∷ cs) = blank c ∷ blank_all cs

entry-components : (s : Bytes) → (components s).first ≡ entry s
unfolding components entry
entry-components [] = refl
entry-components (c ∷ s) = ground (arith, entry-components s)

from_slash-components :
    (s : Bytes) → components (from_slash s) ≡ record { first = []; rest = (components s).rest }
unfolding components from_slash
from_slash-components [] = refl
from_slash-components (c ∷ s) = ground (arith, from_slash-components s)

length-from_slash : (s : Bytes) → length (from_slash s) ≤ length s
unfolding from_slash
length-from_slash [] = omega arith
length-from_slash (c ∷ s) = ground (arith, length-from_slash s)

-- Text with no slash in front goes to the first component.
components-entry :
    (s t : Bytes)
    → components (entry s ++ t)
      ≡ record { first = entry s ++ (components t).first; rest = (components t).rest }
unfolding components entry
components-entry [] t = refl
components-entry (c ∷ s) t = elim (Bool-cases (c == b'/')) [
  | inl slash ↦ rw slash
  | inr other ↦ rw other (rw other (rw (components-entry s t)))
]

components-blank :
    (s t : Bytes)
    → components (blank (entry s) ++ t)
      ≡ record { first = blank (entry s) ++ (components t).first; rest = (components t).rest }
unfolding blank
components-blank s t =
    elim (Bool-cases (bytes_eq (entry s) (codes ".") || bytes_eq (entry s) (codes ".."))) [
      | inl dots ↦ rw dots
      | inr other ↦ rw other (components-entry s t)
    ]

components_slash :
    (c : ℕ) (s : Bytes)
    → (c == b'/') ≡ true
    → components (c ∷ s) ≡ record { first = []; rest = (components s).first ∷ (components s).rest }
unfolding components
components_slash c s e = rw e

components_other :
    (c : ℕ) (s : Bytes)
    → (c == b'/') ≡ false
    → components (c ∷ s) ≡ record { first = c ∷ (components s).first; rest = (components s).rest }
unfolding components
components_other c s e = rw e

loop_slash :
    (fuel c : ℕ) (r : Bytes)
    → (c == b'/') ≡ true
    → remove_dots_loop (suc fuel) (c ∷ r)
      ≡ c ∷ (blank (entry r) ++ remove_dots_loop fuel (from_slash r))
unfolding remove_dots_loop blank is_dots bytes_eq
loop_slash fuel c r e = rw e

loop_other :
    (fuel c : ℕ) (r : Bytes)
    → (c == b'/') ≡ false
    → remove_dots_loop (suc fuel) (c ∷ r) ≡ c ∷ remove_dots_loop fuel r
unfolding remove_dots_loop
loop_other fuel c r e = rw e

-- The loop blanks every component but the first, given one round for each character.
components-loop :
    (fuel : ℕ) (s : Bytes)
    → length s < fuel
    → components (remove_dots_loop fuel s)
      ≡ record { first = (components s).first; rest = blank_all (components s).rest }
components-loop zero s h = absurd (omega arith)
components-loop (suc fuel) [] h = unfold components remove_dots_loop blank_all in refl
components-loop (suc fuel) (c ∷ r) h = elim (Bool-cases (c == b'/')) [
  | inl slash ↦ rw (loop_slash fuel c r slash) (
      rw (components_slash c (blank (entry r) ++ remove_dots_loop fuel (from_slash r)) slash) (
        rw (components_slash c r slash) (
          rw (components-blank r (remove_dots_loop fuel (from_slash r))) (
            rw (components-loop fuel (from_slash r) (omega (arith, length-from_slash r))) (
              rw (from_slash-components r)
                (rw (append-nil, entry-components r) (unfold blank_all in refl)))))))
  | inr other ↦ rw (loop_other fuel c r other) (
      rw (components_other c (remove_dots_loop fuel r) other)
        (rw (components_other c r other) (rw (components-loop fuel r (omega arith)))))
]

-- The slash-separated components of the cleaned path: the first stays as it is, and each later one
-- stays unless it is `.` or `..`, which becomes empty.
pub components-string_remove_dots :
    (path : Bytes)
    → components (string_remove_dots path)
      ≡ record { first = (components path).first; rest = blank_all (components path).rest }
unfolding string_remove_dots
components-string_remove_dots path = components-loop _ path (omega arith)

abbrev pub NotDots : Bytes → Type 0
NotDots c = (c ≢ codes ".") × (c ≢ codes "..")

blank-NotDots : (c : Bytes) → NotDots (blank c)
unfolding blank bytes_eq
blank-NotDots c = elim (Bool-cases (bytes_eq c (codes "."))) [
  | inl dot ↦ rw dot ((λ e. absurd (cc e)), λ e. absurd (cc e))
  | inr no_dot ↦ elim (Bool-cases (bytes_eq c (codes ".."))) [
    | inl dots ↦ rw (no_dot, dots) ((λ e. absurd (cc e)), λ e. absurd (cc e))
    | inr no_dots ↦ rw (no_dot, no_dots) (differs no_dot, differs no_dots)
  ]
]
  where
    differs : {d : Bytes} → bytes_eq c d ≡ false → c ≢ d
    differs {d} h e = cc (subst (λ x. bytes_eq x d ≡ false) e h, bytes_eq_refl d)

blank_all-NotDots : (cs : List Bytes) → All NotDots (blank_all cs)
unfolding blank_all
blank_all-NotDots [] = tt
blank_all-NotDots (c ∷ cs) = (blank-NotDots c, blank_all-NotDots cs)

-- No component behind a slash of a cleaned path is `.` or `..`.
pub string_remove_dots-NotDots :
    (path : Bytes) → All NotDots (components (string_remove_dots path)).rest
string_remove_dots-NotDots path =
    rw (components-string_remove_dots path) (blank_all-NotDots (components path).rest)

components_behind :
    (root s : Bytes)
    → All NotDots (components (root ++ b'/' ∷ s)).rest
    → NotDots (components s).first
unfolding components
components_behind [] s h = h.0
components_behind (c ∷ root) s h = elim (Bool-cases (c == b'/')) [
  | inl slash ↦ components_behind root s (rw slash at h).1
  | inr other ↦ components_behind root s (rw other at h)
]

dots_first : (rest : Bytes) → (components (codes "../" ++ rest)).first ≡ codes ".."
unfolding components
dots_first rest = refl

-- A relative path that starts with `../` keeps it, and behind a document root that ends in a slash
-- the file path then has a `..` component: it leaves the root.
pub remove_dots_escape :
    (root rest : Bytes)
    → ¬ (All NotDots (components (root ++ b'/' ∷ string_remove_dots (codes "../" ++ rest))).rest)
remove_dots_escape root rest h =
    (rw (components-string_remove_dots path) at first_clean).1 (dots_first rest)
  where
    path : Bytes
    path = codes "../" ++ rest

    first_clean : NotDots (components (string_remove_dots path)).first
    first_clean = components_behind root (string_remove_dots path) h
