-- ===== src/Http/Cache/Entries.antt =====
-- The list of IOCache under its changes.
use tube.Common.{
  ℕ, ◌<◌, true, false, List, [], ◌∷◌, some, ◌==◌, ==_iff, if◌then◌else◌, All, ◌≡◌, refl, ap, subst,
  arith, Bool-cases, inl, inr, ◌⊎◌,
}
use tube.Http.Cache.{IoCacheEntry, entry_at, erase_node, last_path, but_last}

pub entry_at-erase :
    (m n : ℕ) (es : List (ℕ × IoCacheEntry))
    → (n == m) ≡ false
    → entry_at m (erase_node n es) ≡ entry_at m es
unfolding entry_at erase_node
entry_at-erase m n [] other = refl
entry_at-erase m n (e ∷ es) other = elim (Bool-cases (e.0 == n)) [
  | inl same ↦ rw same (rw (moved same) refl)
  | inr more ↦ rw more (ap (λ o. if e.0 == m then some e.1 else o) (entry_at-erase m n es other))
]
  where
    moved : (e.0 == n) ≡ true → (e.0 == m) ≡ false
    moved same = ground arith

pub All-erase :
    (P : ℕ × IoCacheEntry → Type 0) (n : ℕ) (es : List (ℕ × IoCacheEntry))
    → All P es
    → All P (erase_node n es)
unfolding erase_node
All-erase P n [] all = all
All-erase P n (e ∷ es) all = elim (Bool-cases (e.0 == n)) [
  | inl same ↦ rw same all.1
  | inr more ↦ rw more (all.0, All-erase P n es all.1)
]

pub All-but_last :
    (P : ℕ × IoCacheEntry → Type 0) (e : ℕ × IoCacheEntry) (es : List (ℕ × IoCacheEntry))
    → All P (e ∷ es)
    → All P (but_last e es)
unfolding but_last
All-but_last P e [] all = tt
All-but_last P e (f ∷ es) all = (all.0, All-but_last P f es all.1)

pub entry_at-but_last :
    (n : ℕ) (found : IoCacheEntry) (e : ℕ × IoCacheEntry) (es : List (ℕ × IoCacheEntry))
    → entry_at n (e ∷ es) ≡ some found
    → (entry_at n (but_last e es) ≡ some found) ⊎ (found.path ≡ last_path e es)
unfolding entry_at but_last last_path
entry_at-but_last n found e [] h = elim (Bool-cases (e.0 == n)) [
  | inl same ↦ inr ground arith
  | inr more ↦ ground arith
]
entry_at-but_last n found e (f ∷ es) h = elim (Bool-cases (e.0 == n)) [
  | inl same ↦ inl (rw same (ground arith))
  | inr more ↦ rw more (entry_at-but_last n found f es (ground (arith, h, more)))
]

pub not_at_new :
    (next : ℕ) (n : ℕ) (found : IoCacheEntry) (es : List (ℕ × IoCacheEntry))
    → All (λ e. e.0 < next) es
    → entry_at n es ≡ some found
    → n < next
unfolding entry_at
not_at_new next n found [] all h = cc
not_at_new next n found (e ∷ es) all h = elim (Bool-cases (e.0 == n)) [
  | inl same ↦ subst (λ k. k < next) ((==_iff _ _).0 same) all.0
  | inr more ↦
      not_at_new next n found es all.1
        (subst (λ b. (if b then some e.1 else entry_at n es) ≡ some found) more h)
]
