-- ===== src/Core/Timer/Process.antt =====
-- process_callbacks: every due callback is called once, in key order, and only the entries whose
-- callback asks for it are dropped.
use tube.Common.{
  ℕ, Bool, true, false, List, [], ◌∷◌, ◌≡◌, inl, inr, refl, ap, ◌∙◌, arith, Bool-cases,
  if◌then◌else◌, ltb, All,
}
use tube.Core.Timer.{TimerKey, erase, scan, erase_all, process_callbacks}
use tube.Core.Timer.Order.{Lt, After, IsSorted, key_eq_refl, Lt-ne}

module _ {C S : Type 0} (invoke : C → ℕ → S → Bool × S) (now : ℕ) where
  -- What is to be left and what the callbacks changed, one entry after the other.
  pub survivors : List (TimerKey × C) → S → List (TimerKey × C) × S
  survivors [] s = ([], s)
  survivors ((k, c) ∷ t) s =
      let called = invoke c k.ctx s in
      let rest = survivors t called.1 in
      if ltb now k.unit
      then ((k, c) ∷ t, s)
      else if called.0
      then rest
      else ((k, c) ∷ rest.0, rest.1)

  abbrev AllAfter : TimerKey → List TimerKey → Type 0
  AllAfter k = All (λ j. Lt k j)

  scan-After :
      (k : TimerKey) (t : List (TimerKey × C)) (s : S)
      → After k t
      → AllAfter k (scan invoke now t s).0
  unfolding scan
  scan-After k [] s af = tt
  scan-After k ((j, c) ∷ t) s af = ground (arith, scan-After k t (invoke c j.ctx s).1 af.1)

  erase_all_nil : (ks : List TimerKey) → erase_all invoke now ks [] ≡ []
  unfolding erase_all erase
  erase_all_nil [] = refl
  erase_all_nil (k ∷ ks) = erase_all_nil ks

  -- Erasing later keys keeps the first entry.
  erase_all_cons :
      (ks : List TimerKey) (k : TimerKey) (c : C) (t : List (TimerKey × C))
      → AllAfter k ks
      → erase_all invoke now ks ((k, c) ∷ t) ≡ (k, c) ∷ erase_all invoke now ks t
  unfolding erase_all erase
  erase_all_cons [] k c t af = refl
  erase_all_cons (j ∷ ks) k c t af = rw (Lt-ne k j af.0) (erase_all_cons ks k c (erase j t) af.1)

  module _ (k : TimerKey) (c : C) (t : List (TimerKey × C)) (s : S) where
    scan_stop : ltb now k.unit ≡ true → scan invoke now ((k, c) ∷ t) s ≡ ([], s)
    unfolding scan
    scan_stop e = rw e

    scan_done :
        ltb now k.unit ≡ false
        → (invoke c k.ctx s).0 ≡ true
        → scan invoke now ((k, c) ∷ t) s ≡ (
          k ∷ (scan invoke now t (invoke c k.ctx s).1).0,
          (scan invoke now t (invoke c k.ctx s).1).1,
        )
    unfolding scan
    scan_done e d = rw (e, d)

    scan_kept :
        ltb now k.unit ≡ false
        → (invoke c k.ctx s).0 ≡ false
        → scan invoke now ((k, c) ∷ t) s ≡ scan invoke now t (invoke c k.ctx s).1
    unfolding scan
    scan_kept e d = rw (e, d)

  erase_head : (k : TimerKey) (c : C) (t : List (TimerKey × C)) → erase k ((k, c) ∷ t) ≡ t
  unfolding erase
  erase_head k c t = rw (key_eq_refl k)

  process_lem :
      (t : List (TimerKey × C)) (s : S)
      → IsSorted t
      → (erase_all invoke now (scan invoke now t s).0 t ≡ (survivors t s).0)
        × ((scan invoke now t s).1 ≡ (survivors t s).1)
  unfolding survivors erase_all
  process_lem [] s sorted = unfold scan in (refl, refl)
  process_lem ((k, c) ∷ t) s sorted =
      let rest = process_lem t (invoke c k.ctx s).1 sorted.1 in
      elim (Bool-cases (ltb now k.unit)) [
        | inl late ↦ rw (scan_stop k c t s late) (rw late (refl, refl))
        | inr due ↦ elim (Bool-cases (invoke c k.ctx s).0) [
          | inl done ↦ rw (scan_done k c t s due done) (
              rw (due, done)
                (
                  ap (erase_all invoke now (scan invoke now t (invoke c k.ctx s).1).0)
                        (erase_head k c t)
                      ∙ rest.0,
                  rest.1,
                ))
          | inr kept ↦ rw (scan_kept k c t s due kept) (
              rw
                (
                  due,
                  kept,
                  erase_all_cons (scan invoke now t (invoke c k.ctx s).1).0 k c t
                      (scan-After k t (invoke c k.ctx s).1 sorted.0),
                )
                (ap (λ u. (k, c) ∷ u) rest.0, rest.1))
        ]
      ]

  -- Processing a tree in key order leaves the survivors, in the state after all calls.
  pub process_callbacks-survivors :
      (t : List (TimerKey × C)) (s : S)
      → IsSorted t
      → process_callbacks invoke now t s ≡ survivors t s
  unfolding process_callbacks
  process_callbacks-survivors t s sorted =
      λ i. ((process_lem t s sorted).0 i, (process_lem t s sorted).1 i)
