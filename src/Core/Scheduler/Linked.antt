-- ===== src/Core/Scheduler/Linked.antt =====
-- The list of the scheduler and the iterators in its map, under the three changes that it makes to
-- them together.
use tube.Common.{
  ℕ, suc, ◌<◌, List, [], ◌∷◌, ◌++◌, Option, none, some, ◌==◌, ==_iff, if◌then◌else◌, All,
  All-append, ◌≡◌, ◌≢◌, refl, ap, sym, ◌∙◌, subst, arith, Bool-cases, inl, inr,
}
use tube.Utils.FdMap.{deref, unlink}
use tube.Core.Scheduler.Nodes.{
  Listed, Apart, fresh-unlink, deref-unlink_other, deref-snoc, deref-snoc_new, Apart-unlink,
  Apart-snoc, Listed-put, away_free, away-unlink,
}

module _ {C : Type 0} (fd : C → ℕ) where
  -- Each node is what the map has for the descriptor of its connection, and each entry of the map is
  -- a node of the list whose connection has that descriptor.
  pub record Links (chain : List (ℕ × C)) (v : ℕ → Option ℕ) (next : ℕ) : Type 0 where
    pub fresh : All (λ e. e.0 < next) chain
    pub apart : Apart fd chain
    pub listed : Listed fd v chain
    pub held : (f n : ℕ) → v f ≡ some n → (c : C) × (deref n chain ≡ some c) × (fd c ≡ f)

module _ {C : Type 0} (fd : C → ℕ) where
  module _ (chain : List (ℕ × C)) (v v' : ℕ → Option ℕ) (next : ℕ)
      (links : Links fd chain v next) where
    pub Links-drop :
        (f n : ℕ)
        → v f ≡ some n
        → ((j : ℕ) → v' j ≡ (if j == f then none else v j))
        → Links fd (unlink n chain) v' next
    Links-drop f n taken put = record {
      fresh = fresh-unlink n next chain links.fresh;
      apart = Apart-unlink fd n chain links.apart;
      listed =
          (let gone = away-unlink fd v f n chain taken links.apart links.listed in
            Listed-put fd v v' f (unlink n chain) (λ j other. put j ∙ rw other) gone.0 gone.1);
      held = λ g m there. still g m there;
    }
      where
        same_fd : (g : ℕ) → v g ≡ some n → g ≡ f
        same_fd g there =
            let a = links.held g n there in
            let b = links.held f n taken in sym a.2 ∙ ap fd (ground (arith, a.1, b.1)) ∙ b.2

        still :
            (g m : ℕ) → v' g ≡ some m → (c : C) × (deref m (unlink n chain) ≡ some c) × (fd c ≡ g)
        still g m there = elim (Bool-cases (g == f)) [
          | inl same ↦ absurd (ground (arith, put g, same, there))
          | inr other ↦
              let a = links.held g m (ground (arith, put g, other, there)) in
              (
                a.0,
                deref-unlink_other n m chain (λ e. ground (
                  arith,
                  same_fd g
                      (subst (λ i. v g ≡ some i) (sym e) (ground (arith, put g, other, there))),
                  other,
                ))
                    ∙ a.1,
                a.2,
              )
        ]

    held_new :
        (c : C) (longer : List (ℕ × C))
        → ((j : ℕ) → v' j ≡ (if j == fd c then some next else v j))
        → deref next longer ≡ some c
        → ((m : ℕ) (w : C) → deref m chain ≡ some w → deref m longer ≡ some w)
        → (g m : ℕ) → v' g ≡ some m
        → (w : C) × (deref m longer ≡ some w) × (fd w ≡ g)
    held_new c longer put new old g m there = elim (Bool-cases (g == fd c)) [
      | inl same ↦ (
        c,
        subst (λ i. deref i longer ≡ some c) (ground (arith, put g, same, there)) new,
        sym ((==_iff g (fd c)).0 same),
      )
      | inr other ↦
          let a = links.held g m (ground (arith, put g, other, there)) in (a.0, old m a.0 a.1, a.2)
    ]

    fresh_suc : (l : List (ℕ × C)) → All (λ e. e.0 < next) l → All (λ e. e.0 < suc next) l
    fresh_suc [] h = tt
    fresh_suc (e ∷ l) h = (omega (arith, h.0), fresh_suc l h.1)

    pub Links-back :
        (c : C)
        → v (fd c) ≡ none
        → ((j : ℕ) → v' j ≡ (if j == fd c then some next else v j))
        → Links fd (chain ++ (next, c) ∷ []) v' (suc next)
    Links-back c free put = record {
      fresh =
          All-append (λ e. e.0 < suc next) chain ((next, c) ∷ []) (fresh_suc chain links.fresh)
            (omega arith);
      apart = Apart-snoc fd next chain c links.fresh links.apart;
      listed =
          All-append (λ e. v' (fd e.1) ≡ some e.0) chain ((next, c) ∷ [])
            (Listed-put fd v v' (fd c) chain (λ j other. put j ∙ rw other)
              (away_free fd v (fd c) chain free links.listed) links.listed)
            (put (fd c) ∙ rw ((==_iff (fd c) (fd c)).1 refl), tt);
      held =
          held_new c (chain ++ (next, c) ∷ []) put (deref-snoc_new next chain c links.fresh)
            (λ m w h. deref-snoc next m chain c w h);
    }

    pub Links-front :
        (c : C)
        → v (fd c) ≡ none
        → ((j : ℕ) → v' j ≡ (if j == fd c then some next else v j))
        → Links fd ((next, c) ∷ chain) v' (suc next)
    unfolding deref
    Links-front c free put = record {
      fresh = (omega arith, fresh_suc chain links.fresh);
      apart = (below chain links.fresh, links.apart);
      listed = (
        put (fd c) ∙ rw ((==_iff (fd c) (fd c)).1 refl),
        Listed-put fd v v' (fd c) chain (λ j other. put j ∙ rw other)
            (away_free fd v (fd c) chain free links.listed) links.listed,
      );
      held =
          held_new c ((next, c) ∷ chain) put (rw ((==_iff next next).1 refl))
            (λ m w h. older m w h);
    }
      where
        below : (l : List (ℕ × C)) → All (λ e. e.0 < next) l → All (λ d. d.0 ≢ next) l
        below [] h = tt
        below (e ∷ l) h = ((λ same. omega (arith, same, h.0)), below l h.1)

        old_node :
            (m : ℕ) (w : C) (l : List (ℕ × C))
            → All (λ e. e.0 < next) l
            → deref m l ≡ some w
            → m < next
        old_node m w [] fresh h = cc
        old_node m w ((k, x) ∷ l) fresh h = ground (arith, old_node m w l fresh.1)

        older : (m : ℕ) (w : C) → deref m chain ≡ some w → deref m ((next, c) ∷ chain) ≡ some w
        older m w h = elim (Bool-cases (next == m)) [
          | inl same ↦
              absurd (omega (arith, old_node m w chain links.fresh h, (==_iff next m).0 same))
          | inr other ↦ rw other h
        ]
