-- ===== src/Core/Poller/Changes.antt =====
-- add_fd, change_fd and remove_fd on each answer of the operating system.
mod Tests
use tube.Common.{
  ℕ, ◌<◌, Bool, true, false, Option, none, some, if◌then◌else◌, not, is_none, ltb, lt→ltb, ◌==◌,
  ==_iff, ◌&&◌, ◌≡◌, ◌∙◌, refl, sym, ap, subst, arith, Option-cases, Bool-cases, inl, inr,
}
use tube.Utils.FdMap
use tube.Utils.FdMap.{FdMap}
use tube.Utils.FdMap.Laws.{IsValid, insert_lem, erase_lem, find_lem, value_at-table, is_none-table}
use tube.Core.Poller.{
  ◌>>=◌, has_fd, find_connection, after_insert, add_fd, after_has, change_fd, remove_found,
  after_find, remove_fd,
}

-- The answer of an operation and the map that it leaves, by its values.
abbrev pub Leaves : {T : Type 0} → Option (Bool × FdMap T) → Bool → (ℕ → Option T) → Type 0
Leaves {T} r answer values =
    (m : FdMap T) × (r ≡ some (answer, m)) × IsValid m × ((j : ℕ) → FdMap.value_at m j ≡ values j)

module _ {T : Type 0} (fds : FdMap T) (fd : ℕ) (valid : IsValid fds)
    (range : fd < fds.max_size) where
  after_insert-Leaves :
      (free accepts : Bool) (conn : T) (m : FdMap T)
      → is_none (FdMap.value_at fds fd) ≡ free
      → IsValid m
      → m.max_size ≡ fds.max_size
      → ((j : ℕ)
          → FdMap.value_at m j ≡ (if free && j == fd then some conn else FdMap.value_at fds j))
      → Leaves (after_insert accepts fd (free, m)) (free && accepts) (λ j.
        if free && accepts
        then (if j == fd then some conn else FdMap.value_at fds j)
        else FdMap.value_at fds j)
  unfolding after_insert
  after_insert-Leaves false accepts conn m free ok size values = (m, refl, ok, values)
  after_insert-Leaves true true conn m free ok size values = (m, refl, ok, values)
  after_insert-Leaves true false conn m free ok size values =
      let gone = erase_lem m fd ok (rw size range) in
      (gone.0, rw gone.1, gone.2, λ j. gone.4 j ∙ back j)
    where
      none_there : FdMap.value_at fds fd ≡ none
      none_there = ground (arith, free)

      back : (j : ℕ) → (if j == fd then none else FdMap.value_at m j) ≡ FdMap.value_at fds j
      back j = elim (Bool-cases (j == fd)) [
        | inl same ↦
            rw same (
              subst (λ i. none ≡ FdMap.value_at fds i) (sym ((==_iff j fd).0 same))
                (sym none_there))
        | inr other ↦ rw other (values j ∙ (rw other))
      ]

  -- Adding a descriptor succeeds exactly when it was free and the system accepts it; then it has the
  -- connection. Otherwise every descriptor has the connection that it had.
  pub add_fd_lem :
      (accepts : Bool) (conn : T)
      → Leaves (add_fd accepts fds fd conn) (is_none (FdMap.value_at fds fd) && accepts) (λ j.
        if is_none (FdMap.value_at fds fd) && accepts
        then (if j == fd then some conn else FdMap.value_at fds j)
        else FdMap.value_at fds j)
  unfolding add_fd
  add_fd_lem accepts conn =
      let ins = insert_lem fds fd conn valid range in
      rw ins.1 (after_insert-Leaves _ accepts conn ins.0 refl ins.2 ins.3 ins.4)

  has_fd_lem : has_fd fds fd ≡ some (not (is_none (FdMap.value_at fds fd)))
  unfolding has_fd
  has_fd_lem = rw (find_lem fds fd range) (rw (is_none-table fds fd valid))

  find_connection_lem : find_connection fds fd ≡ some (FdMap.value_at fds fd)
  unfolding find_connection
  find_connection_lem = rw (find_lem fds fd range) (ap some (sym (value_at-table fds fd)))

  gone_already :
      (o : Option T)
      → FdMap.value_at fds fd ≡ o
      → is_none o ≡ true
      → (b : Bool) (j : ℕ)
      → FdMap.value_at fds j ≡ (if b && j == fd then none else FdMap.value_at fds j)
  gone_already none e n false j = refl
  gone_already none e n true j = elim (Bool-cases (j == fd)) [
    | inl same ↦ rw same (subst (λ i. FdMap.value_at fds i ≡ none) (sym ((==_iff j fd).0 same)) e)
    | inr other ↦ rw other
  ]
  gone_already (some v) e n b j = cc

  after_has-Leaves :
      (accepts : Bool) (o : Option T)
      → FdMap.value_at fds fd ≡ o
      → Leaves
          (after_has accepts fds fd (not (is_none o)))
          (not (is_none o) && accepts)
          (λ j. if not accepts && j == fd then none else FdMap.value_at fds j)
  unfolding after_has
  after_has-Leaves accepts none e = (fds, refl, valid, gone_already none e refl (not accepts))
  after_has-Leaves true (some v) e = (fds, refl, valid, λ j. refl)
  after_has-Leaves false (some v) e =
      let gone = erase_lem fds fd valid range in (gone.0, rw gone.1, gone.2, gone.4)

  -- Changing a descriptor in range of a valid map succeeds exactly when it is there and the system
  -- accepts the change; a change that the system refuses drops the descriptor, and no other is touched.
  pub change_fd_lem :
      (accepts : Bool)
      → Leaves
          (change_fd accepts fds fd)
          (not (is_none (FdMap.value_at fds fd)) && accepts)
          (λ j. if not accepts && j == fd then none else FdMap.value_at fds j)
  unfolding change_fd
  change_fd_lem accepts = rw has_fd_lem (after_has-Leaves accepts (FdMap.value_at fds fd) refl)

  put_back :
      (conn : T)
      → FdMap.value_at fds fd ≡ some conn
      → (m : FdMap T) → is_none (FdMap.value_at m fd) ≡ true
      → ((j : ℕ) → FdMap.value_at m j ≡ (if j == fd then none else FdMap.value_at fds j))
      → (j : ℕ)
      → (if is_none (FdMap.value_at m fd) && j == fd then some conn else FdMap.value_at m j)
        ≡ FdMap.value_at fds j
  put_back conn e m free values j = elim (Bool-cases (j == fd)) [
    | inl same ↦
        rw (free, same)
          (subst (λ i. some conn ≡ FdMap.value_at fds i) (sym ((==_iff j fd).0 same)) (sym e))
    | inr other ↦ rw (free, other) (values j ∙ rw other)
  ]

  gone_there :
      (m : FdMap T)
      → ((j : ℕ) → FdMap.value_at m j ≡ (if j == fd then none else FdMap.value_at fds j))
      → is_none (FdMap.value_at m fd) ≡ true
  gone_there m values = rw (values fd, (==_iff fd fd).1 refl)

  after_find-Leaves :
      (accepts : Bool) (o : Option T)
      → FdMap.value_at fds fd ≡ o
      → Leaves
          (after_find accepts fds fd o)
          (not (is_none o) && accepts)
          (λ j. if accepts && j == fd then none else FdMap.value_at fds j)
  unfolding after_find remove_found
  after_find-Leaves accepts none e = (fds, refl, valid, gone_already none e refl accepts)
  after_find-Leaves true (some conn) e =
      let gone = erase_lem fds fd valid range in (gone.0, rw gone.1, gone.2, gone.4)
  after_find-Leaves false (some conn) e =
      let gone = erase_lem fds fd valid range in
      let back = insert_lem gone.0 fd conn gone.2 (rw gone.3 range) in
      let free = gone_there gone.0 gone.4 in
      (back.0, rw (gone.1, back.1), back.2, λ j. back.4 j ∙ put_back conn e gone.0 free gone.4 j)

  -- Removing a descriptor in range of a valid map succeeds exactly when it is there and the system
  -- lets it go; a descriptor that the system keeps has its connection again, and no other is touched.
  pub remove_fd_lem :
      (accepts : Bool)
      → Leaves
          (remove_fd accepts fds fd)
          (not (is_none (FdMap.value_at fds fd)) && accepts)
          (λ j. if accepts && j == fd then none else FdMap.value_at fds j)
  unfolding remove_fd
  remove_fd_lem accepts =
      rw find_connection_lem (after_find-Leaves accepts (FdMap.value_at fds fd) refl)
