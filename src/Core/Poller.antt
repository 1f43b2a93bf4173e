-- ===== src/Core/Poller.antt =====
-- core/poller.cc: the descriptors of a poller, over the FdMap. What the operating system answers to
-- poll_add_fd, poll_change_fd and poll_remove_fd is an argument of each operation. An operation is
-- `none` where an assertion on the descriptor fails.
pub mod Changes
use tube.Common.{ℕ, Bool, true, false, Option, none, some, not, is_none}
use tube.Utils.FdMap
use tube.Utils.FdMap.{FdMap}

infixl 5 ◌>>=◌
abbrev pub ◌>>=◌ : {A B : Type 0} → Option A → (A → Option B) → Option B
none >>= f = none
some a >>= f = f a

module _ {T : Type 0} where
  pub has_fd : FdMap T → ℕ → Option Bool
  has_fd fds fd = do it ← FdMap.find fds fd; some (not (is_none it))

  pub find_connection : FdMap T → ℕ → Option (Option T)
  find_connection fds fd = do it ← FdMap.find fds fd; some (FdMap.behind fds.items it)

  -- poll_add_fd is asked only when the descriptor was entered; when it refuses, the entry goes again.
  pub after_insert : Bool → ℕ → Bool × FdMap T → Option (Bool × FdMap T)
  after_insert accepts fd (false, m) = some (false, m)
  after_insert true fd (true, m) = some (true, m)
  after_insert false fd (true, m) = do removed ← FdMap.erase m fd; some (false, removed.1)

  pub add_fd : Bool → FdMap T → ℕ → T → Option (Bool × FdMap T)
  add_fd accepts fds fd conn = do
    inserted ← FdMap.insert fds fd conn
    after_insert accepts fd inserted

  -- poll_change_fd is asked only of a descriptor that is there; when it refuses, the entry goes.
  pub after_has : Bool → FdMap T → ℕ → Bool → Option (Bool × FdMap T)
  after_has accepts fds fd false = some (false, fds)
  after_has true fds fd true = some (true, fds)
  after_has false fds fd true = do removed ← FdMap.erase fds fd; some (false, removed.1)

  pub change_fd : Bool → FdMap T → ℕ → Option (Bool × FdMap T)
  change_fd accepts fds fd = do has ← has_fd fds fd; after_has accepts fds fd has

  -- The rest of remove_fd for the connection found: put back when the system refuses.
  pub remove_found : Bool → FdMap T → ℕ → T → Option (Bool × FdMap T)
  remove_found true fds fd conn = do removed ← FdMap.erase fds fd; some (true, removed.1)
  remove_found false fds fd conn = do
    removed ← FdMap.erase fds fd
    added ← FdMap.insert removed.1 fd conn
    some (false, added.1)

  -- A connection pointer in the map is not null.
  pub after_find : Bool → FdMap T → ℕ → Option T → Option (Bool × FdMap T)
  after_find accepts fds fd none = some (false, fds)
  after_find accepts fds fd (some conn) = remove_found accepts fds fd conn

  pub remove_fd : Bool → FdMap T → ℕ → Option (Bool × FdMap T)
  remove_fd accepts fds fd = do conn ← find_connection fds fd; after_find accepts fds fd conn
