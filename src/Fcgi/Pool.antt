-- ===== src/Fcgi/Pool.antt =====
-- modules/mod_fcgi/connection_pool.cc: ConnectionPool. A vector is a list with its back first. What
-- socket() answers to the calls of create_socket is an argument; `closed` has the sockets that close was called
-- on.
pub mod Conservation
pub mod Twice
use tube.Common.{
  ℕ, zero, suc, ◌+◌, Bool, true, false, List, [], ◌∷◌, ◌++◌, Option, none, some, if◌then◌else◌,
  length,
}
use tube.Common.Int.{ℤ, pos, negsuc}

pub record Pool : Type 0 where
  pub max_n_sockets : ℤ
  pub initialized : Bool
  pub active : List ℤ
  pub inactive : List ℤ
  pub created : ℕ
  pub closed : List ℤ

pub new_pool : ℤ → Pool
new_pool max_n_sockets = record {
  max_n_sockets = max_n_sockets;
  initialized = false;
  active = [];
  inactive = [];
  created = 0;
  closed = [];
}

-- The bool is what is_connected is set to, `none` where it is left as it was.
pub record Allocated : Type 0 where
  pub sock : ℤ
  pub is_connected : Option Bool
  pub pool : Pool

module _ (socket : ℕ → ℤ) where
  -- The loop that fills inactive_connections_.
  pub open_sockets : ℕ → Pool → Pool
  open_sockets zero p = p
  open_sockets (suc n) p =
      open_sockets n
        (record p { inactive = socket p.created ∷ p.inactive; created = suc p.created })

  pub unless_initialized : Bool → ℕ → Pool → Pool
  unless_initialized true n p = p
  unless_initialized false n p = record (open_sockets n p) { initialized = true }

  pub initialize : ℕ → Pool → Pool
  initialize n p = unless_initialized p.initialized n p

  -- From here on the pool is initialized.
  pub take_socket : Pool → List ℤ → List ℤ → Allocated
  take_socket p (sock ∷ active) inactive = record {
    sock = sock;
    is_connected = some true;
    pool = record p { active = active };
  }
  take_socket p [] (sock ∷ inactive) = record {
    sock = sock;
    is_connected = some false;
    pool = record p { inactive = inactive };
  }
  take_socket p [] [] = record { sock = negsuc 0; is_connected = none; pool = p }

  alloc_limited : ℤ → Pool → Allocated
  alloc_limited (negsuc _) p = record {
    sock = socket p.created;
    is_connected = some false;
    pool = record p { created = suc p.created };
  }
  alloc_limited (pos n) p =
      let ready = initialize n p in take_socket ready ready.active ready.inactive

  pub alloc_connection : Pool → Allocated
  alloc_connection p = alloc_limited p.max_n_sockets p

  reclaim_limited : ℤ → Pool → ℤ → Pool
  reclaim_limited (negsuc _) p sock = record p { closed = sock ∷ p.closed }
  reclaim_limited (pos n) p sock = record p { active = sock ∷ p.active }

  pub reclaim_connection : Pool → ℤ → Pool
  reclaim_connection p sock = reclaim_limited p.max_n_sockets p sock

  -- The limit is not looked at: without pooling too the new socket goes to inactive_connections_.
  pub reclaim_inactive_connection : Pool → ℤ → Pool
  reclaim_inactive_connection p sock = record p {
    inactive = socket p.created ∷ p.inactive;
    created = suc p.created;
    closed = sock ∷ p.closed;
  }

  -- The destructor.
  pub close_all : Pool → Pool
  close_all p =
      if p.initialized then record p { closed = p.active ++ (p.inactive ++ p.closed) } else p
