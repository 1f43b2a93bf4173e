-- ===== src/Fcgi/Pool/Conservation.antt =====
-- Histories of a pool with a limit, and where its connections are.
mod Tests
use tube.Common.{
  ℕ, zero, suc, ◌+◌, ◌≤◌, Bool, true, false, List, [], ◌∷◌, ◌++◌, Option, none, some, if◌then◌else◌,
  length, length-append, All, ◌≡◌, ◌↔◌, ◌==◌, refl, ap, sym, ◌∙◌, subst, arith, Bool-cases, inl,
  inr,
}
use tube.Common.Int.{ℤ, pos, negsuc}
use tube.Fcgi.Pool.{
  Pool, new_pool, Allocated, open_sockets, unless_initialized, initialize, take_socket,
  alloc_limited, alloc_connection, reclaim_limited, reclaim_connection, reclaim_inactive_connection,
}

abbrev pub IsDescriptor : ℤ → Type 0
IsDescriptor (pos s) = Unit
IsDescriptor (negsuc s) = ⊥

abbrev pub same_socket : ℤ → ℤ → Bool
same_socket (pos a) (pos b) = a == b
same_socket (negsuc a) (negsuc b) = a == b
same_socket _ _ = false

-- How often a socket stands in a list.
abbrev pub count : ℤ → List ℤ → ℕ
count sock [] = 0
count sock (s ∷ l) = (if same_socket s sock then 1 else 0) + count sock l

count-middle :
    (sock s : ℤ) (before after : List ℤ)
    → count sock (before ++ s ∷ after)
      ≡ (if same_socket s sock then 1 else 0) + count sock (before ++ after)
count-middle sock s [] after = refl
count-middle sock s (b ∷ before) after = omega (arith, count-middle sock s before after)

-- How often the first calls of socket have opened a socket.
abbrev pub opened : (ℕ → ℤ) → ℤ → ℕ → ℕ
opened socket sock zero = 0
opened socket sock (suc k) = (if same_socket (socket k) sock then 1 else 0) + opened socket sock k

module _ (socket : ℕ → ℤ) (n : ℕ) where
  -- What the users of a pool did with it, and the connections that they hold: each call of alloc
  -- that answers a socket hands one out, and a connection that is handed out may be given back in
  -- either way.
  pub data Run : Pool → List ℤ → Type 0 where
    start : Run (new_pool (pos n)) []
    taken :
        {p : Pool} {out : List ℤ}
        → Run p out
        → IsDescriptor (alloc_connection socket p).sock
        → Run (alloc_connection socket p).pool ((alloc_connection socket p).sock ∷ out)
    refused :
        {p : Pool} {out : List ℤ}
        → Run p out
        → (alloc_connection socket p).sock ≡ negsuc 0
        → Run (alloc_connection socket p).pool out
    reclaimed :
        {p : Pool} (before after : List ℤ) (sock : ℤ)
        → Run p (before ++ sock ∷ after)
        → Run (reclaim_connection socket p sock) (before ++ after)
    replaced :
        {p : Pool} (before after : List ℤ) (sock : ℤ)
        → Run p (before ++ sock ∷ after)
        → Run (reclaim_inactive_connection socket p sock) (before ++ after)

  -- The connections of the pool, idle or handed out, are n when its sockets are there, and none before;
  -- and each socket that was opened is handed out, idle or closed, as often as it was opened.
  pub record Conserves (p : Pool) (out : List ℤ) : Type 0 where
    pub limit : p.max_n_sockets ≡ pos n
    pub fds_out : All IsDescriptor out
    pub fds_active : All IsDescriptor p.active
    pub fds_inactive : All IsDescriptor p.inactive
    pub places :
        (sock : ℤ)
        → count sock out + count sock p.active + count sock p.inactive + count sock p.closed
          ≡ opened socket sock p.created
    pub total : length out + length p.active + length p.inactive ≡ (if p.initialized then n else 0)

  open_sockets-Conserves :
      ((i : ℕ) → IsDescriptor (socket i))
      → (k : ℕ) (p : Pool) → All IsDescriptor p.inactive
      → ((open_sockets socket k p).max_n_sockets ≡ p.max_n_sockets)
        × ((open_sockets socket k p).active ≡ p.active)
        × All IsDescriptor (open_sockets socket k p).inactive
        × (length (open_sockets socket k p).inactive ≡ k + length p.inactive)
        × ((open_sockets socket k p).closed ≡ p.closed)
        × ((sock : ℤ)
            → count sock (open_sockets socket k p).inactive + opened socket sock p.created
              ≡ count sock p.inactive + opened socket sock (open_sockets socket k p).created)
  unfolding open_sockets
  open_sockets-Conserves opens zero p h = (refl, refl, h, omega arith, refl, λ sock. refl)
  open_sockets-Conserves opens (suc k) p h =
      let rest =
        open_sockets-Conserves opens k
          (record p { inactive = socket p.created ∷ p.inactive; created = suc p.created })
          (opens p.created, h) in
      (rest.0, rest.1, rest.2, omega (arith, rest.3), rest.4, λ sock. omega (arith, rest.5 sock))

  initialize-Conserves :
      ((i : ℕ) → IsDescriptor (socket i))
      → (b : Bool) (p : Pool) (out : List ℤ) → p.initialized ≡ b
      → Conserves p out
      → Conserves (unless_initialized socket b n p) out
        × ((unless_initialized socket b n p).initialized ≡ true)
  unfolding unless_initialized
  initialize-Conserves opens true p out e h = (h, e)
  initialize-Conserves opens false p out e h =
      let r = open_sockets-Conserves opens n p h.fds_inactive in
      (
        record {
          limit = r.0 ∙ h.limit;
          fds_out = h.fds_out;
          fds_active = subst (All IsDescriptor) (sym r.1) h.fds_active;
          fds_inactive = r.2;
          places = λ sock.
              omega (arith, h.places sock, r.5 sock, ap (count sock) r.1, ap (count sock) r.4);
          total = omega (arith, rw e at h.total, r.3, ap length r.1);
        },
        refl,
      )

  -- What an allocation gives from a pool that conserves.
  abbrev Gives : Allocated → List ℤ → Type 0
  Gives a out =
      (IsDescriptor a.sock → Conserves a.pool (a.sock ∷ out))
      × (a.sock ≡ negsuc 0 → Conserves a.pool out)
      × ((a.sock ≡ negsuc 0) ↔ (length out ≡ n))

  not_descriptor : {s : ℤ} → IsDescriptor s → s ≡ negsuc 0 → ⊥
  not_descriptor {s} o e = subst IsDescriptor e o

  takes :
      (p : Pool) (active inactive : List ℤ) (out : List ℤ)
      → p.active ≡ active
      → p.inactive ≡ inactive
      → p.initialized ≡ true
      → Conserves p out
      → Gives (take_socket socket p active inactive) out
  unfolding take_socket
  takes p [] [] out a i ready h = (
    (λ o. absurd o),
    (λ _. h),
    ((λ _. omega (arith, rw ready at h.total, ap length a, ap length i)), λ _. refl),
  )
  takes p (s ∷ active) inactive out a i ready h =
      let all_fds = subst (All IsDescriptor) a h.fds_active in
      (
        (λ o. record {
          limit = h.limit;
          fds_out = (o, h.fds_out);
          fds_active = all_fds.1;
          fds_inactive = h.fds_inactive;
          places = λ sock. omega (arith, h.places sock, ap (count sock) a);
          total = omega (arith, ap length a) ∙ h.total;
        }),
        (λ e. absurd (not_descriptor all_fds.0 e)),
        (
          (λ e. absurd (not_descriptor all_fds.0 e)),
          λ e. absurd (omega (arith, e, rw ready at h.total, ap length a)),
        ),
      )
  takes p [] (s ∷ inactive) out a i ready h =
      let all_fds = subst (All IsDescriptor) i h.fds_inactive in
      (
        (λ o. record {
          limit = h.limit;
          fds_out = (o, h.fds_out);
          fds_active = h.fds_active;
          fds_inactive = all_fds.1;
          places = λ sock. omega (arith, h.places sock, ap (count sock) i);
          total = omega (arith, ap length i) ∙ h.total;
        }),
        (λ e. absurd (not_descriptor all_fds.0 e)),
        (
          (λ e. absurd (not_descriptor all_fds.0 e)),
          λ e. absurd (omega (arith, e, rw ready at h.total, ap length i)),
        ),
      )

  alloc-Gives :
      ((i : ℕ) → IsDescriptor (socket i))
      → (p : Pool) (out : List ℤ) → Conserves p out
      → Gives (alloc_connection socket p) out
  unfolding alloc_connection alloc_limited initialize
  alloc-Gives opens p out h =
      subst (λ m. Gives (alloc_limited socket m p) out) (sym h.limit)
        (let ready = initialize-Conserves opens p.initialized p out refl h in
          let q = unless_initialized socket p.initialized n p in
          takes q q.active q.inactive out refl refl ready.1 ready.0)

  length-without :
      (before after : List ℤ) (sock : ℤ)
      → length (before ++ sock ∷ after) ≡ suc (length (before ++ after))
  length-without [] after sock = refl
  length-without (b ∷ before) after sock = ap suc (length-without before after sock)

  IsDescriptor-without :
      (before after : List ℤ) (sock : ℤ)
      → All IsDescriptor (before ++ sock ∷ after)
      → IsDescriptor sock × All IsDescriptor (before ++ after)
  IsDescriptor-without [] after sock h = h
  IsDescriptor-without (b ∷ before) after sock h =
      let rest = IsDescriptor-without before after sock h.1 in (rest.0, (h.0, rest.1))

  reclaimed-Conserves :
      (p : Pool) (before after : List ℤ) (sock : ℤ)
      → Conserves p (before ++ sock ∷ after)
      → Conserves (reclaim_connection socket p sock) (before ++ after)
  unfolding reclaim_connection reclaim_limited
  reclaimed-Conserves p before after sock h =
      let outs = IsDescriptor-without before after sock h.fds_out in
      subst (λ m. Conserves (reclaim_limited socket m p sock) (before ++ after)) (sym h.limit)
        (record {
          limit = h.limit;
          fds_out = outs.1;
          fds_active = (outs.0, h.fds_active);
          fds_inactive = h.fds_inactive;
          places = λ d. omega (arith, h.places d, count-middle d sock before after);
          total = omega (arith, length-without before after sock) ∙ h.total;
        })

  replaced-Conserves :
      ((i : ℕ) → IsDescriptor (socket i))
      → (p : Pool) (before after : List ℤ) (sock : ℤ) → Conserves p (before ++ sock ∷ after)
      → Conserves (reclaim_inactive_connection socket p sock) (before ++ after)
  unfolding reclaim_inactive_connection
  replaced-Conserves opens p before after sock h =
      let outs = IsDescriptor-without before after sock h.fds_out in
      record {
        limit = h.limit;
        fds_out = outs.1;
        fds_active = h.fds_active;
        fds_inactive = (opens p.created, h.fds_inactive);
        places = λ d. omega (arith, h.places d, count-middle d sock before after);
        total = omega (arith, length-without before after sock) ∙ h.total;
      }

  -- In a history of a pool with a limit of n, in which a connection that was handed out is given back
  -- once, when each call of socket answers a descriptor: the connections handed out and those in the pool are n
  -- together once the pool is initialized, and none before; and each socket stands among those handed
  -- out, those in the pool and those closed as often in all as it was opened.
  pub Run-Conserves :
      ((i : ℕ) → IsDescriptor (socket i)) → {p : Pool} {out : List ℤ} → Run p out → Conserves p out
  Run-Conserves opens start = record {
    limit = unfold new_pool in refl;
    fds_out = tt;
    fds_active = unfold new_pool in tt;
    fds_inactive = unfold new_pool in tt;
    places = λ sock. unfold new_pool in omega arith;
    total = unfold new_pool in omega arith;
  }
  Run-Conserves opens (taken {p} {out} run o) =
      (alloc-Gives opens p out (Run-Conserves opens run)).0 o
  Run-Conserves opens (refused {p} {out} run e) =
      (alloc-Gives opens p out (Run-Conserves opens run)).1 e
  Run-Conserves opens (reclaimed {p} before after sock run) =
      reclaimed-Conserves p before after sock (Run-Conserves opens run)
  Run-Conserves opens (replaced {p} before after sock run) =
      replaced-Conserves opens p before after sock (Run-Conserves opens run)

  -- In such a history alloc_connection answers -1 when n connections are handed out and at no other
  -- time.
  pub alloc_connection-refuses :
      ((i : ℕ) → IsDescriptor (socket i))
      → {p : Pool} {out : List ℤ} → Run p out
      → ((alloc_connection socket p).sock ≡ negsuc 0) ↔ (length out ≡ n)
  alloc_connection-refuses opens {p} {out} run =
      (alloc-Gives opens p out (Run-Conserves opens run)).2
