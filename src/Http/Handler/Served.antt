-- ===== src/Http/Handler/Served.antt =====
-- What the handler's stage leaves of the requests of a connection.
mod Tests
use tube.Common.{
  ℕ, zero, suc, ◌+◌, ◌-◌, ◌≤◌, ◌<◌, Bool, true, false, ◌&&◌, not, List, [], ◌∷◌, ◌++◌, Option, none,
  some, ◌==◌, if◌then◌else◌, length, take, drop, ◌≡◌, ap, sym, ◌∙◌, subst, Option-cases, ◌⊎◌,
}
use tube.Core.Connection.{Connection, has_continuation, set_close_after_finish}
use tube.Http.Connection.{HttpRequestData}
use tube.Http.Response.{HttpResponse, reset}
use tube.Http.Handler.{
  Work, has_requests, trigger_handler, after_handler, run_chain, done, wrote,
  max_continues_request_number, Handled,
}

-- The first requests of a list, the last of them left out, are to be kept alive.
abbrev pub AllAlive : {H : Type 0} → ℕ → List (HttpRequestData H) → Type 0
AllAlive zero requests = Unit
AllAlive (suc zero) requests = Unit
AllAlive (suc (suc k)) [] = Unit
AllAlive (suc (suc k)) (r ∷ rs) = (r.message.keep_alive ≡ true) × AllAlive (suc k) rs

module _ (junk max_mem : ℕ) {H : Type 0} (handle : H → HttpRequestData H → Work → Option Work) where
  -- The handlers of a request end, whatever they find, and so does what the stage writes itself.
  abbrev pub Returns : (ℕ → List (List (Option ℕ))) → HttpRequestData H → Type 0
  Returns answers request =
      (i : ℕ) (w : Work)
      → (w' : Work) × (trigger_handler junk max_mem handle (answers i) request w ≡ some w')

  module _ (answers : ℕ → List (List (Option ℕ))) where
    -- The handlers of some first requests, each given what the one before it left: from a round and a
    -- state of the connection to the round and the state behind them. None of them suspends.
    abbrev pub Serves : ℕ → ℕ → List (HttpRequestData H) → Work → ℕ → Work → Type 0
    Serves i zero requests w j last = (j ≡ i) × (last ≡ w)
    Serves i (suc k) [] w j last = ⊥
    Serves i (suc k) (request ∷ rest) w j last =
        (w' : Work) × (trigger_handler junk max_mem handle (answers i) request w ≡ some w')
        × (has_continuation w'.conn ≡ false)
        × Serves (i + 1) k rest w' j last

    -- How the task ends behind the requests that it has served: with others to serve later, with none
    -- left, with one whose handler has suspended the connection, or with the close of the connection.
    abbrev pub Ends : ℕ → Work → ℕ → Handled junk max_mem handle → ℕ → Type 0
    Ends j last most (w, rest, again) k =
        (again ≡ true) × (k ≡ most) × (0 < length rest) × (w ≡ last)
        ⊎ (again ≡ false)
          × ((rest ≡ []) × (w ≡ last)
              ⊎ ((request : HttpRequestData H) × (behind : List (HttpRequestData H)) × (rest
                    ≡ request ∷ behind)
                  × (trigger_handler junk max_mem handle (answers j) request last ≡ some w)
                  × (has_continuation w.conn ≡ true))
              ⊎ (w ≡ record last { conn = set_close_after_finish true last.conn }))

    -- How many requests were served, at most some: what is left is what was behind them, and all but
    -- the last of them are to be kept alive.
    abbrev pub IsServed :
        ℕ → ℕ → List (HttpRequestData H) → Work → Handled junk max_mem handle → Type 0
    IsServed i most requests w h =
        (k : ℕ) × (k ≤ most)
        × (h.1 ≡ drop k requests)
        × AllAlive k requests
        × (j : ℕ) × (last : Work) × Serves i k requests w j last
        × Ends j last most h k
