-- ===== src/Http/Config/Hosts.antt =====
-- The virtual host of a request whose Host header names a port.
mod Tests
use tube.Common.{
  Bytes, codes, bytes_eq, bytes_eq→eq, Bool, true, false, List, [], ◌∷◌, ◌++◌, Option, none, some,
  is_none, ◌==◌, if◌then◌else◌, All, ◌≡◌, refl, ap, sym, ◌∙◌, subst, arith, Bool-cases, inl, inr,
}
use tube.Http.Config.{
  Request, Rule, lookup, match_rules, from_colon, host_key, parse_host, find_host, match_found,
  match_uri,
}

from_colon-append :
    (name port : Bytes)
    → from_colon name ≡ none
    → from_colon (name ++ b':' ∷ port) ≡ some (b':' ∷ port)
unfolding from_colon
from_colon-append [] port h = refl
from_colon-append (c ∷ name) port h = elim (Bool-cases (c == b':')) [
  | inl colon ↦ cc (rw colon at h)
  | inr other ↦ rw other (from_colon-append name port (rw other at h))
]

parse_host_plain : (name : Bytes) → from_colon name ≡ none → parse_host name ≡ name
unfolding parse_host host_key
parse_host_plain name h = ap (host_key name) h

parse_host_port :
    (name port : Bytes) → from_colon name ≡ none → parse_host (name ++ b':' ∷ port) ≡ b':' ∷ port
unfolding parse_host host_key
parse_host_port name port h = ap (host_key (name ++ b':' ∷ port)) (from_colon-append name port h)

module _ {H : Type 0} where
  no_colon_key :
      (hosts : List (Bytes × List (Rule H))) (port : Bytes)
      → All (λ h. from_colon h.0 ≡ none) hosts
      → lookup (b':' ∷ port) hosts ≡ none
  no_colon_key [] port h = refl
  no_colon_key ((k, rules) ∷ hosts) port h = elim (Bool-cases (bytes_eq k (b':' ∷ port))) [
    | inl same ↦
        absurd
          (colon_none (subst (λ t. from_colon t ≡ none) (bytes_eq→eq k (b':' ∷ port) same) h.0))
    | inr other ↦ rw other (no_colon_key hosts port h.1)
  ]
    where
      colon_none : from_colon (b':' ∷ port) ≡ none → ⊥
      colon_none e = unfold from_colon in cc e

  -- A host without a colon is looked up by its name. One with a port is never found by its name: with
  -- hosts configured by names without a colon, it always gets the rules of "default".
  pub match_uri-host :
      (hosts : List (Bytes × List (Rule H))) (name port : Bytes) (req : Request)
      → from_colon name ≡ none
      → All (λ h. from_colon h.0 ≡ none) hosts
      → (match_uri hosts name req ≡ match_found (find_host hosts (lookup name hosts)) req)
        × (match_uri hosts (name ++ b':' ∷ port) req
            ≡ match_found (lookup (codes "default") hosts) req)
  unfolding match_uri find_host
  match_uri-host hosts name port req plain keys = (
    ap (λ k. match_found (find_host hosts (lookup k hosts)) req) (parse_host_plain name plain),
    ap (λ k. match_found (find_host hosts (lookup k hosts)) req) (parse_host_port name port plain)
        ∙ ap (λ o. match_found (find_host hosts o) req) (no_colon_key hosts port keys),
  )
