-- ===== src/Http/Config/Hosts/Tests.antt =====
-- One named host and the default.
use tube.Common.{ℕ, Bytes, codes, List, [], ◌∷◌, ◌++◌, none, ◌≡◌, refl}
use tube.Http.Config.{Request, always, Rule, lookup, from_colon, find_host, match_found, match_uri}
use tube.Http.Config.Hosts.{match_uri-host}

abbrev hosts : List (Bytes × List (Rule ℕ))
hosts =
    (codes "tube.org", record { matcher = always; handlers = 1 ∷ [] } ∷ [])
    ∷ (codes "default", record { matcher = always; handlers = 2 ∷ [] } ∷ [])
    ∷ []

abbrev root_page : Request
root_page = record { path = codes "/"; uri = codes "/" }

plain : from_colon (codes "tube.org") ≡ none
unfolding from_colon
plain = refl

default_plain : from_colon (codes "default") ≡ none
unfolding from_colon
default_plain = refl

match_uri-host_example :
    (match_uri hosts (codes "tube.org") root_page
      ≡ match_found (find_host hosts (lookup (codes "tube.org") hosts)) root_page)
    × (match_uri hosts (codes "tube.org" ++ b':' ∷ codes "80") root_page
        ≡ match_found (lookup (codes "default") hosts) root_page)
match_uri-host_example =
    match_uri-host hosts (codes "tube.org") (codes "80") root_page plain
      (plain, (default_plain, tt))
