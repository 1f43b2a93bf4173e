-- ===== src/Http/Config/Rules/Tests.antt =====
-- Two rules, of which the second takes the request.
use tube.Common.{ℕ, bytes_eq, codes, false, [], ◌∷◌, ◌≡◌, refl}
use tube.Http.Config.{Request, prefix, match_prefix, match, Rule}

abbrev static_page : Request
static_page = record { path = codes "/static/a"; uri = codes "/static/a?b" }

abbrev php_rule : Rule ℕ
php_rule = record { matcher = prefix (codes "/php"); handlers = 1 ∷ [] }

php_refuses : (match php_rule.matcher static_page).0 ≡ false
unfolding match match_prefix bytes_eq
php_refuses = refl
