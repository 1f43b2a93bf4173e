-- ===== src/Utils/Compare/Case/Tests.antt =====
-- Runs of the comparison.
use tube.Common.{codes, ◌≡◌, refl, true}
use tube.Utils.Compare.{chars_match, ignore_compare, parse_bool}

parses_on : parse_bool (codes "On") ≡ true
unfolding parse_bool ignore_compare chars_match
parses_on = refl
