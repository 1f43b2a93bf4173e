-- ===== src/Http/Range/Ends/Tests.antt =====
-- Runs of parse_range, and its theorems at concrete headers.
use tube.Common.{codes, ◌≡◌, refl}
use tube.Common.Int.{negsuc}
use tube.Http.Range.{parse_range, offset_loop, end_loop, skip_unit, is_digit}

runs : parse_range (codes "bytes=10-20") ≡ record { offset = 10; length = negsuc 0 }
unfolding parse_range offset_loop end_loop skip_unit is_digit
runs = refl
