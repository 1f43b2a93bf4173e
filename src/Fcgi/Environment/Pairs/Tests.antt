-- ===== src/Fcgi/Environment/Pairs/Tests.antt =====
-- One pair behind a byte that is there.
use tube.Common.{codes, ◌++◌, some, take, drop, true, refl, ◌≡◌, arith}
use tube.Core.Buffer.{new_buffer}
use tube.Fcgi.Environment.{Environment, set_environment}
use tube.Fcgi.Environment.Pairs.{read_pair, read_pair-set_environment}

abbrev started : Environment
started = record { state = 1; buffer = new_buffer 0; kv_buf = codes "x" }

read_pair-set_environment_example :
    let (added, next) = set_environment started (codes "HOST") (codes "a") in
    (added ≡ true)
    × (take 1 next.kv_buf ≡ codes "x")
    × (read_pair (drop 1 next.kv_buf ++ codes "more")
        ≡ some (codes "HOST", codes "a", codes "more"))
read_pair-set_environment_example =
    read_pair-set_environment started (codes "HOST") (codes "a") (codes "more") refl (omega arith)
      (omega arith) (omega arith)
