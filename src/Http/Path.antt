-- ===== src/Http/Path.antt =====
-- http/static_handler.cc: string_remove_dots, which handle_request applies to the decoded path.
pub mod Safe
use tube.Common.{
  ℕ, zero, suc, Bytes, codes, bytes_eq, Bool, ◌||◌, [], ◌∷◌, ◌++◌, ◌==◌, if◌then◌else◌, length,
}

-- The characters up to the next slash: path.substr(i + 1, j - i - 1).
pub entry : Bytes → Bytes
entry [] = []
entry (c ∷ r) = let more = c ∷ entry r in if c == b'/' then [] else more

-- What stands from the next slash on: where the loop goes on.
pub from_slash : Bytes → Bytes
from_slash [] = []
from_slash (c ∷ r) = let more = from_slash r in if c == b'/' then c ∷ r else more

pub is_dots : Bytes → Bool
is_dots ent = bytes_eq ent (codes ".") || bytes_eq ent (codes "..")

-- The loop over the index, on the characters left; each round takes at least one of them.
pub remove_dots_loop : ℕ → Bytes → Bytes
remove_dots_loop zero path = []
remove_dots_loop (suc fuel) [] = []
remove_dots_loop (suc fuel) (c ∷ r) =
    let at_slash =
      c ∷ ((if is_dots (entry r) then [] else entry r) ++ remove_dots_loop fuel (from_slash r)) in
    let other = c ∷ remove_dots_loop fuel r in if c == b'/' then at_slash else other

pub string_remove_dots : Bytes → Bytes
string_remove_dots path = remove_dots_loop (suc (length path)) path
