-- ===== src/Http/Path/Safe/Tests.antt =====
-- Runs of string_remove_dots, and its theorems at concrete paths.
use tube.Common.{codes, ◌≡◌, refl, bytes_eq, All}
use tube.Http.Path.{string_remove_dots, remove_dots_loop, entry, from_slash, is_dots}
use tube.Http.Path.Safe.{
  components, NotDots, blank_all, components-string_remove_dots, string_remove_dots-NotDots,
}

cleans : string_remove_dots (codes "/a/../b/./c") ≡ codes "/a//b//c"
unfolding string_remove_dots remove_dots_loop entry from_slash is_dots bytes_eq
cleans = refl

keeps_first : string_remove_dots (codes "../x") ≡ codes "../x"
unfolding string_remove_dots remove_dots_loop entry from_slash is_dots bytes_eq
keeps_first = refl

components-string_remove_dots_example : components (string_remove_dots (codes "/a/../b")) ≡ record {
  first = (components (codes "/a/../b")).first;
  rest = blank_all (components (codes "/a/../b")).rest;
}
components-string_remove_dots_example = components-string_remove_dots (codes "/a/../b")

string_remove_dots-NotDots_example :
    All NotDots (components (string_remove_dots (codes "/../../etc"))).rest
string_remove_dots-NotDots_example = string_remove_dots-NotDots (codes "/../../etc")
