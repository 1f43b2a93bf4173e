-- ===== src/Core/Sharing/Isolation/Tests.antt =====
-- Three objects over one page list, and the theorems on them.
use tube.Common.{
  ℕ, zero, suc, ◌<◌, codes, true, false, [], ◌∷◌, ◌≡◌, refl, some, arith, get_elem?, replicate,
}
use tube.Core.Buffer.{Buffer, append}
use tube.Core.Sharing.{Handle, World, view, write_through}
use tube.Core.Sharing.Isolation.{IsValid, write_through_isolated}

abbrev owner : Handle
owner = record { cow = 0; borrowed = false; left_offset = 0; right_offset = 8190; size = 2 }

abbrev borrower : Handle
borrower = record { cow = 0; borrowed = true; left_offset = 0; right_offset = 8190; size = 2 }

abbrev shared : World
shared = record {
  pages_at = λ c. (b'h' ∷ b'i' ∷ replicate 8190 0) ∷ [];
  next_cow = 1;
  handles = owner ∷ borrower ∷ [];
}

abbrev add : Buffer → Buffer
add b = append 0 b (codes "!")

shared-IsValid : IsValid shared
shared-IsValid = record { old = handles_old }
  where
    handles_old :
        (i : ℕ) (h : Handle) → get_elem? shared.handles i ≡ some h → h.cow < shared.next_cow
    handles_old zero h e = ground arith
    handles_old (suc zero) h e = ground arith
    handles_old (suc (suc i)) h e = cc

write_through_isolated_example :
    (get_elem? (write_through add 1 borrower shared).handles 0 ≡ some owner)
    × (view (write_through add 1 borrower shared) owner ≡ view shared owner)
    × (h : Handle) × (get_elem? (write_through add 1 borrower shared).handles 1 ≡ some h)
    × (view (write_through add 1 borrower shared) h ≡ add (view shared borrower))
write_through_isolated_example =
    write_through_isolated add shared 1 0 borrower owner shared-IsValid refl refl (λ e. omega arith)
      refl
