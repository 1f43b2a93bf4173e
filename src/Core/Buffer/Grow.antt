-- ===== src/Core/Buffer/Grow.antt =====
-- The new pages of append and of read_from_fd.
use tube.Common.{
  ℕ, zero, suc, ◌-◌, ◌/◌, ◌≤◌, ◌<◌, Bytes, List, [], ◌∷◌, ◌++◌, ◌≡◌, sym, ap, ◌∙◌, arith, length,
  take, drop, All, length-take, length-drop, take-append-drop, take_all, drop_all, zero_plus,
  append_assoc, append-nil, ltb, ltb→lt, Bool-cases, inl, inr, true, false,
}
use tube.Core.Buffer.{page_size, write_at, fresh_page, append_loop}
use tube.Core.Buffer.Repr.{flatten, IsPage, fresh_page-IsPage, length-write_at}

fuel_step : (n f : ℕ) → n / page_size < suc f → page_size ≤ n → (n - page_size) / page_size < f
unfolding page_size
fuel_step n f h le = omega arith

module _ (junk : ℕ) where
  -- What append_loop leaves free behind its bytes.
  pub record Grown (bytes : Bytes) (r : List Bytes × ℕ) : Type 0 where
    pub free : Bytes
    pub held : flatten r.0 ≡ bytes ++ free
    pub free_length : length free ≡ r.1
    pub full : All IsPage r.0
    pub fits : r.1 ≤ page_size
    pub some_page : 0 < length r.0

  first_page : Bytes → Bytes
  first_page bytes = write_at (fresh_page junk) 0 (take page_size bytes)

  first_page-IsPage : (bytes : Bytes) → IsPage (first_page bytes)
  unfolding first_page
  first_page-IsPage bytes =
      length-write_at (fresh_page junk) 0 (take page_size bytes)
        (omega (arith, length-take page_size bytes, fresh_page-IsPage junk))
      ∙ fresh_page-IsPage junk

  first_page_last :
      (bytes : Bytes)
      → length bytes < page_size
      → first_page bytes ≡ bytes ++ drop (length bytes) (fresh_page junk)
  unfolding first_page
  first_page_last bytes h = rw (take_all page_size bytes (omega arith), zero_plus)

  first_page_full :
      (bytes : Bytes) → page_size ≤ length bytes → first_page bytes ≡ take page_size bytes
  unfolding first_page
  first_page_full bytes h =
      ap (λ t. take page_size bytes ++ t)
        (drop_all _ (fresh_page junk)
          (omega (arith, length-take page_size bytes, fresh_page-IsPage junk)))
      ∙ append-nil _

  loop_last :
      (fuel : ℕ) (bytes : Bytes)
      → ltb (length bytes) page_size ≡ true
      → append_loop junk (suc fuel) bytes ≡ (first_page bytes ∷ [], page_size - length bytes)
  unfolding append_loop first_page
  loop_last fuel bytes e = rw e

  loop_more :
      (fuel : ℕ) (bytes : Bytes)
      → ltb (length bytes) page_size ≡ false
      → append_loop junk (suc fuel) bytes ≡ (
        first_page bytes ∷ (append_loop junk fuel (drop page_size bytes)).0,
        (append_loop junk fuel (drop page_size bytes)).1,
      )
  unfolding append_loop first_page
  loop_more fuel bytes e = rw e

  pub append_loop-Grown :
      (fuel : ℕ) (bytes : Bytes)
      → length bytes / page_size < fuel
      → Grown bytes (append_loop junk fuel bytes)
  append_loop-Grown zero bytes h = absurd (omega arith)
  append_loop-Grown (suc fuel) bytes h = elim (Bool-cases (ltb (length bytes) page_size)) [
    | inl last ↦ rw (loop_last fuel bytes last) (record {
      free = drop (length bytes) (fresh_page junk);
      held = append-nil _ ∙ first_page_last bytes (ltb→lt _ _ last);
      free_length =
          length-drop (length bytes) (fresh_page junk)
          ∙ ap (λ n. n - length bytes) (fresh_page-IsPage junk);
      full = (first_page-IsPage bytes, tt);
      fits = omega arith;
      some_page = omega arith;
    })
    | inr more ↦
        let long : page_size ≤ length bytes = ltb_false more in
        let rest =
          append_loop-Grown fuel (drop page_size bytes)
            (rw (length-drop page_size bytes) (fuel_step (length bytes) fuel h long)) in
        rw (loop_more fuel bytes more) (record {
          free = rest.free;
          held =
              ap (λ t. t ++ flatten (append_loop junk fuel (drop page_size bytes)).0)
                (first_page_full bytes long)
              ∙ ap (λ t. take page_size bytes ++ t) rest.held
              ∙ sym (append_assoc (take page_size bytes) (drop page_size bytes) rest.free)
              ∙ ap (λ t. t ++ rest.free) (take-append-drop page_size bytes);
          free_length = rest.free_length;
          full = (first_page-IsPage bytes, rest.full);
          fits = rest.fits;
          some_page = omega arith;
        })
  ]
    where
      ltb_false : ltb (length bytes) page_size ≡ false → page_size ≤ length bytes
      ltb_false e = ground arith

  pub extra-Grown :
      (bytes : Bytes)
      → length bytes ≤ page_size
      → Grown bytes (write_at (fresh_page junk) 0 bytes ∷ [], page_size - length bytes)
  extra-Grown bytes h = record {
    free = drop (length bytes) (fresh_page junk);
    held = append-nil _ ∙ (rw zero_plus);
    free_length =
        length-drop (length bytes) (fresh_page junk)
        ∙ ap (λ n. n - length bytes) (fresh_page-IsPage junk);
    full = (
      length-write_at (fresh_page junk) 0 bytes (omega (arith, fresh_page-IsPage junk))
          ∙ fresh_page-IsPage junk,
      tt,
    );
    fits = omega arith;
    some_page = omega arith;
  }
  -- The last page after a write of what fits there.
