-- ===== src/Core/Buffer/Append.antt =====
-- append and read_from_fd add their bytes at the end of what the buffer holds.
use tube.Common.{
  ℕ, ◌+◌, ◌-◌, ◌≤◌, ◌<◌, Bytes, List, [], ◌∷◌, ◌++◌, ◌≡◌, sym, ap, ◌∙◌, arith, length, take, drop,
  All, All-append, length-append, length-take, length-drop, take-append-drop, take_all, drop_all,
  append_assoc, append-nil, ltb, leb, ltb→lt, leb→le, subst, Bool-cases, inl, inr, some,
}
use tube.Core.Buffer.{page_size, Buffer, write_at, update_last, fresh_page, append, read_from_fd}
use tube.Core.Buffer.Repr.{
  flatten, IsPage, Holds, flatten-append, length-write_at, flatten-update_last, All-update_last,
  length-update_last,
}
use tube.Core.Buffer.Grow.{Grown, append_loop-Grown, extra-Grown}

module _ (junk : ℕ) where
  module _ {b : Buffer} {body : Bytes} (h : Holds b body) (bytes : Bytes) where
    into_last : Bytes → List Bytes
    into_last d = update_last (λ p. write_at p (page_size - b.right_offset) d) b.pages

    into_last-flatten :
        (d : Bytes) → flatten (into_last d) ≡ (h.spent ++ body) ++ (d ++ drop (length d) h.free)
    unfolding into_last
    into_last-flatten d =
        flatten-update_last b.pages b.right_offset d h.full_pages h.some_page h.right_fits
          (h.spent ++ body) h.free (h.bytes ∙ sym (append_assoc h.spent body h.free)) h.free_length

    into_last-IsPage : (d : Bytes) → length d ≤ b.right_offset → All IsPage (into_last d)
    unfolding into_last
    into_last-IsPage d le =
        All-update_last _ b.pages
          (λ p e.
            length-write_at p (page_size - b.right_offset) d (omega (arith, h.right_fits)) ∙ e)
          h.full_pages

    into_last-some : (d : Bytes) → 0 < length (into_last d)
    unfolding into_last
    into_last-some d = omega (arith, length-update_last _ b.pages, h.some_page)

    -- All new bytes fit into the last page.
    fits-Holds :
        length bytes ≤ b.right_offset
        → Holds
            (record b {
              pages = into_last bytes;
              right_offset = b.right_offset - length bytes;
              size = b.size + length bytes;
            })
            (body ++ bytes)
    fits-Holds le = record {
      spent = h.spent;
      free = drop (length bytes) h.free;
      bytes =
          into_last-flatten bytes
          ∙ append_assoc h.spent body _
          ∙ ap (λ t. h.spent ++ t) (sym (append_assoc body bytes _));
      spent_length = h.spent_length;
      body_length = omega (arith, length-append body bytes, h.body_length);
      free_length = omega (arith, length-drop (length bytes) h.free, h.free_length);
      full_pages = into_last-IsPage bytes le;
      left_fits = h.left_fits;
      right_fits = omega (arith, h.right_fits);
      some_page = into_last-some bytes;
    }

    -- The last page is filled up and more pages hold the rest.
    spills-Holds :
        (ps : List Bytes) (right : ℕ)
        → b.right_offset ≤ length bytes
        → Grown junk (drop b.right_offset bytes) (ps, right)
        → Holds
            (record b {
              pages = into_last (take b.right_offset bytes) ++ ps;
              right_offset = right;
              size = b.size + length bytes;
            })
            (body ++ bytes)
    spills-Holds ps right le g = record {
      spent = h.spent;
      free = g.free;
      bytes =
          flatten-append (into_last head) ps
          ∙ ap (λ t. t ++ flatten ps) (into_last-flatten head)
          ∙ joined;
      spent_length = h.spent_length;
      body_length = omega (arith, length-append body bytes, h.body_length);
      free_length = g.free_length;
      full_pages =
          All-append IsPage (into_last head) ps
            (into_last-IsPage head (omega (arith, length-take b.right_offset bytes))) g.full;
      left_fits = h.left_fits;
      right_fits = g.fits;
      some_page = omega (arith, length-append (into_last head) ps, into_last-some head);
    }
      where
        head : Bytes
        head = take b.right_offset bytes

        no_room : drop (length head) h.free ≡ []
        no_room = drop_all _ h.free (omega (arith, length-take b.right_offset bytes, h.free_length))

        whole : head ++ (drop b.right_offset bytes ++ g.free) ≡ bytes ++ g.free
        whole =
            sym (append_assoc head (drop b.right_offset bytes) g.free)
            ∙ ap (λ t. t ++ g.free) (take-append-drop b.right_offset bytes)

        joined :
            ((h.spent ++ body) ++ (head ++ drop (length head) h.free)) ++ flatten ps
            ≡ h.spent ++ ((body ++ bytes) ++ g.free)
        joined =
            rw (no_room, g.held)
              (simp (append-nil, append_assoc) (ap (λ t. h.spent ++ (body ++ t)) whole))

  -- Appending to a buffer adds the bytes behind those it holds, however many pages they take.
  pub append-Holds :
      {b : Buffer} {body : Bytes} (bytes : Bytes)
      → Holds b body
      → Holds (append junk b bytes) (body ++ bytes)
  unfolding append
  append-Holds {b} bytes h = elim (Bool-cases (ltb (length bytes) b.right_offset)) [
    | inl fits ↦ rw fits (unfold into_last in fits-Holds h bytes (omega (arith, ltb→lt _ _ fits)))
    | inr spills ↦ rw spills (
        unfold into_last in
        spills-Holds h bytes _ _ (ground arith)
          (append_loop-Grown junk _ (drop b.right_offset bytes) (omega arith)))
  ]

  -- Reading from a descriptor adds the bytes that readv stored, at most as many as the free room and
  -- one page together, behind those held.
  pub read_from_fd-Holds :
      {b : Buffer} {body : Bytes} (bytes : Bytes)
      → Holds b body
      → length bytes ≤ b.right_offset + page_size
      → Holds (read_from_fd junk (some bytes) b) (body ++ bytes)
  unfolding read_from_fd
  read_from_fd-Holds {b} bytes h le = elim (Bool-cases (leb b.right_offset (length bytes))) [
    | inl spills ↦
        rw (spills, right_offset_eq (leb→le _ _ spills))
          (unfold into_last in
            spills-Holds h bytes _ _ (ground arith) (
              subst (λ m. Grown junk rest (write_at (fresh_page junk) 0 rest ∷ [], page_size - m))
                (length-drop b.right_offset bytes)
                (extra-Grown junk rest (omega (arith, length-drop b.right_offset bytes)))))
    | inr fits ↦
        rw (fits, take_all b.right_offset bytes (ground arith))
          (unfold into_last in fits-Holds h bytes (ground arith))
  ]
    where
      rest : Bytes
      rest = drop b.right_offset bytes

      right_offset_eq :
          b.right_offset ≤ length bytes
          → page_size + b.right_offset - length bytes ≡ page_size - (length bytes - b.right_offset)
      right_offset_eq p = omega arith

  pub size-append :
      (b : Buffer) (bytes : Bytes) → (append junk b bytes).size ≡ b.size + length bytes
  unfolding append
  size-append b bytes = elim (Bool-cases (ltb (length bytes) b.right_offset)) [
    | inl fits ↦ rw fits
    | inr spills ↦ rw spills
  ]
