-- ===== src/Core/Buffer/Copy.antt =====
-- copy_front and the page segments read what the buffer holds.
use tube.Common.{
  ℕ, ◌+◌, ◌-◌, ◌≤◌, ◌<◌, min, Bytes, List, [], ◌∷◌, ◌++◌, ◌≡◌, sym, ap, subst, ◌∙◌, arith, length,
  take, drop, All, length-append, length-take, length-drop, take-append_le, drop-append_le,
  take-append_add, drop-append_add_zero, drop_all, take_all, take_front, append-nil, append_assoc,
  ltb, ltb→lt, Bool-cases, inl, inr, true, false, ◌==◌, if◌then◌else◌, some, none,
}
use tube.Core.Buffer.{
  page_size, Buffer, copy_loop, copy_front, segments, append, append_all, append_buffer,
  copy_buffer_loop, copy_front_buffer,
}
use tube.Core.Buffer.Repr.{
  flatten, IsPage, Holds, page_size_pos, length-flatten, Holds-total, split_front,
}
use tube.Core.Buffer.Append.{append-Holds}

-- A round that takes all that is wanted, and one that takes the rest of its page.
copy_last :
    (off sz : ℕ) (p : Bytes) (ps : List Bytes)
    → sz ≤ page_size - off
    → copy_loop off sz (p ∷ ps) ≡ take sz (drop off p)
unfolding copy_loop
copy_last off sz p ps h = rw (taken, nothing) (append-nil _)
  where
    taken : min sz (page_size - off) ≡ sz
    taken = omega arith

    nothing : sz - sz ≡ 0
    nothing = omega arith

copy_more :
    (off sz : ℕ) (p : Bytes) (ps : List Bytes)
    → page_size - off < sz
    → IsPage p
    → copy_loop off sz (p ∷ ps) ≡ drop off p ++ copy_loop 0 (sz - (page_size - off)) ps
unfolding copy_loop
copy_more off sz p ps h e =
    rw (taken, more, take_all (page_size - off) (drop off p) (omega (arith, length-drop off p)))
  where
    taken : min sz (page_size - off) ≡ page_size - off
    taken = omega arith

    more : (sz - (page_size - off) == 0) ≡ false
    more = ground arith

-- The loop copies the front of the bytes behind the offset.
copy_loop-take :
    (off sz : ℕ) (ps : List Bytes)
    → All IsPage ps
    → off ≤ page_size
    → off + sz ≤ length (flatten ps)
    → copy_loop off sz ps ≡ take sz (drop off (flatten ps))
copy_loop-take off sz [] full fits le =
    unfold copy_loop in
    sym (
      drop_all 0 _
        (omega (arith, length-take sz (drop off (flatten [])), length-drop off (flatten []))))
copy_loop-take off sz (p ∷ ps) full fits le = elim (Bool-cases (ltb (page_size - off) sz)) [
  | inl more ↦
      copy_more off sz p ps (ltb→lt _ _ more) full.0
      ∙ ap (λ t. drop off p ++ t)
          (copy_loop-take 0 (sz - (page_size - off)) ps full.1 (omega arith) (rest_fits more))
      ∙ sym (
          take-append_add (page_size - off) (sz - (page_size - off)) (drop off p) (flatten ps)
            (length-drop off p ∙ ap (λ n. n - off) full.0))
      ∙ ap (λ n. take n (drop off p ++ flatten ps)) (whole more)
      ∙ ap (take sz) behind
  | inr last ↦
      copy_last off sz p ps (ground arith)
      ∙ sym (
          take-append_le sz (drop off p) (flatten ps)
            (omega (arith, length-drop off p, full.0, not_more last)))
      ∙ ap (take sz) behind
]
  where
    behind : drop off p ++ flatten ps ≡ drop off (p ++ flatten ps)
    behind = sym (drop-append_le off p (flatten ps) (omega (arith, full.0)))

    not_more : ltb (page_size - off) sz ≡ false → sz ≤ page_size - off
    not_more e = ground arith

    rest_fits : ltb (page_size - off) sz ≡ true → 0 + (sz - (page_size - off)) ≤ length (flatten ps)
    rest_fits e = omega (arith, length-append p (flatten ps), full.0, ltb→lt _ _ e)

    whole : ltb (page_size - off) sz ≡ true → page_size - off + (sz - (page_size - off)) ≡ sz
    whole e = omega (arith, ltb→lt _ _ e)

copied-take :
    {b : Buffer} {body : Bytes} (sz : ℕ)
    → Holds b body
    → sz ≤ length body
    → copy_loop b.left_offset sz b.pages ≡ take sz body
copied-take {b} {body} sz h le =
    copy_loop-take b.left_offset sz b.pages h.full_pages (omega (arith, h.left_fits))
      (omega (arith, length-flatten b.pages h.full_pages, Holds-total h, h.body_length))
    ∙ ap (take sz) (
        ap (drop b.left_offset) h.bytes
        ∙ drop-append_add_zero b.left_offset h.spent (body ++ h.free) h.spent_length)
    ∙ take-append_le sz body h.free le

-- copy_front gives the first bytes that the buffer holds, and refuses more than it holds.
pub copy_front-Holds :
    {b : Buffer} {body : Bytes} (sz : ℕ)
    → Holds b body
    → copy_front b sz ≡ (if ltb (length body) sz then none else some (take sz body))
unfolding copy_front
copy_front-Holds {b} {body} sz h = rw h.body_length (elim (Bool-cases (ltb b.size sz)) [
  | inl more ↦ rw more
  | inr fits ↦ rw fits (ap some (copied-take sz h (no_more fits)))
])
  where
    no_more : ltb b.size sz ≡ false → sz ≤ length body
    no_more e = ground (arith, h.body_length)

-- The segments of the pages, in order, are what the buffer holds.
segments-flatten :
    (left right : ℕ) (ps : List Bytes)
    → All IsPage ps
    → 0 < length ps
    → (body free : Bytes) → drop left (flatten ps) ≡ body ++ free
    → left < page_size
    → right ≤ page_size
    → length free ≡ right
    → left + length body + right ≡ length (flatten ps)
    → flatten (segments left right ps) ≡ body
unfolding segments
segments-flatten left right [] full some_page body free e fits rfits l total = absurd (omega arith)
segments-flatten left right (p ∷ []) full some_page body free e fits rfits l total =
    append-nil _
    ∙ ap (take (page_size - left - right)) (ap (drop left) (sym (append-nil p)) ∙ e)
    ∙ ap (λ n. take n (body ++ free)) room
    ∙ take_front body free
  where
    room : page_size - left - right ≡ length body
    room = omega (arith, length-append p [], full.0)
segments-flatten left right (p ∷ q ∷ ps) full some_page body free e fits rfits l total =
    ap (λ t. drop left p ++ t)
      (segments-flatten 0 right (q ∷ ps) full.1 (omega arith) (drop (length (drop left p)) body)
        free split.1 page_size_pos rfits l
        (omega (
          arith,
          length-drop (length (drop left p)) body,
          ap length split.1,
          length-append (drop (length (drop left p)) body) free,
        )))
    ∙ sym split.0
  where
    long : length (drop left p) ≤ length body
    long = omega (
      arith,
      length-drop left p,
      length-append p (flatten (q ∷ ps)),
      length-append q (flatten ps),
      full.0,
      full.1.0,
    )

    split :
        (body ≡ drop left p ++ drop (length (drop left p)) body)
        × (flatten (q ∷ ps) ≡ drop (length (drop left p)) body ++ free)
    split =
        split_front (drop left p) (flatten (q ∷ ps)) body free
          (sym (drop-append_le left p (flatten (q ∷ ps)) (omega (arith, full.0))) ∙ e) long

-- What a buffer's segments hold, in order.
pub segments-Holds :
    {b : Buffer} {body : Bytes}
    → Holds b body
    → flatten (segments b.left_offset b.right_offset b.pages) ≡ body
segments-Holds {b} {body} h =
    segments-flatten b.left_offset b.right_offset b.pages h.full_pages h.some_page body h.free
      (ap (drop b.left_offset) h.bytes
        ∙ drop-append_add_zero b.left_offset h.spent (body ++ h.free) h.spent_length)
      h.left_fits h.right_fits h.free_length
      (omega (arith, length-flatten b.pages h.full_pages, Holds-total h, h.body_length))

module _ (junk : ℕ) where
  append_all-Holds :
      (ss : List Bytes) (b : Buffer) (body : Bytes)
      → Holds b body
      → Holds (append_all junk b ss) (body ++ flatten ss)
  unfolding append_all
  append_all-Holds [] b body h = subst (Holds b) (sym (append-nil body)) h
  append_all-Holds (s ∷ ss) b body h =
      subst (Holds (append_all junk (append junk b s) ss)) (append_assoc body s (flatten ss))
        (append_all-Holds ss (append junk b s) (body ++ s) (append-Holds junk s h))

  -- Appending one buffer to another adds all it holds.
  pub append_buffer-Holds :
      {b other : Buffer} {body more : Bytes}
      → Holds b body
      → Holds other more
      → Holds (append_buffer junk b other) (body ++ more)
  unfolding append_buffer
  append_buffer-Holds {b} {other} {body} {more} h k =
      subst (λ t. Holds (append_buffer junk b other) (body ++ t)) (segments-Holds k)
        (append_all-Holds _ b body h)

  copy_buffer_loop-Holds :
      (off sz : ℕ) (ps : List Bytes) (b : Buffer) (body : Bytes)
      → Holds b body
      → Holds (copy_buffer_loop junk b off sz ps) (body ++ copy_loop off sz ps)
  unfolding copy_buffer_loop copy_loop
  copy_buffer_loop-Holds off sz [] b body h = subst (Holds b) (sym (append-nil body)) h
  copy_buffer_loop-Holds off sz (p ∷ ps) b body h =
      elim (Bool-cases (sz - min sz (page_size - off) == 0)) [
        | inl done ↦ rw (done, append-nil) one
        | inr more ↦ rw more (
            subst (Holds (copy_buffer_loop junk into 0 left ps))
              (append_assoc body chunk (copy_loop 0 left ps))
              (copy_buffer_loop-Holds 0 left ps into (body ++ chunk) one))
      ]
    where
      chunk : Bytes
      chunk = take (min sz (page_size - off)) (drop off p)

      left : ℕ
      left = sz - min sz (page_size - off)

      into : Buffer
      into = append junk b chunk

      one : Holds (append junk b chunk) (body ++ chunk)
      one = append-Holds junk chunk h

  -- Copying the front of one buffer to another adds those bytes there.
  pub copy_front_buffer-Holds :
      {b into : Buffer} {body held : Bytes} (sz : ℕ)
      → Holds b body
      → Holds into held
      → sz ≤ length body
      → Holds (copy_front_buffer junk b into sz).1 (held ++ take sz body)
  unfolding copy_front_buffer
  copy_front_buffer-Holds {b} {into} {body} {held} sz h k le = rw no_more (
      subst (λ t. Holds (copy_buffer_loop junk into b.left_offset sz b.pages) (held ++ t))
        (copied-take sz h le) (copy_buffer_loop-Holds b.left_offset sz b.pages into held k))
    where
      no_more : ltb b.size sz ≡ false
      no_more = ground (arith, h.body_length)
