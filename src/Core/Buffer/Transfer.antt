-- ===== src/Core/Buffer/Transfer.antt =====
-- write_to_fd sends a front of what the buffer holds and keeps the rest.
use tube.Common.{
  ℕ, zero, suc, ◌+◌, ◌-◌, ◌≤◌, ◌<◌, Bytes, List, [], ◌∷◌, ◌++◌, ◌≡◌, refl, sym, ap, ◌∙◌, arith,
  length, take, drop, All, length-append, length-take, length-drop, take-append-drop,
  take-append_le, take-take_le, drop-append_le, take-append_add, drop-append_add_zero, append-nil,
  lt→ltb, Bool-cases, inl, inr, ◌==◌, some, none,
}
use tube.Core.Buffer.{page_size, Buffer, offered_bytes, offered, write_to_fd}
use tube.Core.Buffer.Repr.{flatten, IsPage, Holds, length-flatten, Holds-total}
use tube.Core.Buffer.Pop.{pop-Holds}

-- The bytes that two or more pages offer, against the bytes behind the left offset.
two_pages :
    (left right : ℕ) (p q rest body free : Bytes)
    → IsPage p
    → IsPage q
    → right ≤ page_size
    → drop left (p ++ (q ++ rest)) ≡ body ++ free
    → (page_size - left) + (page_size - right) ≤ length body
    → left ≤ page_size
    → drop left p ++ take (page_size - right) q
      ≡ take ((page_size - left) + (page_size - right)) body
two_pages left right p q rest body free fp fq rfits e le lfits = sym (
    sym (take-append_le ((page_size - left) + (page_size - right)) body free le)
    ∙ ap (take ((page_size - left) + (page_size - right)))
        (sym e ∙ drop-append_le left p (q ++ rest) (omega (arith, fp)))
    ∙ take-append_add (page_size - left) (page_size - right) (drop left p) (q ++ rest)
        (length-drop left p ∙ ap (λ n. n - left) fp)
    ∙ ap (λ t. drop left p ++ t) (take-append_le (page_size - right) q rest (omega (arith, fq))))

-- How many bytes are offered: all those held on one page; on more, what two pages would hold if the
-- second were the last.
offer : ℕ → ℕ → List Bytes → ℕ
offer left right [] = 0
offer left right (p ∷ []) = page_size - left - right
offer left right (p ∷ q ∷ _) = (page_size - left) + (page_size - right)

offered_bytes-take :
    (left right : ℕ) (ps : List Bytes)
    → All IsPage ps
    → 0 < length ps
    → (body free : Bytes) → drop left (flatten ps) ≡ body ++ free
    → left < page_size
    → right ≤ page_size
    → left + length body + right ≡ length (flatten ps)
    → (offered_bytes left right ps ≡ take (offer left right ps) body)
      × (offer left right ps ≤ length body)
      × (0 < length body → 0 < offer left right ps)
unfolding offered_bytes offer
offered_bytes-take left right [] full some_page body free e lfits rfits total = absurd (omega arith)
offered_bytes-take left right (p ∷ []) full some_page body free e lfits rfits total = (
  ap (take room) (ap (drop left) (sym (append-nil p)) ∙ e)
      ∙ take-append_le room body free (omega (arith, length-append p [], full.0)),
  omega (arith, length-append p [], full.0),
  λ pos. omega (arith, length-append p [], full.0),
)
  where
    room : ℕ
    room = page_size - left - right
offered_bytes-take left right (p ∷ q ∷ ps) full some_page body free e lfits rfits total = (
  two_pages left right p q (flatten ps) body free full.0 full.1.0 rfits e long (omega arith),
  long,
  λ pos. omega arith,
)
  where
    long : (page_size - left) + (page_size - right) ≤ length body
    long =
        omega (
          arith,
          length-append p (flatten (q ∷ ps)),
          length-append q (flatten ps),
          full.0,
          full.1.0,
        )

-- What write_to_fd offers is a front of what the buffer holds, and is not empty unless the buffer is.
pub offered-Holds :
    {b : Buffer} {body : Bytes}
    → Holds b body
    → (offered b ≡ take (length (offered b)) body)
      × (length (offered b) ≤ length body)
      × (0 < length body → 0 < length (offered b))
unfolding offered
offered-Holds {b} {body} h = (
  facts.0 ∙ ap (λ n. take n body) (sym size),
  omega (arith, size, facts.1),
  λ pos. omega (arith, size, facts.2 pos),
)
  where
    n : ℕ
    n = offer b.left_offset b.right_offset b.pages

    facts :
        (offered_bytes b.left_offset b.right_offset b.pages ≡ take n body)
        × (n ≤ length body)
        × (0 < length body → 0 < n)
    facts =
        offered_bytes-take b.left_offset b.right_offset b.pages h.full_pages h.some_page body h.free
          (ap (drop b.left_offset) h.bytes
            ∙ drop-append_add_zero b.left_offset h.spent (body ++ h.free) h.spent_length)
          h.left_fits h.right_fits
          (omega (arith, length-flatten b.pages h.full_pages, Holds-total h, h.body_length))

    size : length (offered_bytes b.left_offset b.right_offset b.pages) ≡ n
    size = ap length facts.0 ∙ length-take n body ∙ omega (arith, facts.1)

-- When writev takes n of the bytes offered, what was sent followed by what the buffer then holds is
-- what it held before: nothing is lost, repeated or reordered.
pub write_to_fd-Holds :
    {b : Buffer} {body : Bytes} (n : ℕ)
    → Holds b body
    → n ≤ length (offered b)
    → Holds (write_to_fd (some n) b).1 (drop n body)
      × ((write_to_fd (some n) b).0 ++ drop n body ≡ body)
unfolding write_to_fd
write_to_fd-Holds {b} zero h le = elim (Bool-cases (b.size == 0)) [
  | inl empty ↦ rw empty (h, refl)
  | inr held ↦ rw held (h, refl)
]
write_to_fd-Holds {b} {body} (suc n) h le = elim (Bool-cases (b.size == 0)) [
  | inl empty ↦ absurd (ground (arith, held.1, h.body_length))
  | inr some_held ↦
      rw (some_held, lt→ltb 0 (suc n) (omega arith))
        (
          (pop-Holds (suc n) h (omega (arith, held.1))).1,
          ap (λ t. t ++ drop (suc n) body) front ∙ take-append-drop (suc n) body,
        )
]
  where
    held :
        (offered b ≡ take (length (offered b)) body)
        × (length (offered b) ≤ length body)
        × (0 < length body → 0 < length (offered b))
    held = offered-Holds h

    front : take (suc n) (offered b) ≡ take (suc n) body
    front = ap (take (suc n)) held.0 ∙ take-take_le (suc n) (length (offered b)) body le

-- An error of writev sends nothing and changes nothing.
pub write_to_fd_error : (b : Buffer) → write_to_fd none b ≡ ([], b)
unfolding write_to_fd
write_to_fd_error b = ground arith
