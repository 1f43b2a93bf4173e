-- ===== src/Core/Buffer/Pop.antt =====
-- pop drops bytes from the front of what the buffer holds.
use tube.Common.{
  ℕ, zero, suc, ◌+◌, ◌-◌, ◌*◌, ◌/◌, ◌%◌, max, ◌≤◌, ◌<◌, Bytes, List, [], ◌∷◌, ◌++◌, ◌≡◌, refl, sym,
  ap, subst, ◌∙◌, arith, length, take, drop, All, length-take, length-drop, take-append-drop,
  drop-append_le, drop-append_add, drop-drop, drop_all, ltb, lt→ltb, Bool-cases, inl, inr, true,
  false, ◌==◌,
}
use tube.Core.Buffer.{page_size, Buffer, drop_pages, pop, pop_page, clear}
use tube.Core.Buffer.Repr.{flatten, IsPage, Holds, page_size_pos, length-flatten, Holds-total}

zero_times : (k : ℕ) → 0 * k ≡ 0
zero_times k = omega arith

suc_times : (n k : ℕ) → k + n * k ≡ suc n * k
suc_times n k = grind arith

flatten-drop_pages :
    (n : ℕ) (ps : List Bytes)
    → All IsPage ps
    → n < length ps
    → flatten (drop_pages n ps) ≡ drop (n * page_size) (flatten ps)
unfolding drop_pages
flatten-drop_pages zero ps full h = rw (zero_times page_size)
flatten-drop_pages (suc n) [] full h = elim h [ ]
flatten-drop_pages (suc n) (p ∷ []) full h = absurd (omega arith)
flatten-drop_pages (suc n) (p ∷ q ∷ ps) full h =
    flatten-drop_pages n (q ∷ ps) full.1 (omega arith)
    ∙ sym (drop-append_add page_size (n * page_size) p (flatten (q ∷ ps)) full.0)
    ∙ ap (λ m. drop m (p ++ flatten (q ∷ ps))) (suc_times n page_size)

All-drop_pages : (n : ℕ) (ps : List Bytes) → All IsPage ps → All IsPage (drop_pages n ps)
unfolding drop_pages
All-drop_pages zero ps full = full
All-drop_pages (suc n) [] full = full
All-drop_pages (suc n) (p ∷ []) full = full
All-drop_pages (suc n) (p ∷ q ∷ ps) full = All-drop_pages n (q ∷ ps) full.1

-- One page is always kept.
length-drop_pages :
    (n : ℕ) (ps : List Bytes) → 0 < length ps → length (drop_pages n ps) ≡ max 1 (length ps - n)
unfolding drop_pages
length-drop_pages zero ps h = omega arith
length-drop_pages (suc n) [] h = absurd (omega arith)
length-drop_pages (suc n) (p ∷ []) h = omega arith
length-drop_pages (suc n) (p ∷ q ∷ ps) h = omega (arith, length-drop_pages n (q ∷ ps) (omega arith))

-- The pages that pop gives back, by the total of the bytes over all pages.
popped_some_left :
    (n left size right m : ℕ)
    → n * page_size ≡ left + size + right
    → m < size
    → (m + left) / page_size < n
unfolding page_size
popped_some_left n left size right m total h = omega arith

popped_all :
    (n left size right : ℕ)
    → n * page_size ≡ left + size + right
    → right ≤ page_size
    → 0 < n
    → max 1 (n - (size + left) / page_size) ≡ 1
unfolding page_size
popped_all n left size right total fits some = omega arith

split_offset : (m left : ℕ) → (m + left) / page_size * page_size + (m + left) % page_size ≡ left + m
unfolding page_size
split_offset m left = omega arith

rem_fits : (m left : ℕ) → (m + left) % page_size < page_size
unfolding page_size
rem_fits m left = omega arith

one_page : (n : ℕ) → 0 < n → page_size ≤ n * page_size
unfolding page_size
one_page n h = omega arith

one_times : (k : ℕ) → 1 * k ≡ k
one_times k = omega arith

module _ {b : Buffer} {body : Bytes} (h : Holds b body) (m : ℕ) where
  quot : ℕ
  quot = (m + b.left_offset) / page_size

  rem : ℕ
  rem = (m + b.left_offset) % page_size

  rem-lt : rem < page_size
  unfolding rem
  rem-lt = rem_fits m b.left_offset

  kept : List Bytes
  kept = drop_pages quot b.pages

  kept-IsPage : All IsPage kept
  unfolding kept
  kept-IsPage = All-drop_pages quot b.pages h.full_pages

  kept-some : 0 < length kept
  unfolding kept
  kept-some = omega (arith, length-drop_pages quot b.pages h.some_page)

  -- Behind the remainder of the offset stand the bytes that are not popped.
  kept-behind : m < b.size → drop rem (flatten kept) ≡ drop m body ++ h.free
  unfolding kept quot rem
  kept-behind lt =
      ap (drop rem) (
        flatten-drop_pages quot b.pages h.full_pages
          (popped_some_left _ _ _ _ m (Holds-total h) lt))
      ∙ drop-drop rem (quot * page_size) (flatten b.pages)
      ∙ ap (λ n. drop n (flatten b.pages)) (split_offset m b.left_offset)
      ∙ ap (drop (b.left_offset + m)) h.bytes
      ∙ drop-append_add b.left_offset m h.spent (body ++ h.free) h.spent_length
      ∙ drop-append_le m body h.free (omega (arith, h.body_length))

  some_left-Holds :
      m < b.size
      → Holds
          (record {
            pages = kept;
            left_offset = rem;
            right_offset = b.right_offset;
            size = b.size - m;
          })
          (drop m body)
  some_left-Holds lt = record {
    spent = take rem (flatten kept);
    free = h.free;
    bytes =
        sym (take-append-drop rem (flatten kept))
        ∙ ap (λ t. take rem (flatten kept) ++ t) (kept-behind lt);
    spent_length =
        length-take rem (flatten kept)
        ∙ omega (arith, length-flatten kept kept-IsPage, one_page (length kept) kept-some, rem-lt);
    body_length = length-drop m body ∙ ap (λ n. n - m) h.body_length;
    free_length = h.free_length;
    full_pages = kept-IsPage;
    left_fits = rem-lt;
    right_fits = h.right_fits;
    some_page = kept-some;
  }

  none_left-Holds :
      m ≡ b.size
      → Holds
          (record { pages = kept; left_offset = 0; right_offset = page_size; size = b.size - m })
          (drop m body)
  none_left-Holds e = record {
    spent = [];
    free = flatten kept;
    bytes = ap (λ t. t ++ flatten kept) (sym nothing);
    spent_length = refl;
    body_length = ap length nothing ∙ omega arith;
    free_length =
        length-flatten kept kept-IsPage ∙ ap (λ n. n * page_size) one_left ∙ one_times page_size;
    full_pages = kept-IsPage;
    left_fits = page_size_pos;
    right_fits = omega arith;
    some_page = kept-some;
  }
    where
      one_left : length kept ≡ 1
      one_left =
          unfold kept quot in
          (length-drop_pages ((m + b.left_offset) / page_size) b.pages h.some_page
            ∙ ap (λ s. max 1 (length b.pages - (s + b.left_offset) / page_size)) e
            ∙ popped_all (length b.pages) b.left_offset b.size b.right_offset (Holds-total h)
                h.right_fits h.some_page)

      nothing : drop m body ≡ []
      nothing = drop_all m body (omega (arith, h.body_length))

-- Popping as many bytes as are held, or fewer, succeeds and drops them from the front.
pub pop-Holds :
    {b : Buffer} {body : Bytes} (m : ℕ)
    → Holds b body
    → m ≤ length body
    → ((pop b m).0 ≡ true) × Holds (pop b m).1 (drop m body)
unfolding pop
pop-Holds {b} m h le = elim (Bool-cases (b.size - m == 0)) [
  | inl all ↦
      rw (ltb_no, all)
        (refl, unfold kept quot in none_left-Holds h m (ground (arith, h.body_length)))
  | inr some ↦
      rw (ltb_no, some)
        (refl, unfold kept quot rem in some_left-Holds h m (ground (arith, h.body_length)))
]
  where
    ltb_no : ltb b.size m ≡ false
    ltb_no = ground (arith, h.body_length)

-- Popping more than is held is refused and changes nothing.
pub pop_refused : (b : Buffer) (m : ℕ) → b.size < m → pop b m ≡ (false, b)
unfolding pop
pop_refused b m lt = rw (lt→ltb _ _ lt)

-- Popping the first page drops the rest of its bytes when the buffer holds that many; otherwise it
-- changes nothing. The number returned is the same either way.
pub pop_page-Holds :
    {b : Buffer} {body : Bytes}
    → Holds b body
    → ((pop_page b).0 ≡ page_size - b.left_offset)
      × (page_size - b.left_offset ≤ length body
          → Holds (pop_page b).1 (drop (page_size - b.left_offset) body))
      × (length body < page_size - b.left_offset → (pop_page b).1 ≡ b)
unfolding pop_page
pop_page-Holds {b} h = (
  refl,
  λ le. (pop-Holds (page_size - b.left_offset) h le).1,
  λ lt. ap (λ r. r.1) (pop_refused b _ (omega (arith, h.body_length))),
)

pub clear-Holds : {b : Buffer} {body : Bytes} → Holds b body → Holds (clear b) []
unfolding clear
clear-Holds {b} {body} h =
    subst (Holds (pop b b.size).1) (drop_all b.size body (omega (arith, h.body_length)))
      (pop-Holds b.size h (omega (arith, h.body_length))).1

-- What popping leaves of the size, whatever the buffer holds.
pub pop_size :
    (b : Buffer) (m : ℕ)
    → ((pop b m).1.size ≤ b.size) × (m ≤ b.size → (pop b m).1.size ≡ b.size - m)
unfolding pop
pop_size b m = elim (Bool-cases (ltb b.size m)) [
  | inl refused ↦ rw refused (omega arith, λ le. absurd (ground (arith, refused, le)))
  | inr fits ↦ rw fits (omega arith, λ le. refl)
]
