-- ===== src/Core/Sharing/Isolation.antt =====
-- Writes through a borrowed copy are seen by no other object; writes through the original are.
mod Tests
use tube.Common.{
  ℕ, ◌+◌, ◌≤◌, ◌<◌, Bytes, Bool, true, false, ◌&&◌, List, [], ◌∷◌, ◌++◌, Option, none, some, ltb,
  ltb→lt, ◌==◌, ==_iff, if◌then◌else◌, get_elem?, set, count_if, get_elem?-set_self,
  get_elem?-set_ne, count_if_pos, count_if_one, ◌≡◌, ◌≢◌, ◌∙◌, refl, ap, arith, Bool-cases, inl,
  inr,
}
use tube.Core.Buffer.{Buffer, append, pop}
use tube.Core.Sharing.{
  Handle, World, update, view, use_count, need_copy_for_write, copy_for_write, store, write_through,
}

-- Every object points to an address that was handed out.
pub record IsValid (w : World) : Type 0 where
  pub old : (i : ℕ) (h : Handle) → get_elem? w.handles i ≡ some h → h.cow < w.next_cow

cow_ne :
    (w : World) (i j : ℕ) (h k : Handle)
    → use_count w h.cow ≤ 1
    → get_elem? w.handles i ≡ some h
    → get_elem? w.handles j ≡ some k
    → i ≢ j
    → (k.cow == h.cow) ≡ false
unfolding use_count
cow_ne w i j h k one hi hj ne = elim (Bool-cases (k.cow == h.cow)) [
  | inl same ↦ absurd (
      ne (
        count_if_one (λ l. l.cow == h.cow) w.handles i j h k one hi ((==_iff h.cow h.cow).1 refl) hj
          same))
  | inr other ↦ other
]

next_ne : (a n : ℕ) → a < n → (a == n) ≡ false
next_ne a n h = ground arith

unshared :
    (w : World) (h : Handle)
    → h.borrowed ≡ true
    → need_copy_for_write w h ≡ false
    → use_count w h.cow ≤ 1
unfolding need_copy_for_write
unshared w h b e = ground arith

self_eq : (a : ℕ) → (a == a) ≡ true
self_eq a = ground arith

-- The object written through, wherever its pages are afterwards, sees the operation's result.
pub write_through_self :
    (op : Buffer → Buffer) (w : World) (i : ℕ) (h : Handle)
    → get_elem? w.handles i ≡ some h
    → (h' : Handle) × (get_elem? (write_through op i h w).handles i ≡ some h')
      × (view (write_through op i h w) h' ≡ op (view w h))
unfolding write_through store copy_for_write
write_through_self op w i h hi = elim (Bool-cases (need_copy_for_write w h)) [
  | inl copied ↦ rw copied (
    written w.next_cow false,
    get_elem?-set_self _ i _ _ (get_elem?-set_self w.handles i _ h hi),
    rw (self_eq w.next_cow),
  )
  | inr alone ↦
      rw alone (written h.cow h.borrowed, get_elem?-set_self w.handles i _ h hi, rw (self_eq h.cow))
]
  where
    written : ℕ → Bool → Handle
    written c borrowed = record {
      cow = c;
      borrowed = borrowed;
      left_offset = (op (view w h)).left_offset;
      right_offset = (op (view w h)).right_offset;
      size = (op (view w h)).size;
    }

others_kept :
    (op : Buffer → Buffer) (w : World) (i j : ℕ) (h k : Handle)
    → IsValid w
    → get_elem? w.handles i ≡ some h
    → get_elem? w.handles j ≡ some k
    → i ≢ j
    → h.borrowed ≡ true
    → (get_elem? (write_through op i h w).handles j ≡ some k)
      × (view (write_through op i h w) k ≡ view w k)
unfolding write_through store copy_for_write
others_kept op w i j h k v hi hj ne b = elim (Bool-cases (need_copy_for_write w h)) [
  | inl copied ↦ rw copied (
    get_elem?-set_ne _ i j _ ne ∙ get_elem?-set_ne w.handles i j _ ne ∙ hj,
    rw (next_ne k.cow w.next_cow (v.old j k hj)),
  )
  | inr alone ↦ rw alone (
    get_elem?-set_ne w.handles i j _ ne ∙ hj,
    rw (cow_ne w i j h k (unshared w h b alone) hi hj ne),
  )
]

-- Through a borrowed object a write changes the view of that object as the operation says, and
-- leaves every other object where it points and with the view that it had, whether the pages were
-- shared or not.
pub write_through_isolated :
    (op : Buffer → Buffer) (w : World) (i j : ℕ) (h k : Handle)
    → IsValid w
    → get_elem? w.handles i ≡ some h
    → get_elem? w.handles j ≡ some k
    → i ≢ j
    → h.borrowed ≡ true
    → (get_elem? (write_through op i h w).handles j ≡ some k)
      × (view (write_through op i h w) k ≡ view w k)
      × (h' : Handle) × (get_elem? (write_through op i h w).handles i ≡ some h')
      × (view (write_through op i h w) h' ≡ op (view w h))
write_through_isolated op w i j h k v hi hj ne b =
    let (pointed, seen) = others_kept op w i j h k v hi hj ne b in
    let (h', pointed', seen') = write_through_self op w i h hi in
    (pointed, seen, h', pointed', seen')

-- The other way round: while an object that did not borrow its pages shares them with a copy, what
-- it appends lands in the copy's pages too, since only a borrowed object copies before it writes.
pub write_through_leaks :
    (op : Buffer → Buffer) (w : World) (i j : ℕ) (h k : Handle)
    → get_elem? w.handles i ≡ some h
    → get_elem? w.handles j ≡ some k
    → i ≢ j
    → h.borrowed ≡ false
    → k.cow ≡ h.cow
    → (get_elem? (write_through op i h w).handles j ≡ some k)
      × (view (write_through op i h w) k ≡ record (view w k) { pages = (op (view w h)).pages })
unfolding write_through store need_copy_for_write
write_through_leaks op w i j h k hi hj ne b same =
    rw b (get_elem?-set_ne w.handles i j _ ne ∙ hj, rw (same, self_eq h.cow))
