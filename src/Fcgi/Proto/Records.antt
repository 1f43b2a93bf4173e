-- ===== src/Fcgi/Proto/Records.antt =====
-- Records on the wire: what is written, and what extract_record reads.
mod Tests
use tube.Common.{
  ℕ, suc, ◌+◌, ◌-◌, ◌*◌, ◌/◌, ◌%◌, ◌≤◌, ◌<◌, Bytes, Bool, true, false, List, [], ◌∷◌, ◌++◌, Option,
  none, some, ltb, lt→ltb, ◌==◌, ==_iff, if◌then◌else◌, length, length-append, take, drop,
  take_front, drop_front, replicate, append_assoc, append-nil, ◌≡◌, refl, ap, sym, ◌∙◌, subst,
  arith, Bool-cases, inl, inr, ◌⊎◌,
}
use tube.Core.Buffer.{Buffer, append, copy_loop, copy_front, copy_front_buffer, pop}
use tube.Core.Buffer.Repr.{Holds}
use tube.Core.Buffer.Append.{append-Holds}
use tube.Core.Buffer.Pop.{pop-Holds, pop_size}
use tube.Core.Buffer.Copy.{copy_front-Holds, copy_front_buffer-Holds}
use tube.Fcgi.Proto.{
  Record, record_size, header_bytes, record_of, set_content_length, total_length, append_to_buffer,
  append_to_buffer_content_data, copy_content, extract_from, extract_record,
}

-- The fields are in the ranges of their types.
pub record IsRecord (rec : Record) : Type 0 where
  pub version_byte : rec.version < 256
  pub kind_byte : rec.kind < 256
  pub request_short : rec.request_id < 65536
  pub content_short : rec.content_length < 65536
  pub padding_byte : rec.padding_length < 256
  pub reserved_byte : rec.reserved < 256

short_bytes : (n : ℕ) → n < 65536 → ((n / 256) % 256) * 256 + n % 256 ≡ n
short_bytes n h = omega arith

-- A record whose fields fit their types is read back from the bytes that it is written as, whatever
-- comes after them.
pub record_of-header_bytes :
    (rec : Record) (more : Bytes) → IsRecord rec → record_of (header_bytes rec ++ more) ≡ rec
unfolding record_of header_bytes
record_of-header_bytes rec more h =
    rw (short_bytes rec.request_id h.request_short, short_bytes rec.content_length h.content_short)

-- Setting a length keeps it modulo 2 ^ 16, and pads it with fewer than four bytes to a multiple of
-- four; a record stays one.
pub set_content_length_lem :
    (rec : Record) (size : ℕ)
    → ((set_content_length rec size).content_length ≡ size % 65536)
      × (total_length (set_content_length rec size) % 4 ≡ 0)
      × ((set_content_length rec size).padding_length < 4)
      × (IsRecord rec → IsRecord (set_content_length rec size))
unfolding set_content_length total_length
set_content_length_lem rec size = (
  refl,
  ground arith,
  ground arith,
  λ h. record {
    version_byte = h.version_byte;
    kind_byte = h.kind_byte;
    request_short = h.request_short;
    content_short = omega arith;
    padding_byte = ground arith;
    reserved_byte = h.reserved_byte;
  },
)

header_length : (rec : Record) → length (header_bytes rec) ≡ 8
unfolding header_bytes
header_length rec = refl

-- The content of a record that was written with so much data: the data and its zero padding.
abbrev pub padded : Record → Bytes → Bytes
padded rec ptr =
    if rec.content_length == 0
    then []
    else take rec.content_length ptr ++ replicate rec.padding_length 0

module _ (junk : ℕ) {b : Buffer} {body : Bytes} where
  pub append_to_buffer-Holds :
      (rec : Record) → Holds b body → Holds (append_to_buffer junk rec b) (body ++ header_bytes rec)
  unfolding append_to_buffer
  append_to_buffer-Holds rec h = append-Holds junk (header_bytes rec) h

  -- Writing a record and its data to a buffer adds the header, as many bytes of the data as
  -- content_length says, and the padding as zeros; no padding goes with an empty content.
  pub append_record-Holds :
      (rec : Record) (ptr : Bytes)
      → Holds b body
      → Holds
          (append_to_buffer_content_data junk rec (append_to_buffer junk rec b) ptr)
          (body ++ (header_bytes rec ++ padded rec ptr))
  unfolding append_to_buffer append_to_buffer_content_data
  append_record-Holds rec ptr h = elim (Bool-cases (rec.content_length == 0)) [
    | inl empty ↦ rw empty (
        subst (λ t. Holds (append junk b (header_bytes rec)) (body ++ t))
          (sym (append-nil (header_bytes rec))) (append-Holds junk (header_bytes rec) h))
    | inr full ↦ rw full (elim (Bool-cases (rec.padding_length == 0)) [
      | inl even ↦ rw even (
          subst
            (Holds (append junk (append junk b (header_bytes rec)) (take rec.content_length ptr)))
            (append_assoc body (header_bytes rec) (take rec.content_length ptr)
              ∙ ap (λ t. body ++ (header_bytes rec ++ t)) (no_padding even))
            with_content)
      | inr odd ↦ rw odd (
          subst
            (Holds (
              append junk
                (append junk (append junk b (header_bytes rec)) (take rec.content_length ptr))
                zeros))
            regroup (append-Holds junk zeros with_content))
    ])
  ]
    where
      zeros : Bytes
      zeros = replicate rec.padding_length 0

      with_content :
          Holds
            (append junk (append junk b (header_bytes rec)) (take rec.content_length ptr))
            ((body ++ header_bytes rec) ++ take rec.content_length ptr)
      with_content =
          append-Holds junk (take rec.content_length ptr) (append-Holds junk (header_bytes rec) h)

      no_padding :
          (rec.padding_length == 0) ≡ true
          → take rec.content_length ptr ≡ take rec.content_length ptr ++ zeros
      no_padding even =
          subst (λ n. take rec.content_length ptr ≡ take rec.content_length ptr ++ replicate n 0)
            (sym ((==_iff rec.padding_length 0).0 even))
            (sym (append-nil (take rec.content_length ptr)))

      regroup :
          ((body ++ header_bytes rec) ++ take rec.content_length ptr) ++ zeros
          ≡ body ++ (header_bytes rec ++ (take rec.content_length ptr ++ zeros))
      regroup =
          append_assoc (body ++ header_bytes rec) (take rec.content_length ptr) zeros
          ∙ append_assoc body (header_bytes rec) (take rec.content_length ptr ++ zeros)

-- extract_record on a buffer with this content. Without a whole header, or with fewer bytes in the
-- buffer, the header's own counted, than the header says for content and padding, it gives nothing
-- and leaves the buffer alone. Otherwise it gives the record and takes its header off the buffer.
abbrev pub Extracts : Buffer → Bytes → Type 0
Extracts b body =
    (length body < record_size → extract_record b ≡ (none, b))
    × (record_size ≤ length body
        → length body < total_length (record_of (take record_size body))
        → extract_record b ≡ (none, b))
    × (record_size ≤ length body
        → total_length (record_of (take record_size body)) ≤ length body
        → (b' : Buffer) × (extract_record b ≡ (some (record_of (take record_size body)), b'))
          × Holds b' (drop record_size body))

-- extract_record on a buffer with some content does what the content's first eight bytes say: see
-- Extracts.
pub extract_record-Extracts : {b : Buffer} {body : Bytes} → Holds b body → Extracts b body
unfolding extract_record extract_from
extract_record-Extracts {b} {body} h = (
  (λ short. rw (copied, gives_none short)),
  (λ whole less. rw (copied, gives whole, sym h.body_length) (rw (lt→ltb _ _ less))),
  λ whole enough.
      let popped = pop-Holds record_size h whole in
      (
        (pop b record_size).1,
        rw (copied, gives whole, sym h.body_length, not_less enough),
        popped.1,
      ),
)
  where
    copied :
        copy_front b record_size
        ≡ (if ltb (length body) record_size then none else some (take record_size body))
    copied = copy_front-Holds record_size h

    gives_none : length body < record_size → ltb (length body) record_size ≡ true
    gives_none short = lt→ltb _ _ short

    gives : record_size ≤ length body → ltb (length body) record_size ≡ false
    gives whole = ground arith

    not_less : {n : ℕ} → n ≤ length body → ltb (length body) n ≡ false
    not_less le = ground arith

-- A buffer with a record's header at its front, and as many bytes in all as extract_record asks for.
pub extract_record-header :
    {b : Buffer} (rec : Record) (rest : Bytes)
    → IsRecord rec
    → total_length rec ≤ record_size + length rest
    → Holds b (header_bytes rec ++ rest)
    → (b' : Buffer) × (extract_record b ≡ (some rec, b')) × Holds b' rest
extract_record-header {b} rec rest ok fits h =
    let r = (extract_record-Extracts h).2 eight (rw same all) in
    (r.0, r.1 ∙ ap (λ t. (some t, r.0)) same, subst (Holds r.0) behind r.2)
  where
    eight : record_size ≤ length (header_bytes rec ++ rest)
    eight = omega (arith, header_length rec, length-append (header_bytes rec) rest)

    all : total_length rec ≤ length (header_bytes rec ++ rest)
    all = omega (arith, header_length rec, length-append (header_bytes rec) rest, fits)

    front : take record_size (header_bytes rec ++ rest) ≡ header_bytes rec ++ []
    front = unfold header_bytes in refl

    same : record_of (take record_size (header_bytes rec ++ rest)) ≡ rec
    same = ap record_of front ∙ record_of-header_bytes rec [] ok

    behind : drop record_size (header_bytes rec ++ rest) ≡ rest
    behind = unfold header_bytes in refl

-- A buffer that holds only the header of a record, with content and padding of at most eight bytes
-- together, gives the record although nothing of its content is there.
pub extract_record_early :
    {b : Buffer} (rec : Record)
    → IsRecord rec
    → total_length rec ≤ record_size
    → Holds b (header_bytes rec)
    → (b' : Buffer) × (extract_record b ≡ (some rec, b')) × Holds b' []
extract_record_early {b} rec ok small h =
    extract_record-header rec [] ok (omega arith)
      (subst (Holds b) (sym (append-nil (header_bytes rec))) h)

-- A record that is taken is 8 bytes of the buffer, whatever the buffer holds.
pub extract_record_size :
    (b : Buffer)
    → ((b' : Buffer) × (extract_record b ≡ (none, b')))
      ⊎ ((rec : Record) × (b' : Buffer) × (extract_record b ≡ (some rec, b')) × (b'.size < b.size))
unfolding extract_record extract_from copy_front
extract_record_size b = elim (Bool-cases (ltb b.size record_size)) [
  | inl short ↦ rw short (inl (b, refl))
  | inr whole ↦
      rw whole
        (elim (Bool-cases
          (ltb b.size (total_length (record_of (copy_loop b.left_offset record_size b.pages))))) [
            | inl part ↦ rw part (inl (b, refl))
            | inr all ↦ rw all (inr (_, _, refl, ground (arith, (pop_size b record_size).1, whole)))
          ])
]
