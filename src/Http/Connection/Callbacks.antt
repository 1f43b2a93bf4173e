-- ===== src/Http/Connection/Callbacks.antt =====
-- Callbacks that differ only in how the strings are cut into pieces do the same.
use tube.Common.{
  Bytes, Bool, true, false, ◌&&◌, not, List, [], ◌∷◌, ◌++◌, append_assoc, append-nil, Option, none,
  some, ltb, ◌==◌, ◌≡◌, refl, ap, sym, ◌∙◌,
}
use tube.Http.Config.{Rule}
use tube.Http.Connection.{
  Part, header_field, header_value, uri, path, query_string, fragment, chunk_data, Message,
  Callback, on_data, on_header_line_complete, on_message_complete, Requests, append_part, call,
  call_all,
}

-- The parts of a URI, whose pieces come between those of the URI as a whole.
abbrev pub in_uri : Part → Bool
in_uri path = true
in_uri query_string = true
in_uri fragment = true
in_uri _ = false

pub data Same : List Callback → List Callback → Type 0 where
  same : {cbs : List Callback} → Same cbs cbs
  turned : {cbs cbs' : List Callback} → Same cbs cbs' → Same cbs' cbs
  chained : {cbs cbs' cbs'' : List Callback} → Same cbs cbs' → Same cbs' cbs'' → Same cbs cbs''
  behind : {cbs cbs' : List Callback} (cb : Callback) → Same cbs cbs' → Same (cb ∷ cbs) (cb ∷ cbs')
  cut :
      {cbs : List Callback} (part : Part) (front back : Bytes)
      → Same (on_data part (front ++ back) ∷ cbs) (on_data part front ∷ on_data part back ∷ cbs)
  crossed :
      {cbs : List Callback} (part : Part) (whole piece : Bytes)
      → in_uri part ≡ true
      → Same
          (on_data uri whole ∷ on_data part piece ∷ cbs)
          (on_data part piece ∷ on_data uri whole ∷ cbs)
  empty_piece : {cbs : List Callback} (part : Part) → Same (on_data part [] ∷ cbs) cbs

-- The length of the body that the last complete message announces, and whether the body is left for
-- the handler: 1 is HTTP_IDENTITY.
unfoldable pub last_message : List Callback → Option Message → Option Message
last_message [] last = last
last_message (on_data part bytes ∷ cbs) last = last_message cbs last
last_message (on_header_line_complete ∷ cbs) last = last_message cbs last
last_message (on_message_complete message ∷ cbs) last = last_message cbs (some message)

abbrev pub has_body : Option Message → Bool
has_body none = false
has_body (some m) = ltb 0 m.content_length

-- No message with a content length is chunked.
unfoldable pub IsPlain : List Callback → Type 0
IsPlain [] = Unit
IsPlain (on_data part bytes ∷ cbs) = IsPlain cbs
IsPlain (on_header_line_complete ∷ cbs) = IsPlain cbs
IsPlain (on_message_complete m ∷ cbs) =
    (ltb 0 m.content_length && not (m.transfer_encoding == 1) ≡ false) × IsPlain cbs

module _ {H : Type 0} (hosts : List (Bytes × List (Rule H))) where
  append_part_twice :
      (part : Part) (front back : Bytes) (q : Requests H)
      → append_part part back (append_part part front q) ≡ append_part part (front ++ back) q
  unfolding append_part
  append_part_twice header_field front back q = rw (append_assoc q.last_header_key front back) refl
  append_part_twice header_value front back q =
      rw (append_assoc q.last_header_value front back) refl
  append_part_twice uri front back q = rw (append_assoc q.tmp_request.uri front back) refl
  append_part_twice path front back q = rw (append_assoc q.tmp_request.path front back) refl
  append_part_twice query_string front back q =
      rw (append_assoc q.tmp_request.query_string front back) refl
  append_part_twice fragment front back q = rw (append_assoc q.tmp_request.fragment front back) refl
  append_part_twice chunk_data front back q = refl

  append_part_crossed :
      (part : Part) (whole piece : Bytes) (q : Requests H)
      → in_uri part ≡ true
      → append_part part piece (append_part uri whole q)
        ≡ append_part uri whole (append_part part piece q)
  unfolding append_part
  append_part_crossed path whole piece q in_it = refl
  append_part_crossed query_string whole piece q in_it = refl
  append_part_crossed fragment whole piece q in_it = refl
  append_part_crossed header_field whole piece q in_it = refl
  append_part_crossed header_value whole piece q in_it = refl
  append_part_crossed chunk_data whole piece q in_it = refl
  append_part_crossed uri whole piece q in_it = cc in_it

  append_part_nothing : (part : Part) (q : Requests H) → append_part part [] q ≡ q
  unfolding append_part
  append_part_nothing header_field q = rw (append-nil q.last_header_key) refl
  append_part_nothing header_value q = rw (append-nil q.last_header_value) refl
  append_part_nothing uri q = rw (append-nil q.tmp_request.uri) refl
  append_part_nothing path q = rw (append-nil q.tmp_request.path) refl
  append_part_nothing query_string q = rw (append-nil q.tmp_request.query_string) refl
  append_part_nothing fragment q = rw (append-nil q.tmp_request.fragment) refl
  append_part_nothing chunk_data q = refl

  pub call_all-Same :
      {cbs cbs' : List Callback}
      → Same cbs cbs'
      → (q : Requests H) → call_all hosts cbs q ≡ call_all hosts cbs' q
  unfolding call_all call
  call_all-Same same q = refl
  call_all-Same (turned s) q = sym (call_all-Same s q)
  call_all-Same (chained s t) q = call_all-Same s q ∙ call_all-Same t q
  call_all-Same (behind cb s) q = call_all-Same s (call hosts cb q)
  call_all-Same (cut {cbs} part front back) q =
      ap (call_all hosts cbs) (sym (append_part_twice part front back q))
  call_all-Same (crossed {cbs} part whole piece in_it) q =
      ap (call_all hosts cbs) (append_part_crossed part whole piece q in_it)
  call_all-Same (empty_piece {cbs} part) q = ap (call_all hosts cbs) (append_part_nothing part q)

  pub call_all-append :
      (front back : List Callback) (q : Requests H)
      → call_all hosts (front ++ back) q ≡ call_all hosts back (call_all hosts front q)
  unfolding call_all
  call_all-append [] back q = refl
  call_all-append (cb ∷ front) back q = call_all-append front back (call hosts cb q)

pub IsPlain-Same :
    {cbs cbs' : List Callback}
    → Same cbs cbs'
    → (IsPlain cbs → IsPlain cbs') × (IsPlain cbs' → IsPlain cbs)
unfolding IsPlain
IsPlain-Same same = (λ p. p, λ p. p)
IsPlain-Same (turned s) = ((IsPlain-Same s).1, (IsPlain-Same s).0)
IsPlain-Same (chained s t) =
    (λ p. (IsPlain-Same t).0 ((IsPlain-Same s).0 p), λ p. (IsPlain-Same s).1 ((IsPlain-Same t).1 p))
IsPlain-Same (behind (on_data part bytes) s) = IsPlain-Same s
IsPlain-Same (behind on_header_line_complete s) = IsPlain-Same s
IsPlain-Same (behind (on_message_complete m) s) =
    (λ p. (p.0, (IsPlain-Same s).0 p.1), λ p. (p.0, (IsPlain-Same s).1 p.1))
IsPlain-Same (cut part front back) = (λ p. p, λ p. p)
IsPlain-Same (crossed part whole piece in_it) = (λ p. p, λ p. p)
IsPlain-Same (empty_piece part) = (λ p. p, λ p. p)

pub IsPlain-append :
    (front back : List Callback) → IsPlain (front ++ back) → IsPlain front × IsPlain back
unfolding IsPlain
IsPlain-append [] back p = (tt, p)
IsPlain-append (on_data part bytes ∷ front) back p = IsPlain-append front back p
IsPlain-append (on_header_line_complete ∷ front) back p = IsPlain-append front back p
IsPlain-append (on_message_complete m ∷ front) back p =
    let (f, b) = IsPlain-append front back p.1 in ((p.0, f), b)
