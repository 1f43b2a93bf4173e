-- ===== src/Http/Connection/Pages/Tests.antt =====
-- A parser of lines: a line break ends a request, and an exclamation mark one with a body of 4 bytes.
use tube.Common.{
  ℕ, ◌+◌, ◌≤◌, Bytes, codes, true, false, List, [], ◌∷◌, ◌++◌, Option, none, some, ◌==◌,
  if◌then◌else◌, length, ◌≡◌, refl, ap, subst, arith, Bool-cases, inl, inr,
}
use tube.Core.Buffer.{Buffer, new_buffer, append}
use tube.Core.Buffer.Repr.{Holds, new_buffer-Holds}
use tube.Core.Buffer.Append.{append-Holds}
use tube.Http.Connection.{
  Message, path, Callback, on_data, on_message_complete, HttpParser, HttpRequestData, Requests,
  HttpConnection, do_parse, call_all, awaits_body,
}
use tube.Http.Connection.Callbacks.{Same, same, last_message, IsPlain}
use tube.Http.Connection.Pages.{leaves_body, IsIncremental, do_parse-pages}

abbrev get_message : ℕ → Message
get_message n = record {
  method = 4;
  content_length = n;
  transfer_encoding = 1;
  version_major = 1;
  version_minor = 0;
  keep_alive = false;
}

abbrev read_lines : Bytes → ℕ × List Callback × Unit {0}
read_lines [] = (0, [], tt)
read_lines (b ∷ bytes) =
    let (n, cbs, p) = read_lines bytes in
    if b == 33
    then (1, on_message_complete (get_message 4) ∷ [], tt)
    else if b == 10
    then (1 + n, on_message_complete (get_message 0) ∷ cbs, tt)
    else (1 + n, on_data path (b ∷ []) ∷ cbs, tt)

abbrev line_parser : HttpParser (Unit {0})
line_parser = record { execute = λ bytes _. read_lines bytes; has_error = λ _. false }

read_lines_within : (bytes : Bytes) → (read_lines bytes).0 ≤ length bytes
read_lines_within [] = omega arith
read_lines_within (b ∷ bytes) = elim (Bool-cases (b == 33)) [
  | inl marked ↦ rw marked (omega arith)
  | inr other ↦ rw other (elim (Bool-cases (b == 10)) [
    | inl ends ↦ rw ends (omega (arith, read_lines_within bytes))
    | inr letter ↦ rw letter (omega (arith, read_lines_within bytes))
  ])
]

read_lines_ended :
    (front back : Bytes) (last : Option Message)
    → leaves_body last ≡ false
    → leaves_body (last_message (read_lines front).1 last) ≡ true
    → read_lines (front ++ back) ≡ read_lines front
unfolding last_message
read_lines_ended [] back last stays = λ leaves. cc (stays, leaves)
read_lines_ended (b ∷ front) back last stays = elim (Bool-cases (b == 33)) [
  | inl marked ↦ rw marked (λ leaves. refl)
  | inr other ↦ rw other (elim (Bool-cases (b == 10)) [
    | inl ends ↦
        rw ends (λ leaves. rw (read_lines_ended front back (some (get_message 0)) refl leaves) refl)
    | inr letter ↦ rw letter (λ leaves. rw (read_lines_ended front back last stays leaves) refl)
  ])
]

read_lines_goes_on :
    (front back : Bytes) (last : Option Message)
    → leaves_body (last_message (read_lines front).1 last) ≡ false
    → ((read_lines (front ++ back)).0 ≡ (read_lines front).0 + (read_lines back).0)
      × ((read_lines (front ++ back)).1 ≡ (read_lines front).1 ++ (read_lines back).1)
unfolding last_message
read_lines_goes_on [] back last = λ stays. (omega arith, refl)
read_lines_goes_on (b ∷ front) back last = elim (Bool-cases (b == 33)) [
  | inl marked ↦ rw marked (λ stays. cc stays)
  | inr other ↦ rw other (elim (Bool-cases (b == 10)) [
    | inl ends ↦ rw ends (λ stays.
        let (n, cbs) = read_lines_goes_on front back (some (get_message 0)) stays in
        (omega (arith, n), ap (λ l. on_message_complete (get_message 0) ∷ l) cbs))
    | inr letter ↦ rw letter (λ stays.
        let (n, cbs) = read_lines_goes_on front back last stays in
        (omega (arith, n), ap (λ l. on_data path (b ∷ []) ∷ l) cbs))
  ])
]

line_parser-IsIncremental : IsIncremental line_parser
line_parser-IsIncremental = record {
  nothing = λ p. (refl, same, refl);
  within = λ bytes p. read_lines_within bytes;
  fails = λ front back p e. e;
  ended = λ front back p ok leaves. read_lines_ended front back none refl leaves;
  goes_on = λ front back p ok stays whole.
      let (n, cbs) = read_lines_goes_on front back none stays in
      (n, subst (λ l. Same (read_lines (front ++ back)).1 l) cbs same, refl);
}

abbrev two_requests : Buffer
two_requests = append 7 (new_buffer 7) (codes "/a\n/b!body")

abbrev new_request : HttpRequestData (Unit {0})
new_request = record {
  headers = [];
  path = [];
  uri = [];
  complete_uri = [];
  query_string = [];
  fragment = [];
  message = get_message 0;
  url_rule = none;
}

abbrev new_requests : Requests (Unit {0})
new_requests = record {
  complete = [];
  tmp_request = new_request;
  last_header_key = [];
  last_header_value = [];
}

abbrev reading : HttpConnection (Unit {0}) (Unit {0})
reading = record {
  input = record { buffer = two_requests; bytes_should_skip = 0 };
  parser = tt;
  requests = new_requests;
}

two_requests-Holds : Holds two_requests (codes "/a\n/b!body")
two_requests-Holds = append-Holds 7 (codes "/a\n/b!body") (new_buffer-Holds 7)

two_requests-IsPlain : IsPlain (read_lines (codes "/a\n/b!body")).1
unfolding IsPlain
two_requests-IsPlain = (refl, (refl, tt))

awaits_nothing : awaits_body {H = Unit {0}} [] ≡ false
unfolding awaits_body
awaits_nothing = refl

do_parse-pages_example :
    let d = do_parse [] line_parser reading in
    (d.0 ≡ true)
    × (d.1.requests ≡ call_all [] (read_lines (codes "/a\n/b!body")).1 new_requests)
    × (d.1.parser ≡ tt)
    × Holds d.1.input.buffer (codes "body")
do_parse-pages_example =
    do_parse-pages [] line_parser line_parser-IsIncremental reading (codes "/a\n/b!body")
      two_requests-Holds refl awaits_nothing refl two_requests-IsPlain
