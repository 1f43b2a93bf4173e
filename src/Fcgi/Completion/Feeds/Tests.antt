-- ===== src/Fcgi/Completion/Feeds/Tests.antt =====
-- A parser whose headers end at the first line break, and a record behind which another one begins.
use tube.Common.{
  ℕ, suc, ◌+◌, ◌≤◌, Bytes, codes, Bool, true, false, [], ◌∷◌, ◌++◌, ◌==◌, if◌then◌else◌, length,
  drop, zero_plus, suc_plus, sym, ◌∙◌, ◌≡◌, refl, ap, arith, Bool-cases, inl, inr,
}
use tube.Common.Int.{pos}
use tube.Core.Buffer.{new_buffer, append}
use tube.Core.Buffer.Repr.{Holds, new_buffer-Holds}
use tube.Core.Buffer.Append.{append-Holds}
use tube.Fcgi.Proto.{Record, header_bytes}
use tube.Fcgi.Proto.Records.{IsRecord}
use tube.Fcgi.Completion.{ContentParser, Continuation, read_fcgi}
use tube.Fcgi.Completion.Parse.{run_parser, parsed}
use tube.Fcgi.Completion.Feeds.{run_parser-Feeds}
use tube.Fcgi.Completion.Feeds.Pages.{IsIncremental}

-- The state says whether the line break was seen.
abbrev read_header : Bytes → Bool → ℕ × Bool
read_header [] p = (0, p)
read_header (b ∷ bytes) true = (0, true)
read_header (b ∷ bytes) false =
    let (n, p) = read_header bytes false in if b == 10 then (1, true) else (suc n, p)

abbrev header_parser : ContentParser Bool
header_parser = record {
  parse = read_header;
  is_done = λ p. p;
  is_streaming = λ p. false;
  has_error = λ p. false;
}

read_header_within : (bytes : Bytes) (p : Bool) → (read_header bytes p).0 ≤ length bytes
read_header_within [] p = omega arith
read_header_within (b ∷ bytes) true = omega arith
read_header_within (b ∷ bytes) false = elim (Bool-cases (b == 10)) [
  | inl ends ↦ rw ends (omega arith)
  | inr other ↦ rw other (omega (arith, read_header_within bytes false))
]

read_header_done : (bytes : Bytes) → read_header bytes true ≡ (0, true)
read_header_done [] = refl
read_header_done (b ∷ bytes) = refl

read_header_ended :
    (front back : Bytes) (p : Bool)
    → (read_header front p).1 ≡ true
    → read_header (front ++ back) p ≡ read_header front p
read_header_ended [] back true = λ done. read_header_done back
read_header_ended [] back false = λ done. cc done
read_header_ended (b ∷ front) back true = λ done. refl
read_header_ended (b ∷ front) back false = elim (Bool-cases (b == 10)) [
  | inl ends ↦ rw ends (λ done. refl)
  | inr other ↦ rw other (λ done. rw (read_header_ended front back false done) refl)
]

read_header_goes_on :
    (front back : Bytes) (p : Bool)
    → (read_header front p).1 ≡ false
    → ((read_header front p).0 ≡ length front)
      × (read_header (front ++ back) p ≡ (
        length front + (read_header back (read_header front p).1).0,
        (read_header back (read_header front p).1).1,
      ))
read_header_goes_on [] back true = λ open_still. cc open_still
read_header_goes_on [] back false =
    λ open_still. (refl, ap (λ n. (n, (read_header back false).1)) (sym (zero_plus _)))
read_header_goes_on (b ∷ front) back true = λ open_still. cc open_still
read_header_goes_on (b ∷ front) back false = elim (Bool-cases (b == 10)) [
  | inl ends ↦ rw ends (λ open_still. cc open_still)
  | inr other ↦ rw other (λ open_still.
      let (n, e) = read_header_goes_on front back false open_still in
      (
        ap suc n,
        ap (λ r. (suc r.0, r.1)) e
            ∙ ap (λ k. (k, (read_header back (read_header front false).1).1)) (sym (suc_plus _ _)),
      ))
]

header_parser-IsIncremental : IsIncremental header_parser
header_parser-IsIncremental = record {
  nothing = λ p. refl;
  within = read_header_within;
  fails = λ front back p e. e;
  ended = read_header_ended;
  goes_on = λ front back p open_still fine. read_header_goes_on front back p open_still;
}

abbrev stdout_record : Record
stdout_record = record {
  version = 1;
  kind = 6;
  request_id = 1;
  content_length = 6;
  padding_length = 2;
  reserved = 0;
}

stdout_record-IsRecord : IsRecord stdout_record
stdout_record-IsRecord = record {
  version_byte = omega arith;
  kind_byte = omega arith;
  request_short = omega arith;
  content_short = omega arith;
  padding_byte = omega arith;
  reserved_byte = omega arith;
}

abbrev received : Bytes
received = header_bytes stdout_record ++ (codes "a\nbody" ++ (codes "--" ++ codes "next"))

abbrev reading : Continuation Bool
reading = record {
  sock_fd = 9;
  need_reconnect = false;
  status = read_fcgi;
  task_buffer = append 0 (new_buffer 0) received;
  task_len = pos 0;
  content_parser = false;
  output_buffer = new_buffer 0;
  last_active = 0;
}

header_first : parsed 0 header_parser (codes "a\nbody") false ≡ (2, true)
unfolding parsed
header_first = refl

run_parser-Feeds_example :
    let (n, p) = parsed 0 header_parser (codes "a\nbody") false in
    (c : Continuation Bool) × (run_parser 0 header_parser reading ≡ (true, c))
    × Holds c.task_buffer (codes "next")
    × Holds c.output_buffer ([] ++ drop n (codes "a\nbody"))
    × (c.content_parser ≡ p)
    × (c.status ≡ read_fcgi)
    × (c.task_len ≡ pos 0)
run_parser-Feeds_example =
    run_parser-Feeds 0 header_parser header_parser-IsIncremental stdout_record (codes "a\nbody")
      (codes "--") (codes "next") [] reading stdout_record-IsRecord (inl refl) refl refl
      (append-Holds 0 received (new_buffer-Holds 0)) (new_buffer-Holds 0) refl
