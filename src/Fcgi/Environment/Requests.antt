-- ===== src/Fcgi/Environment/Requests.antt =====
-- The bytes of a whole request in the environment's buffer, and the order of the calls.
mod Tests
use tube.Common.{
  ℕ, suc, ◌*◌, ◌/◌, ◌+◌, ◌-◌, ◌%◌, ◌<◌, ◌≤◌, Bytes, Bool, true, false, List, [], ◌∷◌, ◌++◌, Option,
  none, some, not, ◌==◌, ==_iff, if◌then◌else◌, length, replicate, append_assoc, append-nil, ◌≡◌,
  ◌≢◌, refl, ap, sym, ◌∙◌, subst, arith, Bool-cases, inl, inr,
}
use tube.Core.Buffer.{Buffer, new_buffer}
use tube.Core.Buffer.Repr.{Holds, new_buffer-Holds}
use tube.Core.Buffer.Append.{append-Holds}
use tube.Fcgi.Proto.{
  Record, new_record, fcgi_begin_request, fcgi_params, fcgi_stdin, header_bytes, set_content_length,
  total_length, append_to_buffer, append_to_buffer_content_data,
}
use tube.Fcgi.Proto.Records.{padded, append_to_buffer-Holds, append_record-Holds}
use tube.Fcgi.Environment.{
  Environment, new_environment, write_record, begin_request, commit_environment, done_environment,
  prepare_request, environment_size_limit,
}
use tube.Fcgi.Environment.Pairs.{set_pairs, set_pairs-kept, pairs_bytes, set_pairs-bytes}

-- A record of a kind with its content, on the wire.
pub record_bytes : ℕ → Bytes → Bytes
record_bytes kind content =
    let rec = set_content_length (new_record kind) (length content) in
    header_bytes rec ++ padded rec content

-- The eight bytes of FCGI_BeginRequestBody: the responder's role, and keep the connection.
abbrev pub begin_body : Bytes
begin_body = 0 ∷ 1 ∷ 1 ∷ 0 ∷ 0 ∷ 0 ∷ 0 ∷ 0 ∷ []

abbrev pub stdin_header : ℕ → Record
stdin_header size = set_content_length (new_record fcgi_stdin) size

module _ (junk : ℕ) where
  write_record-Holds :
      (kind : ℕ) (content : Bytes) {b : Buffer} {body : Bytes}
      → Holds b body
      → Holds (write_record junk kind b content) (body ++ record_bytes kind content)
  unfolding write_record record_bytes
  write_record-Holds kind content h = append_record-Holds junk _ content h

  -- Beginning a request in state 0 writes the begin record and goes to state 1.
  begin_request-Holds :
      (env : Environment) (body : Bytes)
      → env.state ≡ 0
      → Holds env.buffer body
      → ((begin_request junk env).0 ≡ true)
        × ((begin_request junk env).1.state ≡ 1)
        × ((begin_request junk env).1.kv_buf ≡ env.kv_buf)
        × Holds
            (begin_request junk env).1.buffer
            (body ++ record_bytes fcgi_begin_request begin_body)
  unfolding begin_request
  begin_request-Holds env body e h =
      rw e (refl, refl, refl, write_record-Holds fcgi_begin_request begin_body h)

  commit_environment-Holds :
      (env : Environment) (body : Bytes)
      → env.state ≡ 1
      → (length env.kv_buf == 0) ≡ false
      → Holds env.buffer body
      → ((commit_environment junk env).0 ≡ true)
        × ((commit_environment junk env).1.state ≡ 1)
        × ((commit_environment junk env).1.kv_buf ≡ [])
        × Holds (commit_environment junk env).1.buffer (body ++ record_bytes fcgi_params env.kv_buf)
  unfolding commit_environment
  commit_environment-Holds env body e some_kv h =
      rw (e, some_kv) (refl, refl, refl, write_record-Holds fcgi_params env.kv_buf h)

  prepare_request-Holds :
      (env : Environment) (body : Bytes) (size : ℕ)
      → env.state ≡ 1
      → Holds env.buffer body
      → ((prepare_request junk env size).0 ≡ some (total_length (stdin_header size)))
        × Holds
            (prepare_request junk env size).1.buffer
            (body ++ (record_bytes fcgi_params [] ++ header_bytes (stdin_header size)))
  unfolding prepare_request done_environment record_bytes set_content_length
  prepare_request-Holds env body size e h = rw e (
    refl,
    subst (Holds _)
        (append_assoc body (header_bytes (set_content_length (new_record fcgi_params) 0))
            (header_bytes (stdin_header size))
          ∙ ap (λ t. body ++ (t ++ header_bytes (stdin_header size))) (sym (append-nil _)))
        (append_to_buffer-Holds junk (stdin_header size)
          (append_to_buffer-Holds junk (set_content_length (new_record fcgi_params) 0) h)),
  )

  same_length : (size : ℕ) → size < 65536 → (stdin_header size).content_length ≡ size
  unfolding set_content_length
  same_length size small = omega arith

  padded_length : (size : ℕ) → size < 65536 → total_length (stdin_header size) ≡ (size + 3) / 4 * 4
  unfolding set_content_length total_length
  padded_length size small = ground arith

  -- The environment of a request with these pairs, before they are committed.
  pub filled : List (Bytes × Bytes) → Environment
  filled pairs = set_pairs pairs (begin_request junk (new_environment junk)).1

  pub ready : List (Bytes × Bytes) → Environment
  ready pairs = (commit_environment junk (filled pairs)).1

  -- A request that is begun on a new environment, given some pairs of at most 65535 bytes in all, one
  -- at least, committed, and prepared for fewer than 65536 bytes of input: the buffer holds the begin record,
  -- one record with the bytes of the pairs in their order, an empty one that ends them, and the header
  -- of the standard input with the length of the input; the length that is answered is that of the
  -- input with its padding to a multiple of four.
  pub request-Holds :
      (pairs : List (Bytes × Bytes)) (size : ℕ)
      → 0 < length (pairs_bytes pairs)
      → length (pairs_bytes pairs) ≤ environment_size_limit
      → size < 65536
      → ((prepare_request junk (ready pairs) size).0 ≡ some ((size + 3) / 4 * 4))
        × ((stdin_header size).content_length ≡ size)
        × Holds (prepare_request junk (ready pairs) size).1.buffer (
            (record_bytes fcgi_begin_request begin_body
              ++ record_bytes fcgi_params (pairs_bytes pairs))
            ++ (record_bytes fcgi_params [] ++ header_bytes (stdin_header size)))
  request-Holds pairs size some_pair fits small =
      unfold ready in
      let (answered, holds) =
        prepare_request-Holds (commit_environment junk (filled pairs)).1 _ size committed.1
          committed.3 in
      (
        answered ∙ ap some (padded_length size small),
        same_length size small,
        subst
            (λ kv.
              Holds (prepare_request junk (commit_environment junk (filled pairs)).1 size).1.buffer
                ((record_bytes fcgi_begin_request begin_body ++ record_bytes fcgi_params kv)
                  ++ (record_bytes fcgi_params [] ++ header_bytes (stdin_header size))))
            all_pairs holds,
      )
    where
      begun_state : (new_environment junk).state ≡ 0
      begun_state = unfold new_environment in refl

      empty : Holds (new_environment junk).buffer []
      empty = unfold new_environment in new_buffer-Holds junk

      begun :
          ((begin_request junk (new_environment junk)).1.state ≡ 1)
          × Holds
              (begin_request junk (new_environment junk)).1.buffer
              (record_bytes fcgi_begin_request begin_body)
      begun = let r = begin_request-Holds (new_environment junk) [] begun_state empty in (r.1, r.3)

      no_pairs : (begin_request junk (new_environment junk)).1.kv_buf ≡ []
      no_pairs =
          (begin_request-Holds (new_environment junk) [] begun_state empty).2
          ∙ (unfold new_environment in refl)

      all_pairs : (filled pairs).kv_buf ≡ pairs_bytes pairs
      all_pairs =
          unfold filled in
          set_pairs-bytes pairs (begin_request junk (new_environment junk)).1 begun.0
            (omega (arith, fits, ap length no_pairs))
          ∙ ap (λ t. t ++ pairs_bytes pairs) no_pairs

      some_kv : (length (filled pairs).kv_buf == 0) ≡ false
      some_kv = ground (arith, some_pair, ap length all_pairs)

      set_up :
          ((filled pairs).state ≡ 1)
          × Holds (filled pairs).buffer (record_bytes fcgi_begin_request begin_body)
      set_up =
          let kept = set_pairs-kept pairs (begin_request junk (new_environment junk)).1 in
          unfold filled in
          (
            kept.0 ∙ begun.0,
            subst (λ b. Holds b (record_bytes fcgi_begin_request begin_body)) (sym kept.1) begun.1,
          )

      committed :
          ((commit_environment junk (filled pairs)).0 ≡ true)
          × ((commit_environment junk (filled pairs)).1.state ≡ 1)
          × ((commit_environment junk (filled pairs)).1.kv_buf ≡ [])
          × Holds (commit_environment junk (filled pairs)).1.buffer (
              record_bytes fcgi_begin_request begin_body
              ++ record_bytes fcgi_params (filled pairs).kv_buf)
      committed = commit_environment-Holds (filled pairs) _ set_up.0 some_kv set_up.1
