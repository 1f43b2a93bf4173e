-- ===== src/Fcgi/Environment.antt =====
-- modules/mod_fcgi/fcgi_proto.cc: FcgiEnvironment, which writes a request to its buffer.
pub mod Requests
pub mod Pairs
use tube.Common.{
  ℕ, ◌+◌, ◌/◌, ◌%◌, Bytes, Bool, true, false, List, [], ◌∷◌, ◌++◌, Option, none, some, ltb, leb,
  not, ◌==◌, ◌||◌, if◌then◌else◌, length,
}
use tube.Core.Buffer.{Buffer, new_buffer}
use tube.Fcgi.Proto.{
  Record, new_record, fcgi_begin_request, fcgi_params, fcgi_stdin, set_content_length,
  append_to_buffer, append_to_buffer_content_data, total_length,
}

pub record Environment : Type 0 where
  pub state : ℕ
  pub buffer : Buffer
  pub kv_buf : Bytes

-- append_int, of an unsigned int
pub append_int : Bytes → ℕ → Bytes
append_int buf v = buf ++ (v / 16777216) % 256 ∷ (v / 65536) % 256 ∷ (v / 256) % 256 ∷ v % 256 ∷ []

abbrev pub environment_size_limit : ℕ
environment_size_limit = 65535

-- One length in set_environment; the cast to unsigned int is written out.
pub append_length : Bytes → ℕ → Bytes
append_length buf n = if ltb 127 n then append_int buf (n % 4294967296) else buf ++ n ∷ []

pub set_environment : Environment → Bytes → Bytes → Bool × Environment
set_environment env name value =
    if not (env.state == 1)
    then (false, env)
    else if leb environment_size_limit (length env.kv_buf)
    then (false, env)
    else (
      true,
      record env {
        kv_buf =
            (append_length (append_length env.kv_buf (length name)) (length value) ++ name)
            ++ value;
      },
    )

module _ (junk : ℕ) where
  pub new_environment : Environment
  new_environment = record { state = 0; buffer = new_buffer junk; kv_buf = [] }

  -- A record with content, as begin_request and commit_environment write it.
  write_record : ℕ → Buffer → Bytes → Buffer
  write_record kind buffer content =
      let rec = set_content_length (new_record kind) (length content) in
      append_to_buffer_content_data junk rec (append_to_buffer junk rec buffer) content

  pub begin_request : Environment → Bool × Environment
  begin_request env = if not (env.state == 0) then (false, env) else (
    true,
    record env {
      state = env.state + 1;
      buffer = write_record fcgi_begin_request env.buffer (0 ∷ 1 ∷ 1 ∷ 0 ∷ 0 ∷ 0 ∷ 0 ∷ 0 ∷ []);
    },
  )

  pub commit_environment : Environment → Bool × Environment
  commit_environment env =
      if not (env.state == 1)
      then (false, env)
      else if length env.kv_buf == 0
      then (false, env)
      else (
        true,
        record env { buffer = write_record fcgi_params env.buffer env.kv_buf; kv_buf = [] },
      )

  done_environment : Buffer → Buffer
  done_environment buffer =
      append_to_buffer junk (set_content_length (new_record fcgi_params) 0) buffer

  -- `none` is -1.
  pub prepare_request : Environment → ℕ → Option ℕ × Environment
  prepare_request env size =
      let rec = set_content_length (new_record fcgi_stdin) size in
      if not (env.state == 1) then (none, env) else (
        some (total_length rec),
        record env { buffer = append_to_buffer junk rec (done_environment env.buffer) },
      )

pub done_request : Environment → Environment
done_request env = record env { state = 0 }
