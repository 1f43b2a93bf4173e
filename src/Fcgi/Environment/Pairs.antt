-- ===== src/Fcgi/Environment/Pairs.antt =====
-- The name-value pairs of set_environment, against the lengths that the FastCGI protocol describes:
-- one byte below 128, or four with the high bit of the first set.
mod Tests
use tube.Common.{
  ℕ, ◌+◌, ◌-◌, ◌*◌, ◌/◌, ◌%◌, ◌≤◌, ◌<◌, Bytes, Bool, true, false, List, [], ◌∷◌, ◌++◌, Option, none,
  some, ltb, lt→ltb, leb, not, ◌==◌, if◌then◌else◌, length, take, drop, take_front, drop_front,
  append_assoc, append-nil, length-append, ◌≡◌, refl, ap, sym, ◌∙◌, subst, arith, Bool-cases, inl,
  inr,
}
use tube.Fcgi.Environment.{
  Environment, append_int, append_length, environment_size_limit, set_environment,
}

-- A length and the bytes behind it.
abbrev pub read_length : Bytes → Option (ℕ × Bytes)
read_length [] = none
read_length (a ∷ t) = if ltb a 128 then some (a, t) else four a t
  where
    four : ℕ → Bytes → Option (ℕ × Bytes)
    four a (b ∷ c ∷ d ∷ u) = some ((a - 128) * 16777216 + b * 65536 + c * 256 + d, u)
    four a _ = none

abbrev pub split_pair : ℕ → Option (ℕ × Bytes) → Option (Bytes × Bytes × Bytes)
split_pair n none = none
split_pair n (some (m, t)) = some (take n t, take m (drop n t), drop m (drop n t))

-- A name, a value and the bytes behind them.
abbrev pub read_pair : Bytes → Option (Bytes × Bytes × Bytes)
read_pair bytes = after_name (read_length bytes)
  where
    after_name : Option (ℕ × Bytes) → Option (Bytes × Bytes × Bytes)
    after_name none = none
    after_name (some (n, t)) = split_pair n (read_length t)

-- What set_environment adds to kv_buf for a pair.
unfoldable pub pair_bytes : Bytes → Bytes → Bytes
pair_bytes name value =
    (append_length (append_length [] (length name)) (length value) ++ name) ++ value

append_length_assoc : (buf : Bytes) (n : ℕ) → append_length buf n ≡ buf ++ append_length [] n
unfolding append_length append_int
append_length_assoc buf n = elim (Bool-cases (ltb 127 n)) [
  | inl long ↦ rw long
  | inr short ↦ rw short
]

-- set_environment adds the bytes of the pair, in state 1 and below the limit on what is there, and
-- otherwise is refused and changes nothing.
pub set_environment_lem :
    (env : Environment) (name value : Bytes)
    → set_environment env name value ≡ (
        if env.state == 1
        then (if ltb (length env.kv_buf) environment_size_limit
            then (true, record env { kv_buf = env.kv_buf ++ pair_bytes name value })
            else (false, env))
        else (false, env))
unfolding set_environment pair_bytes
set_environment_lem env name value = elim (Bool-cases (env.state == 1)) [
  | inr other ↦ rw other
  | inl started ↦ rw started (elim (Bool-cases (ltb (length env.kv_buf) environment_size_limit)) [
    | inl room ↦ rw (room, not_full room) (ap (λ kv. (true, record env { kv_buf = kv })) grown)
    | inr full ↦ rw (full, is_full full)
  ])
]
  where
    not_full :
        ltb (length env.kv_buf) environment_size_limit ≡ true
        → leb environment_size_limit (length env.kv_buf) ≡ false
    not_full room = ground arith

    is_full :
        ltb (length env.kv_buf) environment_size_limit ≡ false
        → leb environment_size_limit (length env.kv_buf) ≡ true
    is_full full = ground arith

    lengths : Bytes → Bytes
    lengths buf = append_length (append_length buf (length name)) (length value)

    lengths_assoc : lengths env.kv_buf ≡ env.kv_buf ++ lengths []
    lengths_assoc =
        append_length_assoc (append_length env.kv_buf (length name)) (length value)
        ∙ ap (λ t. t ++ append_length [] (length value))
            (append_length_assoc env.kv_buf (length name))
        ∙ append_assoc env.kv_buf (append_length [] (length name)) (append_length [] (length value))
        ∙ ap (λ t. env.kv_buf ++ t)
            (sym (append_length_assoc (append_length [] (length name)) (length value)))

    grown : (lengths env.kv_buf ++ name) ++ value ≡ env.kv_buf ++ ((lengths [] ++ name) ++ value)
    grown =
        ap (λ t. (t ++ name) ++ value) lengths_assoc
        ∙ ap (λ t. t ++ value) (append_assoc env.kv_buf (lengths []) name)
        ∙ append_assoc env.kv_buf (lengths [] ++ name) value

-- The pairs of a request, set one after the other.
unfoldable pub set_pairs : List (Bytes × Bytes) → Environment → Environment
set_pairs [] env = env
set_pairs ((name, value) ∷ pairs) env = set_pairs pairs (set_environment env name value).1

pub set_environment-kept :
    (env : Environment) (name value : Bytes)
    → ((set_environment env name value).1.state ≡ env.state)
      × ((set_environment env name value).1.buffer ≡ env.buffer)
set_environment-kept env name value = rw (set_environment_lem env name value) (ground arith)

pub set_pairs-kept :
    (pairs : List (Bytes × Bytes)) (env : Environment)
    → ((set_pairs pairs env).state ≡ env.state) × ((set_pairs pairs env).buffer ≡ env.buffer)
unfolding set_pairs
set_pairs-kept [] env = (refl, refl)
set_pairs-kept ((name, value) ∷ pairs) env =
    let one = set_environment-kept env name value in
    let rest = set_pairs-kept pairs (set_environment env name value).1 in
    (rest.0 ∙ one.0, rest.1 ∙ one.1)

read_pair-pair_bytes :
    (name value more : Bytes)
    → length name ≤ 127
    → length value ≤ 127
    → read_pair (pair_bytes name value ++ more) ≡ some (name, value, more)
unfolding pair_bytes append_length
read_pair-pair_bytes name value more short_name short_value =
    rw (one_byte name short_name, one_byte value short_value)
      (rw (below name short_name) (rw (below value short_value) (ap some split)))
  where
    one_byte : (s : Bytes) → length s ≤ 127 → ltb 127 (length s) ≡ false
    one_byte s h = ground arith

    below : (s : Bytes) → length s ≤ 127 → ltb (length s) 128 ≡ true
    below s h = ground arith

    all : Bytes
    all = (name ++ value) ++ more

    front : drop (length name) all ≡ value ++ more
    front = ap (drop (length name)) (append_assoc name value more) ∙ drop_front name (value ++ more)

    split :
        ◌≡◌ {A = Bytes × Bytes × Bytes}
          (
            take (length name) all,
            take (length value) (drop (length name) all),
            drop (length value) (drop (length name) all),
          )
          (name, value, more)
    split = rw (
      front,
      take_front value more,
      drop_front value more,
      append_assoc name value more,
      take_front name (value ++ more),
    )

-- Once a request is begun, and below the limit on what is there already: set_environment adds a pair
-- of a name and a value of at most 127 bytes each behind the pairs that are there, and it is read back
-- as the protocol says, whatever comes after it.
pub read_pair-set_environment :
    (env : Environment) (name value more : Bytes)
    → env.state ≡ 1
    → length env.kv_buf < environment_size_limit
    → length name ≤ 127
    → length value ≤ 127
    → let (added, next) = set_environment env name value in
      (added ≡ true)
      × (take (length env.kv_buf) next.kv_buf ≡ env.kv_buf)
      × (read_pair (drop (length env.kv_buf) next.kv_buf ++ more) ≡ some (name, value, more))
read_pair-set_environment env name value more begun room short_name short_value =
    rw (set_environment_lem env name value) (
      rw (begun, lt→ltb _ _ room)
        (
          refl,
          take_front env.kv_buf (pair_bytes name value),
          ap (λ t. read_pair (t ++ more)) (drop_front env.kv_buf (pair_bytes name value))
              ∙ read_pair-pair_bytes name value more short_name short_value,
        ))

-- The bytes of some pairs, one behind the other.
abbrev pub pairs_bytes : List (Bytes × Bytes) → Bytes
pairs_bytes [] = []
pairs_bytes ((name, value) ∷ pairs) = pair_bytes name value ++ pairs_bytes pairs

append-pos : (buf : Bytes) (b : ℕ) (bytes : Bytes) → 0 < length (buf ++ b ∷ bytes)
append-pos buf b bytes = omega (arith, length-append buf (b ∷ bytes))

append_length-pos : (buf : Bytes) (n : ℕ) → 0 < length (append_length buf n)
unfolding append_length append_int
append_length-pos buf n = elim (Bool-cases (ltb 127 n)) [
  | inl long ↦ rw long (append-pos buf _ _)
  | inr short ↦ rw short (append-pos buf n [])
]

pair_bytes-pos : (name value : Bytes) → 0 < length (pair_bytes name value)
unfolding pair_bytes
pair_bytes-pos name value =
    let lengths = append_length (append_length [] (length name)) (length value) in
    omega (
      arith,
      append_length-pos (append_length [] (length name)) (length value),
      length-append lengths name,
      length-append (lengths ++ name) value,
    )

-- While they are within the limit, all of them come to stand in kv_buf.
pub set_pairs-bytes :
    (pairs : List (Bytes × Bytes)) (env : Environment)
    → env.state ≡ 1
    → length env.kv_buf + length (pairs_bytes pairs) ≤ environment_size_limit
    → (set_pairs pairs env).kv_buf ≡ env.kv_buf ++ pairs_bytes pairs
unfolding set_pairs
set_pairs-bytes [] env begun fits = sym (append-nil env.kv_buf)
set_pairs-bytes ((name, value) ∷ pairs) env begun fits =
    let here = length-append (pair_bytes name value) (pairs_bytes pairs) in
    let room : ltb (length env.kv_buf) environment_size_limit ≡ true =
      lt→ltb _ _ (omega (arith, fits, here, pair_bytes-pos name value)) in
    let one : (set_environment env name value).1
        ≡ record env { kv_buf = env.kv_buf ++ pair_bytes name value } =
      rw (set_environment_lem env name value) (rw (begun, room) refl) in
    ap (λ e. (set_pairs pairs e).kv_buf) one
    ∙ set_pairs-bytes pairs (record env { kv_buf = env.kv_buf ++ pair_bytes name value }) begun
        (omega (arith, fits, here, length-append env.kv_buf (pair_bytes name value)))
    ∙ append_assoc env.kv_buf (pair_bytes name value) (pairs_bytes pairs)

-- A name of more than 127 bytes, and fewer than 2 ^ 23, is read as the empty name: its length is
-- written without the high bit that marks four bytes.
pub read_pair_long :
    (name value more : Bytes)
    → 127 < length name
    → length name < 8388608
    → (v rest : Bytes) × (read_pair (pair_bytes name value ++ more) ≡ some ([], v, rest))
unfolding pair_bytes append_length append_int
read_pair_long name value more long fits =
    rw (lt→ltb _ _ long, first_zero)
      (elim (Bool-cases (ltb 127 (length value))) [
        | inl long_value ↦ rw (long_value, second_small) (_, _, refl)
        | inr short_value ↦ rw (short_value, second_small) (_, _, refl)
      ])
  where
    first_zero : ((length name % 4294967296) / 16777216) % 256 ≡ 0
    first_zero = omega arith

    second_small : ltb (((length name % 4294967296) / 65536) % 256) 128 ≡ true
    second_small = lt→ltb _ _ (omega arith)
