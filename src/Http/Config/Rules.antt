-- ===== src/Http/Config/Rules.antt =====
-- Which rule a request gets, and what is left of the request.
mod Tests
use tube.Common.{
  Bytes, bytes_eq, bytes_eq→eq, bytes_eq_refl, Bool, true, false, List, [], ◌∷◌, ◌++◌, Option, none,
  some, ltb, not, if◌then◌else◌, length, length-append, take, drop, take_front, drop_front,
  take-append-drop, All, ◌≡◌, refl, ap, sym, ◌∙◌, subst, arith, Bool-cases, inl, inr, ◌↔◌, ◌≤◌,
}
use tube.Http.Config.{
  Request, Matcher, prefix, regex, always, match_prefix, match, Rule, match_rules,
}

-- A prefix rule takes a path that begins with the prefix, and takes the prefix off the path and as
-- many bytes off the uri.
pub match_prefix_front :
    (p rest uri : Bytes)
    → match_prefix p (record { path = p ++ rest; uri = uri })
      ≡ (true, record { path = rest; uri = drop (length p) uri })
unfolding match_prefix
match_prefix_front p rest uri =
    rw (long_enough, take_front p rest, bytes_eq_refl p, drop_front p rest)
  where
    long_enough : ltb (length (p ++ rest)) (length p) ≡ false
    long_enough = ground (arith, length-append p rest)

-- A prefix rule that takes a request has taken the prefix off its path; one that does not leaves the
-- request as it was.
pub match_prefix_lem :
    (p : Bytes) (req : Request)
    → ((match_prefix p req).0 ≡ true → p ++ (match_prefix p req).1.path ≡ req.path)
      × ((match_prefix p req).0 ≡ false → (match_prefix p req).1 ≡ req)
unfolding match_prefix
match_prefix_lem p req = elim (Bool-cases (ltb (length req.path) (length p))) [
  | inl short ↦ rw short ((λ e. absurd (cc e)), λ e. refl)
  | inr long ↦ rw long (elim (Bool-cases (bytes_eq (take (length p) req.path) p)) [
    | inl same ↦ rw same (
      (λ e.
          ap (λ t. t ++ drop (length p) req.path) (sym (bytes_eq→eq _ _ same))
          ∙ take-append-drop (length p) req.path),
      λ e. absurd (cc e),
    )
    | inr other ↦ rw other ((λ e. absurd (cc e)), λ e. refl)
  ])
]

match_kept : (m : Matcher) (req : Request) → (match m req).0 ≡ false → (match m req).1 ≡ req
unfolding match
match_kept (prefix p) req e = (match_prefix_lem p req).1 e
match_kept (regex test) req e = refl
match_kept always req e = refl

module _ {H : Type 0} where
  -- The rules are tried in order: when none before it takes the request as it came, and a rule does,
  -- that rule is the answer, with the request as its matcher leaves it; when none takes it, there is
  -- no answer and the request is as it came.
  pub match_rules-first :
      (before : List (Rule H)) (req : Request)
      → All (λ r. (match r.matcher req).0 ≡ false) before
      → ((r : Rule H) (after : List (Rule H))
          → (match r.matcher req).0 ≡ true
          → match_rules (before ++ r ∷ after) req ≡ (some r, (match r.matcher req).1))
        × (match_rules before req ≡ (none, req))
  unfolding match_rules
  match_rules-first [] req none_match = (λ r after taken. rw taken, refl)
  match_rules-first (b ∷ before) req none_match =
      let rest = match_rules-first before req none_match.1 in
      let kept = match_kept b.matcher req none_match.0 in
      (
        λ r after taken. rw none_match.0 (rw kept (rest.0 r after taken)),
        rw none_match.0 (rw kept rest.1),
      )
