-- ===== src/Fcgi/Headers/Lines.antt =====
-- A response's header lines, each pushed in pieces, against the lines themselves.
mod Tests
use tube.Common.{
  Bytes, codes, bytes_eq, Bool, true, false, List, [], ◌∷◌, ◌++◌, append_assoc, append-nil, ◌&&◌,
  ◌||◌, if◌then◌else◌, ◌≡◌, refl, ap, sym, ◌∙◌, subst, arith, Bool-cases, inl, inr,
}
use tube.Fcgi.Headers.{Parser, init, push_name, push_value, streams, push_header}

-- A line as the generated parser sees it: the pieces of its name and of its value.
abbrev pub Line : Type 0
Line = List Bytes × List Bytes

abbrev pub joined : List Bytes → Bytes
joined [] = []
joined (s ∷ ss) = s ++ joined ss

abbrev pub whole : Line → Bytes × Bytes
whole line = (joined line.0, joined line.1)

pub push_names : List Bytes → Parser → Parser
push_names [] p = p
push_names (s ∷ ss) p = push_names ss (push_name s p)

pub push_values : List Bytes → Parser → Parser
push_values [] p = p
push_values (s ∷ ss) p = push_values ss (push_value s p)

pub push_lines : List Line → Parser → Parser
push_lines [] p = p
push_lines (l ∷ ls) p = push_lines ls (push_header (push_values l.1 (push_names l.0 p)))

abbrev pub is_status : Bytes × Bytes → Bool
is_status h = bytes_eq h.0 (codes "Status")

-- The lines that are kept as headers.
abbrev pub header_lines : List Line → List (Bytes × Bytes)
header_lines [] = []
header_lines (l ∷ ls) = if is_status (whole l) then header_lines ls else whole l ∷ header_lines ls

abbrev pub last_status : Bytes → List Line → Bytes
last_status s [] = s
last_status s (l ∷ ls) = last_status (if is_status (whole l) then joined l.1 else s) ls

abbrev pub any_streams : List (Bytes × Bytes) → Bool
any_streams [] = false
any_streams (h ∷ hs) = if streams h then true else any_streams hs

push_names_lem :
    (ss : List Bytes) (p : Parser)
    → push_names ss p ≡ record p { header_line = (p.header_line.0 ++ joined ss, p.header_line.1) }
unfolding push_names push_name
push_names_lem [] p =
    ap (λ t. record p { header_line = (t, p.header_line.1) }) (sym (append-nil p.header_line.0))
push_names_lem (s ∷ ss) p =
    push_names_lem ss (push_name s p)
    ∙ ap (λ t. record p { header_line = (t, p.header_line.1) })
        (append_assoc p.header_line.0 s (joined ss))

push_values_lem :
    (ss : List Bytes) (p : Parser)
    → push_values ss p ≡ record p { header_line = (p.header_line.0, p.header_line.1 ++ joined ss) }
unfolding push_values push_value
push_values_lem [] p =
    ap (λ t. record p { header_line = (p.header_line.0, t) }) (sym (append-nil p.header_line.1))
push_values_lem (s ∷ ss) p =
    push_values_lem ss (push_value s p)
    ∙ ap (λ t. record p { header_line = (p.header_line.0, t) })
        (append_assoc p.header_line.1 s (joined ss))

-- One line, from a parser between two lines.
line_lem :
    (l : Line) (p : Parser)
    → p.header_line ≡ ([], [])
    → push_header (push_values l.1 (push_names l.0 p))
      ≡ push_header (record p { header_line = whole l })
line_lem l p e =
    ap push_header (
      push_values_lem l.1 (push_names l.0 p)
      ∙ ap with_value (push_names_lem l.0 p)
      ∙ ap with_line e)
  where
    with_value : Parser → Parser
    with_value q = record q { header_line = (q.header_line.0, q.header_line.1 ++ joined l.1) }

    with_line : Bytes × Bytes → Parser
    with_line h = record p { header_line = (h.0 ++ joined l.0, h.1 ++ joined l.1) }

-- What lines leave of a parser p in q: the lines that are not "Status" as headers, in order; the value
-- of the last "Status" line as the status, if there is one; streaming when p was or a kept line says
-- so.
abbrev pub Keeps : List Line → Parser → Parser → Type 0
Keeps ls p q =
    (q.headers ≡ p.headers ++ header_lines ls)
    × (q.status_text ≡ last_status p.status_text ls)
    × (q.is_streaming ≡ (if any_streams (header_lines ls) then true else p.is_streaming))
    × (q.header_line ≡ ([], []))

Keeps-status :
    (l : Line) (ls : List Line) (p q : Parser)
    → is_status (whole l) ≡ true
    → Keeps ls (record p { status_text = joined l.1; header_line = ([], []) }) q
    → Keeps (l ∷ ls) p q
Keeps-status l ls p q status h = rw status h

Keeps-header :
    (l : Line) (ls : List Line) (p q : Parser)
    → is_status (whole l) ≡ false
    → Keeps ls
        (record p {
          headers = p.headers ++ whole l ∷ [];
          is_streaming = if streams (whole l) then true else p.is_streaming;
          header_line = ([], []);
        })
        q
    → Keeps (l ∷ ls) p q
Keeps-header l ls p q other h =
    rw other (h.0 ∙ append_assoc p.headers (whole l ∷ []) (header_lines ls), h.1, h.2 ∙ either, h.3)
  where
    either :
        (if any_streams (header_lines ls)
          then true
          else (if streams (whole l) then true else p.is_streaming))
        ≡ (if (if streams (whole l) then true else any_streams (header_lines ls))
            then true
            else p.is_streaming)
    either = elim (Bool-cases (streams (whole l))) [
      | inl s ↦
          rw s (elim (Bool-cases (any_streams (header_lines ls))) [ inl a ↦ rw a | inr a ↦ rw a ])
      | inr s ↦ rw s
    ]

-- After header lines that come in any pieces, a parser that stood between two lines is left as Keeps
-- says.
pub push_lines_lem :
    (ls : List Line) (p : Parser) → p.header_line ≡ ([], []) → Keeps ls p (push_lines ls p)
unfolding push_lines push_header
push_lines_lem [] p e = (sym (append-nil p.headers), refl, refl, e)
push_lines_lem (l ∷ ls) p e =
    subst (λ q. Keeps (l ∷ ls) p (push_lines ls q)) (sym (line_lem l p e))
      (elim (Bool-cases (is_status (whole l))) [
        | inl status ↦
            let next = record p { status_text = joined l.1; header_line = ([], []) } in
            subst (λ q. Keeps (l ∷ ls) p (push_lines ls q)) (rw status)
              (Keeps-status l ls p (push_lines ls next) status (push_lines_lem ls next refl))
        | inr other ↦
            let next = record p {
              headers = p.headers ++ whole l ∷ [];
              is_streaming = if streams (whole l) then true else p.is_streaming;
              header_line = ([], []);
            } in
            subst (λ q. Keeps (l ∷ ls) p (push_lines ls q)) (rw other)
              (Keeps-header l ls p (push_lines ls next) other (push_lines_lem ls next refl))
      ])
