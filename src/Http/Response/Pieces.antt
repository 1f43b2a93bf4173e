-- ===== src/Http/Response/Pieces.antt =====
-- Writing pieces loses nothing.
use tube.Common.{
  ℕ, Bytes, List, [], ◌∷◌, ◌++◌, Option, none, some, append_assoc, append-nil, ◌≡◌, ap, sym, ◌∙◌,
  subst,
}
use tube.Common.Int.{ℤ}
use tube.Core.Stream.{Stream, append_data}
use tube.Core.Stream.Pending.{SendsAll}
use tube.Core.Response
use tube.Core.Response.Conserves.{Fits, Conserves, write_data-Conserves}
use tube.Http.Response.{head_of, tail_of, sent_before, then_write, write_pieces}
use tube.Http.Response.Text.{concat}

-- What was sent, with what is left, is what was pending.
abbrev pub PiecesConserve : Bytes → Option (Bytes × Stream) → Type 0
PiecesConserve body none = Unit
PiecesConserve body (some (sent, after)) =
    (left : Bytes) × SendsAll after.writeables left × (sent ++ left ≡ body)

module _ (junk max_mem : ℕ) where
  abbrev pub FitsNext : (Stream → Type 0) → Option (Bytes × ℤ × Stream) → Type 0
  FitsNext P none = Unit
  FitsNext P (some (sent, code, after)) = P after

  -- The answers to the flushes of each piece are ones that the operating system can give.
  abbrev pub FitsAll : List (List (Option ℕ)) → List Bytes → Stream → Type 0
  FitsAll answers [] out = Unit
  FitsAll answers (piece ∷ pieces) out =
      Fits (head_of answers) (append_data junk piece out)
      × FitsNext (λ after. FitsAll (tail_of answers) pieces after)
          (Response.write_data junk max_mem (head_of answers) piece out)

  sent_before-Conserve :
      (sent left body : Bytes) (r : Option (Bytes × Stream))
      → sent ++ left ≡ body
      → PiecesConserve left r
      → PiecesConserve body (sent_before sent r)
  unfolding sent_before
  sent_before-Conserve sent left body none split c = tt
  sent_before-Conserve sent left body (some (more, out)) split (last, all, e) =
      (last, all, append_assoc sent more last ∙ ap (λ t. sent ++ t) e ∙ split)

  then_write-Conserve :
      (r : Option (Bytes × ℤ × Stream)) (body more : Bytes)
      (next : Stream → Option (Bytes × Stream)) (P : Stream → Type 0)
      → Conserves body r
      → FitsNext P r
      → ((after : Stream) (left : Bytes)
          → P after
          → SendsAll after.writeables left
          → PiecesConserve (left ++ more) (next after))
      → PiecesConserve (body ++ more) (then_write r next)
  unfolding then_write
  then_write-Conserve none body more next P c fits k = tt
  then_write-Conserve (some (sent, code, after)) body more next P (left, all, split) fits k =
      sent_before-Conserve sent (left ++ more) (body ++ more) (next after)
        (sym (append_assoc sent left more) ∙ ap (λ t. t ++ more) split) (k after left fits all)

  pub write_pieces-Conserve :
      (answers : List (List (Option ℕ))) (pieces : List Bytes) (out : Stream) (body : Bytes)
      → SendsAll out.writeables body
      → FitsAll answers pieces out
      → PiecesConserve (body ++ concat pieces) (write_pieces junk max_mem answers pieces out)
  unfolding write_pieces
  write_pieces-Conserve answers [] out body all fits = (body, all, sym (append-nil body))
  write_pieces-Conserve answers (piece ∷ pieces) out body all fits =
      subst (λ t. PiecesConserve t (write_pieces junk max_mem answers (piece ∷ pieces) out))
        (append_assoc body piece (concat pieces))
        (then_write-Conserve (Response.write_data junk max_mem (head_of answers) piece out)
          (body ++ piece) (concat pieces)
          (λ after. write_pieces junk max_mem (tail_of answers) pieces after)
          (λ after. FitsAll (tail_of answers) pieces after)
          (write_data-Conserves junk max_mem (head_of answers) piece out body all fits.0) fits.1
          (λ after left fits' all'.
            write_pieces-Conserve (tail_of answers) pieces after left all' fits'))
