-- ===== src/Fcgi/Headers/Lines/Tests.antt =====
-- Two lines, one of them in pieces.
use tube.Common.{codes, List, [], ◌∷◌}
use tube.Fcgi.Headers.Lines.{Line}

abbrev two_lines : List Line
two_lines =
    (codes "Sta" ∷ codes "tus" ∷ [], codes "404" ∷ [])
    ∷ (codes "Content-length" ∷ [], codes "1" ∷ codes "2" ∷ [])
    ∷ []
