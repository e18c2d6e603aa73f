-- ===== src/Oracle/Tests.antt =====
-- A line cut into two buffers.
use krusty_kms.Prelude.{◌≡◌, refl, List, [], ◌∷◌, true}
use krusty_kms.Oracle.LineReader.{
  Fill, filled, complete, too_long, line, split_line, pop_cr, decode_line_utf8, at_newline,
  read_loop, read_line_limited,
}
use krusty_kms.Oracle.LineReader.Chunking.{all_bytes, observed}
use krusty_kms.Oracle.LineReader.Lines.{Reads, read_line_limited-Reads}

abbrev fills : List Fill
fills = filled (b'a' ∷ b'b' ∷ []) ∷ filled (b'c' ∷ b'\r' ∷ b'\n' ∷ b'd' ∷ []) ∷ []

-- The carriage return is dropped, and counts for the bound.
read_whole :
    observed (read_line_limited (λ b. true) 4 fills)
    ≡ (line (complete (b'a' ∷ b'b' ∷ b'c' ∷ [])), b'd' ∷ [])
unfolding read_line_limited read_loop split_line at_newline decode_line_utf8 pop_cr
read_whole = refl

read_long : observed (read_line_limited (λ b. true) 3 fills) ≡ (line too_long, b'd' ∷ [])
unfolding read_line_limited read_loop split_line at_newline decode_line_utf8 pop_cr
read_long = refl

read_line_limited-Reads_example :
    Reads
      (λ b. true)
      8
      (all_bytes fills)
      (observed (read_line_limited (λ b. true) 8 fills)).1
      (observed (read_line_limited (λ b. true) 8 fills)).0
read_line_limited-Reads_example = read_line_limited-Reads (λ b. true) 8 fills (tt, (tt, tt))
