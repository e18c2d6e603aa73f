-- ===== src/Oracle/LineReader.antt =====
-- crates/oracle/src/line_reader.rs: reading one line of bounded length. The reader is the list of the
-- buffers that `fill_buf` will give; the sum of the lengths of two buffers in memory does not saturate.
pub mod Chunking
pub mod Lines
use krusty_kms.Prelude.{
  ℕ, ◌+◌, Bytes, List, [], ◌∷◌, ◌++◌, Bool, true, false, not, ◌||◌, ◌&&◌, Option, none, some, ltb,
  ◌==◌, if◌then◌else◌, length,
}

-- One answer of `fill_buf`: bytes, none of them at the end of the input, or an I/O error.
pub data Fill : Type 0 where
  filled : Bytes → Fill
  failed : Fill

pub data LimitedLine : Type 0 where
  complete : Bytes → LimitedLine
  too_long invalid_utf8 : LimitedLine

-- `std::io::Result<Option<LimitedLine>>`
pub data Outcome : Type 0 where
  io_error end_of_input : Outcome
  line : LimitedLine → Outcome

abbrev pub cons_front : ℕ → Option (Bytes × Bytes) → Option (Bytes × Bytes)
cons_front b none = none
cons_front b (some (front, rest)) = some (b ∷ front, rest)

-- What stands before and after the first newline.
unfoldable pub split_line : Bytes → Option (Bytes × Bytes)
split_line [] = none
split_line (b ∷ bytes) = if b == b'\n' then some ([], bytes) else cons_front b (split_line bytes)

-- `if buf.last() == Some(&b'\r') { buf.pop(); }`
unfoldable pub pop_cr : Bytes → Bytes
pop_cr [] = []
pop_cr (b ∷ []) = if b == b'\r' then [] else b ∷ []
pop_cr (b ∷ c ∷ bytes) = b ∷ pop_cr (c ∷ bytes)

abbrev pub is_empty : Bytes → Bool
is_empty [] = true
is_empty (b ∷ bytes) = false

-- What `consume` leaves of a buffer stays in front of the reader.
abbrev pub put_back : Bytes → List Fill → List Fill
put_back [] fills = fills
put_back (b ∷ bytes) fills = filled (b ∷ bytes) ∷ fills

-- `is_utf8` is the test of `String::from_utf8`; a `String` is its bytes.
module _ (is_utf8 : Bytes → Bool) (max_bytes : ℕ) where
  unfoldable pub decode_line_utf8 : Bytes → LimitedLine
  decode_line_utf8 buf = if is_utf8 buf then complete buf else invalid_utf8

  -- An empty `fill_buf`.
  unfoldable pub at_end : Bytes → Bool → Outcome
  at_end buf discarded =
      if is_empty buf && not discarded
      then end_of_input
      else if discarded
      then line too_long
      else line (decode_line_utf8 buf)

  -- A buffer with a newline after `chunk`.
  unfoldable pub at_newline : Bytes → Bool → Bytes → Outcome
  at_newline buf discarded chunk =
      if discarded || ltb max_bytes (length buf + length chunk)
      then line too_long
      else line (decode_line_utf8 (pop_cr (buf ++ chunk)))

  -- A round of the loop on the buffer `available`, split at its first newline; `skipped` and `kept` are
  -- the next round without and with the buffer.
  abbrev pub round :
      Option (Bytes × Bytes)
      → List Fill
      → Bytes
      → Bool
      → Bytes
      → Outcome × List Fill
      → Outcome × List Fill
      → Outcome × List Fill
  round (some (chunk, rest)) fills buf discarded available skipped kept =
      (at_newline buf discarded chunk, put_back rest fills)
  round none fills buf discarded available skipped kept =
      if discarded || ltb max_bytes (length buf + length available) then skipped else kept

  -- The loop; each round but the last consumes a whole buffer.
  unfoldable pub read_loop : List Fill → Bytes → Bool → Outcome × List Fill
  read_loop [] buf discarded = (at_end buf discarded, [])
  read_loop (failed ∷ fills) buf discarded = (io_error, fills)
  read_loop (filled [] ∷ fills) buf discarded = (at_end buf discarded, filled [] ∷ fills)
  read_loop (filled (b ∷ available) ∷ fills) buf discarded =
      let skipped = read_loop fills buf true in
      let kept = read_loop fills (buf ++ (b ∷ available)) false in
      round (split_line (b ∷ available)) fills buf discarded (b ∷ available) skipped kept

  unfoldable pub read_line_limited : List Fill → Outcome × List Fill
  read_line_limited fills = read_loop fills [] false
