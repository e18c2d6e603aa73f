-- ===== src/Oracle/LineReader/Chunking.antt =====
-- `read_line_limited` (crates/oracle/src/line_reader.rs) on buffers and on their joined bytes.
use krusty_kms.Prelude.{
  ℕ, ◌+◌, ◌≡◌, refl, sym, ap, ap₂, ◌∙◌, Bytes, List, [], ◌∷◌, ◌++◌, Bool, true, false, Option, none,
  some, ltb, ◌==◌, if◌then◌else◌, length, length-append, append-nil, append_assoc, arith, All, ◌⊎◌,
  Bool-cases, inl, inr,
}
use krusty_kms.Oracle.LineReader.{
  Fill, filled, failed, Outcome, line, too_long, cons_front, split_line, pop_cr, put_back,
  decode_line_utf8, at_end, at_newline, round, read_loop, read_line_limited,
}

-- The bytes of buffers of which none is empty and none is an error.
abbrev pub Flowing : Fill → Type 0
Flowing (filled (b ∷ bytes)) = Unit
Flowing _ = ⊥

abbrev pub all_bytes : List Fill → Bytes
all_bytes [] = []
all_bytes (filled bytes ∷ fills) = bytes ++ all_bytes fills
all_bytes (failed ∷ fills) = all_bytes fills

abbrev with_prefix : Bytes → Option (Bytes × Bytes) → Option (Bytes × Bytes)
with_prefix a none = none
with_prefix a (some (front, rest)) = some (a ++ front, rest)

abbrev join_split : Bytes → Bytes → Option (Bytes × Bytes) → Option (Bytes × Bytes)
join_split a b none = with_prefix a (split_line b)
join_split a b (some (front, rest)) = some (front, rest ++ b)

cons-with_prefix :
    (x : ℕ) (a : Bytes) (t : Option (Bytes × Bytes))
    → cons_front x (with_prefix a t) ≡ with_prefix (x ∷ a) t
cons-with_prefix x a none = refl
cons-with_prefix x a (some t) = refl

cons-join_split :
    (x : ℕ) (a b : Bytes) (s : Option (Bytes × Bytes))
    → cons_front x (join_split a b s) ≡ join_split (x ∷ a) b (cons_front x s)
cons-join_split x a b none = cons-with_prefix x a (split_line b)
cons-join_split x a b (some s) = refl

with_prefix-nil : (t : Option (Bytes × Bytes)) → t ≡ with_prefix [] t
with_prefix-nil none = refl
with_prefix-nil (some t) = refl

split_line-append : (a b : Bytes) → split_line (a ++ b) ≡ join_split a b (split_line a)
unfolding split_line
split_line-append [] b = with_prefix-nil (split_line b)
split_line-append (x ∷ a) b = elim (Bool-cases (x == b'\n')) [
  | inl e ↦ rw e refl
  | inr e ↦ rw e (ap (cons_front x) (split_line-append a b) ∙ cons-join_split x a b (split_line a))
]

split_line_nil : split_line [] ≡ none
unfolding split_line
split_line_nil = refl

pub split-cases :
    (s : Option (Bytes × Bytes))
    → (s ≡ none) ⊎ ((chunk : Bytes) × (rest : Bytes) × (s ≡ some (chunk, rest)))
split-cases none = inl refl
split-cases (some (chunk, rest)) = inr (chunk, rest, refl)

length_total : (buf a b : Bytes) → length (buf ++ a) + length b ≡ length buf + length (a ++ b)
length_total buf a b = rw (length-append buf a, length-append a b) (omega arith)

all_bytes-put_back :
    (rest : Bytes) (fills : List Fill) → all_bytes (put_back rest fills) ≡ rest ++ all_bytes fills
all_bytes-put_back [] fills = refl
all_bytes-put_back (b ∷ rest) fills = refl

abbrev pub observed : Outcome × List Fill → Outcome × Bytes
observed (outcome, fills) = (outcome, all_bytes fills)

module _ (is_utf8 : Bytes → Bool) (max_bytes : ℕ) where
  -- The line that `bytes` start with, without any buffers: what is before the first newline, or all,
  -- if it has at most `max_bytes` bytes.
  abbrev line_from : Bytes → Bytes → Option (Bytes × Bytes) → Outcome × Bytes
  line_from buf bytes none =
      (at_end is_utf8 max_bytes (buf ++ bytes) (ltb max_bytes (length buf + length bytes)), [])
  line_from buf bytes (some (chunk, rest)) = (at_newline is_utf8 max_bytes buf false chunk, rest)

  abbrev pub line_of : Bytes → Outcome × Bytes
  line_of bytes = line_from [] bytes (split_line bytes)

  abbrev skip_from : Option (Bytes × Bytes) → Outcome × Bytes
  skip_from none = (line too_long, [])
  skip_from (some (chunk, rest)) = (line too_long, rest)

  at_end_discarded : (buf : Bytes) → at_end is_utf8 max_bytes buf true ≡ line too_long
  unfolding at_end
  at_end_discarded [] = refl
  at_end_discarded (b ∷ buf) = refl

  skip-with_prefix :
      (a : Bytes) (s : Option (Bytes × Bytes)) → skip_from (with_prefix a s) ≡ skip_from s
  skip-with_prefix a none = refl
  skip-with_prefix a (some s) = refl

  read_loop-round :
      (b : ℕ) (a : Bytes) (fills : List Fill) (buf : Bytes) (discarded : Bool)
      → read_loop is_utf8 max_bytes (filled (b ∷ a) ∷ fills) buf discarded
        ≡ round is_utf8 max_bytes
            (split_line (b ∷ a))
            fills
            buf
            discarded
            (b ∷ a)
            (read_loop is_utf8 max_bytes fills buf true)
            (read_loop is_utf8 max_bytes fills (buf ++ (b ∷ a)) false)
  unfolding read_loop
  read_loop-round b a fills buf discarded = refl

  read_loop_skips :
      (fills : List Fill) (buf : Bytes)
      → All Flowing fills
      → observed (read_loop is_utf8 max_bytes fills buf true)
        ≡ skip_from (split_line (all_bytes fills))
  unfolding read_loop at_newline
  read_loop_skips [] buf flow = rw split_line_nil (ap (λ o. (o, [])) (at_end_discarded buf))
  read_loop_skips (failed ∷ fills) buf flow = absurd flow.0
  read_loop_skips (filled [] ∷ fills) buf flow = absurd flow.0
  read_loop_skips (filled (b ∷ a) ∷ fills) buf flow =
      rw (read_loop-round b a fills buf true, split_line-append (b ∷ a) (all_bytes fills))
        (elim (split-cases (split_line (b ∷ a))) [
          | inl e ↦ rw e (
              read_loop_skips fills buf flow.1
              ∙ sym (skip-with_prefix (b ∷ a) (split_line (all_bytes fills))))
          | inr (chunk, rest, e) ↦
              rw e (ap (λ r. (line too_long, r)) (all_bytes-put_back rest fills))
        ])

  line_from-kept :
      (buf a b : Bytes) (s : Option (Bytes × Bytes))
      → line_from (buf ++ a) b s ≡ line_from buf (a ++ b) (with_prefix a s)
  unfolding at_newline
  line_from-kept buf a b none =
      ap₂ (λ t n. (at_end is_utf8 max_bytes t (ltb max_bytes n), [])) (append_assoc buf a b)
        (length_total buf a b)
  line_from-kept buf a b (some (chunk, rest)) =
      ap₂
        (λ t n. (
          if ltb max_bytes n
              then line too_long
              else line (decode_line_utf8 is_utf8 max_bytes (pop_cr t)),
          rest,
        ))
        (append_assoc buf a chunk) (length_total buf a chunk)

  long_test :
      (buf a b : Bytes)
      → ltb max_bytes (length buf + length a) ≡ true
      → ltb max_bytes (length buf + length (a ++ b)) ≡ true
  long_test buf a b h = rw (length-append a b) (ground arith)

  line_from-skipped :
      (buf a b : Bytes) (s : Option (Bytes × Bytes))
      → ltb max_bytes (length buf + length a) ≡ true
      → skip_from s ≡ line_from buf (a ++ b) (with_prefix a s)
  unfolding at_newline
  line_from-skipped buf a b none h =
      rw (long_test buf a b h) (ap (λ o. (o, [])) (sym (at_end_discarded (buf ++ (a ++ b)))))
  line_from-skipped buf a b (some (chunk, rest)) h = rw (long_test buf a chunk h) refl

  read_loop_keeps :
      (fills : List Fill) (buf : Bytes)
      → All Flowing fills
      → ltb max_bytes (length buf) ≡ false
      → observed (read_loop is_utf8 max_bytes fills buf false)
        ≡ line_from buf (all_bytes fills) (split_line (all_bytes fills))
  unfolding read_loop
  read_loop_keeps [] buf flow fits =
      let none_more : false ≡ ltb max_bytes (length buf + 0) = ground arith in
      rw split_line_nil
        (ap₂ (λ t d. (at_end is_utf8 max_bytes t d, [])) (sym (append-nil buf)) none_more)
  read_loop_keeps (failed ∷ fills) buf flow fits = absurd flow.0
  read_loop_keeps (filled [] ∷ fills) buf flow fits = absurd flow.0
  read_loop_keeps (filled (b ∷ a) ∷ fills) buf flow fits =
      rw (read_loop-round b a fills buf false, split_line-append (b ∷ a) (all_bytes fills))
        (elim (split-cases (split_line (b ∷ a))) [
          | inl e ↦ rw e (elim (Bool-cases (ltb max_bytes (length buf + length (b ∷ a)))) [
            | inl long ↦ rw long (
                read_loop_skips fills buf flow.1
                ∙ line_from-skipped buf (b ∷ a) (all_bytes fills) (split_line (all_bytes fills))
                    long)
            | inr short ↦ rw short (
                read_loop_keeps fills (buf ++ (b ∷ a)) flow.1 (rw (length-append buf (b ∷ a)) short)
                ∙ line_from-kept buf (b ∷ a) (all_bytes fills) (split_line (all_bytes fills)))
          ])
          | inr (chunk, rest, e) ↦ rw e (
              ap (λ r. (at_newline is_utf8 max_bytes buf false chunk, r))
                (all_bytes-put_back rest fills))
        ])

  -- However the input is cut into buffers that are not empty, `read_line_limited` returns what
  -- `line_of` reads from the joined bytes, and leaves the bytes that follow that line, also after a
  -- line that is too long.
  pub read_line_limited-line_of :
      (fills : List Fill)
      → All Flowing fills
      → observed (read_line_limited is_utf8 max_bytes fills) ≡ line_of (all_bytes fills)
  unfolding read_line_limited
  read_line_limited-line_of fills flow = read_loop_keeps fills [] flow (ground arith)
