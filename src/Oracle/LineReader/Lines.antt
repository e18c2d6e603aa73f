-- ===== src/Oracle/LineReader/Lines.antt =====
-- The lines of `read_line_limited` (crates/oracle/src/line_reader.rs), described without the reader.
use krusty_kms.Prelude.{
  ℕ, ◌+◌, ◌≤◌, ◌<◌, ◌≡◌, ◌≢◌, refl, sym, ap, ◌∙◌, subst, Bytes, List, [], ◌∷◌, ◌++◌, Bool, true,
  false, Option, none, some, ltb, ◌==◌, length, arith, All, ◌⊎◌, Bool-cases, inl, inr,
}
use krusty_kms.Prelude.Assoc.{some_injective}
use krusty_kms.Oracle.LineReader.{
  Fill, LimitedLine, complete, too_long, invalid_utf8, Outcome, end_of_input, line, cons_front,
  split_line, pop_cr, decode_line_utf8, at_end, at_newline, read_line_limited,
}
use krusty_kms.Oracle.LineReader.Chunking.{
  Flowing, all_bytes, split-cases, observed, line_of, read_line_limited-line_of,
}

abbrev pub OneLine : Bytes → Type 0
OneLine bytes = All (λ b. b ≢ b'\n') bytes

-- `text` is `front` without the carriage return at its end, if it has one there.
abbrev pub Stripped : Bytes → Bytes → Type 0
Stripped front text =
    (text ++ (b'\r' ∷ []) ≡ front) ⊎ ((text ≡ front) × ((t : Bytes) → t ++ (b'\r' ∷ []) ≢ front))

module _ (is_utf8 : Bytes → Bool) where
  abbrev pub Decodes : Bytes → LimitedLine → Type 0
  Decodes text read =
      ((is_utf8 text ≡ true) × (read ≡ complete text))
      ⊎ ((is_utf8 text ≡ false) × (read ≡ invalid_utf8))

  -- What is read of `bytes`, and the rest that is left.
  pub data Reads (max_bytes : ℕ) (bytes rest : Bytes) (outcome : Outcome) : Type 0 where
    nothing : bytes ≡ [] → rest ≡ [] → outcome ≡ end_of_input → Reads max_bytes bytes rest outcome
    whole_line :
        (front text : Bytes) (read : LimitedLine)
        → bytes ≡ front ++ (b'\n' ∷ rest)
        → OneLine front
        → length front ≤ max_bytes
        → Stripped front text
        → Decodes text read
        → outcome ≡ line read
        → Reads max_bytes bytes rest outcome
    long_line :
        (front : Bytes)
        → bytes ≡ front ++ (b'\n' ∷ rest)
        → OneLine front
        → max_bytes < length front
        → outcome ≡ line too_long
        → Reads max_bytes bytes rest outcome
    last_line :
        (read : LimitedLine)
        → bytes ≢ []
        → rest ≡ []
        → OneLine bytes
        → length bytes ≤ max_bytes
        → Decodes bytes read
        → outcome ≡ line read
        → Reads max_bytes bytes rest outcome
    long_last_line :
        rest ≡ []
        → OneLine bytes
        → max_bytes < length bytes
        → outcome ≡ line too_long
        → Reads max_bytes bytes rest outcome

eq_of_test : (a b : ℕ) → (a == b) ≡ true → a ≡ b
eq_of_test a b h = ground arith

ne_of_test : (a b : ℕ) → (a == b) ≡ false → a ≢ b
ne_of_test a b h e = ground arith

cons_front-none : (x : ℕ) (s : Option (Bytes × Bytes)) → cons_front x s ≡ none → s ≡ none
cons_front-none x none h = refl
cons_front-none x (some s) h = cc

cons_front-some :
    (x : ℕ) (s : Option (Bytes × Bytes)) (front rest : Bytes)
    → cons_front x s ≡ some (front, rest)
    → (tail : Bytes) × (front ≡ x ∷ tail) × (s ≡ some (tail, rest))
cons_front-some x none front rest h = cc
cons_front-some x (some (tail, after)) front rest h = (
  tail,
  ap (λ p. p.0) (sym (some_injective h)),
  ap (λ r. some (tail, r)) (ap (λ p. p.1) (some_injective h)),
)

split_line_newline :
    (x : ℕ) (bytes : Bytes) → (x == b'\n') ≡ true → split_line (x ∷ bytes) ≡ some ([], bytes)
unfolding split_line
split_line_newline x bytes e = rw e refl

split_line_other :
    (x : ℕ) (bytes : Bytes)
    → (x == b'\n') ≡ false
    → split_line (x ∷ bytes) ≡ cons_front x (split_line bytes)
unfolding split_line
split_line_other x bytes e = rw e refl

split_line-OneLine : (bytes : Bytes) → split_line bytes ≡ none → OneLine bytes
split_line-OneLine [] h = tt
split_line-OneLine (x ∷ bytes) h = elim (Bool-cases (x == b'\n')) [
  | inl e ↦ cc (h, split_line_newline x bytes e)
  | inr e ↦ (
    ne_of_test x b'\n' e,
    split_line-OneLine bytes
        (cons_front-none x (split_line bytes) (sym (split_line_other x bytes e) ∙ h)),
  )
]

-- What `split_line` returns is one line and what follows its newline.
split_line-some :
    (bytes front rest : Bytes)
    → split_line bytes ≡ some (front, rest)
    → (bytes ≡ front ++ (b'\n' ∷ rest)) × OneLine front
unfolding split_line
split_line-some [] front rest h = cc
split_line-some (x ∷ bytes) front rest h = elim (Bool-cases (x == b'\n')) [
  | inl e ↦
      let same = some_injective (sym (split_line_newline x bytes e) ∙ h) in
      subst (λ p. (x ∷ bytes ≡ p.0 ++ (b'\n' ∷ p.1)) × OneLine p.0) same
        (ap (λ b. b ∷ bytes) (eq_of_test x b'\n' e), tt)
  | inr e ↦
      let (tail, front_tail, found) =
        cons_front-some x (split_line bytes) front rest (sym (split_line_other x bytes e) ∙ h) in
      let (joined, one) = split_line-some bytes tail rest found in
      subst (λ f. (x ∷ bytes ≡ f ++ (b'\n' ∷ rest)) × OneLine f) (sym front_tail)
        (ap (λ l. x ∷ l) joined, (ne_of_test x b'\n' e, one))
]

abbrev tail_of : Bytes → Bytes
tail_of [] = []
tail_of (b ∷ bytes) = bytes

not_single : (b : ℕ) (t : Bytes) → (b == b'\r') ≡ false → t ++ (b'\r' ∷ []) ≢ b ∷ []
not_single b [] e h = cc
not_single b (x ∷ []) e h = cc
not_single b (x ∷ y ∷ t) e h = cc

not_empty : (t : Bytes) → t ++ (b'\r' ∷ []) ≢ []
not_empty [] h = cc
not_empty (x ∷ t) h = cc

not_longer :
    (b c : ℕ) (bytes : Bytes)
    → ((t : Bytes) → t ++ (b'\r' ∷ []) ≢ c ∷ bytes)
    → (t : Bytes) → t ++ (b'\r' ∷ []) ≢ b ∷ c ∷ bytes
not_longer b c bytes none_fits [] h = cc
not_longer b c bytes none_fits (x ∷ t) h = none_fits t (ap tail_of h)

pop_cr-Stripped : (front : Bytes) → Stripped front (pop_cr front)
unfolding pop_cr
pop_cr-Stripped [] = inr (refl, not_empty)
pop_cr-Stripped (b ∷ []) = elim (Bool-cases (b == b'\r')) [
  | inl e ↦ rw e (inl (ap (λ x. x ∷ []) (sym (eq_of_test b b'\r' e))))
  | inr e ↦ rw e (inr (refl, λ t. not_single b t e))
]
pop_cr-Stripped (b ∷ c ∷ bytes) = elim (pop_cr-Stripped (c ∷ bytes)) [
  | inl ends ↦ inl (ap (λ l. b ∷ l) ends)
  | inr (same, none_fits) ↦ inr (ap (λ l. b ∷ l) same, not_longer b c bytes none_fits)
]

module _ (is_utf8 : Bytes → Bool) (max_bytes : ℕ) where
  decode_line_utf8-Decodes :
      (text : Bytes) → Decodes is_utf8 text (decode_line_utf8 is_utf8 max_bytes text)
  unfolding decode_line_utf8
  decode_line_utf8-Decodes text = elim (Bool-cases (is_utf8 text)) [
    | inl e ↦ rw e (inl (refl, refl))
    | inr e ↦ rw e (inr (refl, refl))
  ]

  at_newline-Reads :
      (bytes front rest : Bytes)
      → bytes ≡ front ++ (b'\n' ∷ rest)
      → OneLine front
      → Reads is_utf8 max_bytes bytes rest (at_newline is_utf8 max_bytes [] false front)
  unfolding at_newline
  at_newline-Reads bytes front rest joined one =
      elim (Bool-cases (ltb max_bytes (0 + length front))) [
        | inl long ↦ rw long (long_line front joined one (ground arith) refl)
        | inr short ↦ rw short (
            whole_line front (pop_cr front) (decode_line_utf8 is_utf8 max_bytes (pop_cr front))
              joined one (ground arith) (pop_cr-Stripped front)
              (decode_line_utf8-Decodes (pop_cr front)) refl)
      ]

  at_end-Reads :
      (bytes : Bytes)
      → OneLine bytes
      → Reads is_utf8 max_bytes bytes []
          (at_end is_utf8 max_bytes bytes (ltb max_bytes (0 + length bytes)))
  unfolding at_end
  at_end-Reads [] one =
      let none_over : ltb max_bytes 0 ≡ false = ground arith in
      nothing refl refl (rw none_over refl)
  at_end-Reads (b ∷ bytes) one = elim (Bool-cases (ltb max_bytes (0 + length (b ∷ bytes)))) [
    | inl long ↦ rw long (long_last_line refl one (ground arith) refl)
    | inr short ↦ rw short (
        last_line (decode_line_utf8 is_utf8 max_bytes (b ∷ bytes)) (λ h. cc) refl one (ground arith)
          (decode_line_utf8-Decodes (b ∷ bytes)) refl)
  ]

  line_of-Reads :
      (bytes : Bytes)
      → Reads is_utf8 max_bytes bytes
          (line_of is_utf8 max_bytes bytes).1
          (line_of is_utf8 max_bytes bytes).0
  line_of-Reads bytes = elim (split-cases (split_line bytes)) [
    | inl e ↦ rw e (at_end-Reads bytes (split_line-OneLine bytes e))
    | inr (front, rest, e) ↦
        let (joined, one) = split_line-some bytes front rest e in
        rw e (at_newline-Reads bytes front rest joined one)
  ]

  -- However the input is cut into buffers, none of them empty or an error, reading a line from the
  -- joined bytes gives: at no bytes, the end of the input; before a first newline, the text in front of it without
  -- a carriage return at its end, if the front has at most `max_bytes` bytes, and otherwise a line that
  -- is too long, where in both cases exactly the bytes after the newline are left; without a newline,
  -- all the bytes, under the same bound. A text that is not UTF-8 is reported as such.
  pub read_line_limited-Reads :
      (fills : List Fill)
      → All Flowing fills
      → Reads is_utf8 max_bytes
          (all_bytes fills)
          (observed (read_line_limited is_utf8 max_bytes fills)).1
          (observed (read_line_limited is_utf8 max_bytes fills)).0
  read_line_limited-Reads fills flow =
      subst (λ o. Reads is_utf8 max_bytes (all_bytes fills) o.1 o.0)
        (sym (read_line_limited-line_of is_utf8 max_bytes fills flow))
        (line_of-Reads (all_bytes fills))
