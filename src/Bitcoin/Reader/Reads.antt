-- ===== src/Bitcoin/Reader/Reads.antt =====
-- What the reads of `Reader` (crates/kms/src/bitcoin/tx.rs) have consumed.
use krusty_kms.Prelude.{
  ℕ, zero, suc, ◌^◌, ◌≤◌, ◌<◌, ◌≡◌, refl, sym, ap, ap₂, ◌∙◌, Bytes, [], ◌∷◌, ◌++◌, Option, none,
  some, ltb, leb, ◌==◌, length, from_le_bytes, to_le_bytes, AllBytes, IsByte, append-nil,
  All-append_left, subst, arith, ==→eq, to_le_bytes-from_le_bytes, from_le_bytes-lt,
}
use krusty_kms.Bitcoin.Parse.{Parse, pure, ◌>>=◌}
use krusty_kms.Bitcoin.Parse.Rules.{
  Consumes, Consumes-pure, Consumes-fail, Consumes-mono, Consumes-bind, Consumes-if, Prints,
}
use krusty_kms.Bitcoin.Reader.{
  split_at_checked, take, u16_le, u32_le, u64_le, canonical, compact_tag, compact_u64, finish,
  write_compact_size, write_var_bytes, fit_usize, compact_size, var_bytes, prepend, first_byte,
}

prepend-eq-some :
    (x : ℕ) (r : Option (Bytes × Bytes)) {head tail : Bytes}
    → prepend x r ≡ some (head, tail)
    → (front : Bytes) × (r ≡ some (front, tail)) × (head ≡ x ∷ front)
prepend-eq-some x none h = cc
prepend-eq-some x (some (front, back)) h = (front, cc, cc)

pub split_at_checked-eq-some :
    (n : ℕ) (xs head tail : Bytes)
    → split_at_checked n xs ≡ some (head, tail)
    → (xs ≡ head ++ tail) × (length head ≡ n)
unfolding split_at_checked
split_at_checked-eq-some zero xs head tail h = ground arith
split_at_checked-eq-some (suc n) [] head tail h = cc
split_at_checked-eq-some (suc n) (x ∷ xs) head tail h =
    let (front, e, eh) = prepend-eq-some x (split_at_checked n xs) h in
    let (ex, l) = split_at_checked-eq-some n xs front tail e in
    (ap (λ t. x ∷ t) ex ∙ ap (λ t. t ++ tail) (sym eh), ap length eh ∙ ap suc l)

pub take-Consumes : (n : ℕ) → Consumes (take n) (λ a c. (c ≡ a) × (length a ≡ n))
unfolding take
take-Consumes n = record {
  at = λ bytes a rest all h.
      let (e, l) = split_at_checked-eq-some n bytes a rest (ground arith) in
      (a, e, All-append_left IsByte a rest (subst AllBytes e all), (refl, l));
}

abbrev pub IsWord : ℕ → ℕ → Type 0
IsWord n v = v < 256 ^ n

IsWord-Consumes :
    (n : ℕ)
    → Consumes (take n >>= λ bytes. pure (from_le_bytes bytes)) (Prints (to_le_bytes n) (IsWord n))
IsWord-Consumes n = Consumes-bind (take n) _ (take-Consumes n) λ a d bd pd. Consumes-pure _ (
  append-nil d ∙ pd.0 ∙ sym (rw (← pd.1) (to_le_bytes-from_le_bytes a (subst AllBytes pd.0 bd))),
  rw (← pd.1) (from_le_bytes-lt a (subst AllBytes pd.0 bd)),
)

pub u32_le-Consumes : Consumes u32_le (Prints (to_le_bytes 4) (IsWord 4))
unfolding u32_le
u32_le-Consumes = IsWord-Consumes 4

pub u64_le-Consumes : Consumes u64_le (Prints (to_le_bytes 8) (IsWord 8))
unfolding u64_le
u64_le-Consumes = IsWord-Consumes 8

pub finish-Consumes : Consumes finish (λ _ c. c ≡ [])
unfolding finish
finish-Consumes = record { at = λ bytes a rest all h. ([], ground arith, tt, refl) }

pub u16_le-Consumes : Consumes u16_le (Prints (to_le_bytes 2) (IsWord 2))
unfolding u16_le
u16_le-Consumes = IsWord-Consumes 2

-- A word of `n` bytes behind the tag is refused below the tag's minimum.
tagged-Consumes :
    (tag n minimum : ℕ) {word : Parse ℕ}
    → Consumes word (Prints (to_le_bytes n) (IsWord n))
    → ((v : ℕ) → v < 256 ^ n → minimum ≤ v → write_compact_size v ≡ tag ∷ to_le_bytes n v)
    → 256 ^ n ≤ 2 ^ 64
    → Consumes (word >>= canonical minimum) (λ v c. (tag ∷ c ≡ write_compact_size v) × (v < 2 ^ 64))
unfolding canonical
tagged-Consumes tag n minimum hw written fits = Consumes-bind _ _ hw λ v d bd pd.
    Consumes-if (ltb v minimum) (λ _. Consumes-fail _)
      λ big. Consumes-pure v (
        ap (λ t. tag ∷ t) (append-nil d ∙ pd.0) ∙ sym (written v pd.1 (ground arith)),
        omega (arith, pd.1),
      )

compact_tag-Consumes :
    (tag : ℕ)
    → tag < 256
    → Consumes (compact_tag tag) (λ v c. (tag ∷ c ≡ write_compact_size v) × (v < 2 ^ 64))
unfolding compact_tag write_compact_size
compact_tag-Consumes tag byte =
    Consumes-if (tag == 0xfd)
      (λ e.
        rw (==→eq tag _ e)
          (tagged-Consumes 0xfd 2 0xfd u16_le-Consumes (λ v h m. ground arith) (omega arith)))
      λ e1.
        Consumes-if (tag == 0xfe)
          (λ e.
            rw (==→eq tag _ e) (
              tagged-Consumes 0xfe 4 0x1_0000 u32_le-Consumes (λ v h m. ground arith)
                (omega arith)))
          λ e2.
            Consumes-if (tag == 0xff)
              (λ e. rw (==→eq tag _ e) (
                tagged-Consumes 0xff 8 0x1_0000_0000 u64_le-Consumes (λ v h m. ground arith)
                  (omega arith)))
              λ e3. Consumes-pure tag (ground arith, ground arith)

first_byte_lem : (a : Bytes) → length a ≡ 1 → a ≡ first_byte a ∷ []
first_byte_lem [] h = absurd (omega arith)
first_byte_lem (b ∷ []) h = refl
first_byte_lem (b ∷ c ∷ a) h = absurd (omega arith)

first_byte-lt : (a : Bytes) → AllBytes a → first_byte a < 256
first_byte-lt [] h = omega arith
first_byte-lt (b ∷ a) h = h.0

-- A CompactSize that is accepted is the minimal one of its value.
pub compact_u64-Consumes : Consumes compact_u64 (Prints write_compact_size (λ v. v < 2 ^ 64))
unfolding compact_u64
compact_u64-Consumes = Consumes-bind (take 1) _ (take-Consumes 1) λ a d bd pd.
    Consumes-mono (compact_tag-Consumes (first_byte a) (first_byte-lt a (subst AllBytes pd.0 bd)))
      λ v c bc pc. (ap (λ t. t ++ c) (pd.0 ∙ first_byte_lem a pd.1) ∙ pc.0, pc.1)

module _ (usize_max : ℕ) where
  abbrev pub IsSize : ℕ → Type 0
  IsSize v = (v < 2 ^ 64) × (v ≤ usize_max)

  pub compact_size-Consumes : Consumes (compact_size usize_max) (Prints write_compact_size IsSize)
  unfolding compact_size fit_usize
  compact_size-Consumes = Consumes-bind _ _ compact_u64-Consumes λ v d bd pd.
      Consumes-if (leb v usize_max)
        (λ e. Consumes-pure v (append-nil d ∙ pd.0, (pd.1, ground arith))) λ _. Consumes-fail _

  abbrev pub IsVarBytes : Bytes → Type 0
  IsVarBytes a = AllBytes a × IsSize (length a)

  pub var_bytes-Consumes : Consumes (var_bytes usize_max) (Prints write_var_bytes IsVarBytes)
  unfolding var_bytes write_var_bytes
  var_bytes-Consumes = Consumes-bind _ _ compact_size-Consumes λ v d bd pd.
      Consumes-mono (take-Consumes v) λ a c bc pc. (
        ap₂ ◌++◌ pd.0 pc.0 ∙ ap (λ t. write_compact_size t ++ a) (sym pc.1),
        (subst AllBytes pc.0 bc, rw pc.1 pd.1),
      )
