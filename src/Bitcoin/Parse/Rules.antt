-- ===== src/Bitcoin/Parse/Rules.antt =====
-- Proof rules for parsers: what a success has consumed, and which bytes are accepted.
use krusty_kms.Prelude.{
  ℕ, zero, suc, Bytes, List, [], ◌∷◌, ◌++◌, ◌≡◌, refl, sym, ap, Bool, true, false, if◌then◌else◌,
  ap₂, ◌∙◌, subst, append-nil, append_assoc, AllBytes, IsByte, All, All-append_right, All-append,
  length,
}
use krusty_kms.Common.Error.{KmsError, Result, ok, err}
use krusty_kms.Bitcoin.Parse.{Parse, pure, fail, lift, continue, ◌>>=◌, parse_many}

-- When `p` succeeds on bytes, it has taken a front `c` of them that fits `Q` and left the rest.
pub record Consumes {A : Type 0} (p : Parse A) (Q : A → Bytes → Type 0) : Type 0 where
  pub at :
      (bytes : Bytes) (a : A) (rest : Bytes)
      → AllBytes bytes
      → p bytes ≡ ok (a, rest)
      → (c : Bytes) × (bytes ≡ c ++ rest) × AllBytes c × Q a c

-- `p` reads `a` from the bytes `c`, whatever follows them, and leaves what follows.
pub record Accepts {A : Type 0} (p : Parse A) (c : Bytes) (a : A) : Type 0 where
  pub on : (rest : Bytes) → p (c ++ rest) ≡ ok (a, rest)

continue-eq-ok :
    {A B : Type 0} (m : Result (A × Bytes)) (f : A → Parse B) {b : B} {rest : Bytes}
    → continue m f ≡ ok (b, rest)
    → (a : A) × (mid : Bytes) × (m ≡ ok (a, mid)) × (f a mid ≡ ok (b, rest))
continue-eq-ok (ok (a, mid)) f h = (a, mid, refl, h)
continue-eq-ok (err e) f h = cc

module _ {A : Type 0} where
  -- What a result holds, with a value for the errors.
  abbrev value : A → Result (A × Bytes) → A
  value d (ok (a, rest)) = a
  value d (err e) = d

  abbrev left_over : Result (A × Bytes) → Bytes
  left_over (ok (a, rest)) = rest
  left_over (err e) = []

  pub Consumes-pure : {Q : A → Bytes → Type 0} (a : A) → Q a [] → Consumes (pure a) Q
  Consumes-pure {Q} a q = record {
    at = λ bytes b rest all h. ([], ap left_over h, tt, subst (λ x. Q x []) (ap (value a) h) q);
  }

  pub Consumes-fail : {Q : A → Bytes → Type 0} (e : KmsError) → Consumes (fail {A = A} e) Q
  Consumes-fail e = record { at = λ bytes b rest all h. cc }

  -- A result that reads nothing.
  pub Consumes-lift : (r : Result A) → Consumes (lift r) (λ a c. (c ≡ []) × (r ≡ ok a))
  Consumes-lift (ok a) = Consumes-pure a (refl, refl)
  Consumes-lift (err e) = record { at = λ bytes b rest all h. cc }

  pub Consumes-mono :
      {P Q : A → Bytes → Type 0} {p : Parse A}
      → Consumes p P
      → ((a : A) (c : Bytes) → AllBytes c → P a c → Q a c)
      → Consumes p Q
  Consumes-mono {p = p} h f = record {
    at = λ bytes a rest all e.
        let (c, eq, bs, q) = h.at bytes a rest all e in (c, eq, bs, f a c bs q);
  }

  pub Accepts-cast : {p : Parse A} {c d : Bytes} {a : A} → c ≡ d → Accepts p c a → Accepts p d a
  Accepts-cast e h = rw (← e) h

  pub Accepts-lift : {r : Result A} {a : A} → r ≡ ok a → Accepts (lift r) [] a
  Accepts-lift h = rw h (record { on = λ rest. refl })

  pub Accepts-pure : (a : A) → Accepts (pure a) [] a
  Accepts-pure a = record { on = λ rest. refl }

  pub Consumes-if :
      {Q : A → Bytes → Type 0} {p q : Parse A} (b : Bool)
      → (b ≡ true → Consumes p Q)
      → (b ≡ false → Consumes q Q)
      → Consumes (if b then p else q) Q
  Consumes-if true hp hq = hp refl
  Consumes-if false hp hq = hq refl

module _ {A B : Type 0} where
  pub Consumes-bind :
      {P : A → Bytes → Type 0} {Q : B → Bytes → Type 0} (m : Parse A) (f : A → Parse B)
      → Consumes m P
      → ((a : A) (d : Bytes) → AllBytes d → P a d → Consumes (f a) (λ b c. Q b (d ++ c)))
      → Consumes (m >>= f) Q
  unfolding ◌>>=◌
  Consumes-bind m f hm hf = record {
    at = λ bytes b rest all e.
        let (a, mid, e1, e2) = continue-eq-ok (m bytes) f e in
        let (d, eq1, bs1, p) = hm.at bytes a mid all e1 in
        let (c, eq2, bs2, q) =
          (hf a d bs1 p).at mid b rest (All-append_right IsByte d mid (subst AllBytes eq1 all))
            e2 in
        (
          d ++ c,
          eq1 ∙ ap (λ t. d ++ t) eq2 ∙ sym (append_assoc d c rest),
          All-append IsByte d c bs1 bs2,
          q,
        );
  }

  agree_on :
      {f g : A → Parse B} (r : Result (A × Bytes))
      → ((a : A) (rest : Bytes) → r ≡ ok (a, rest) → f a rest ≡ g a rest)
      → continue r f ≡ continue r g
  agree_on (ok (a, rest)) h = h a rest refl
  agree_on (err e) h = refl

  -- Two parsers that begin alike agree where what follows agrees on the bytes that are left.
  pub bind-agree :
      {P : A → Bytes → Type 0} (m : Parse A) (f g : A → Parse B) (bytes : Bytes)
      → Consumes m P
      → AllBytes bytes
      → ((a : A) (c rest : Bytes) → bytes ≡ c ++ rest → AllBytes rest → P a c → f a rest ≡ g a rest)
      → (m >>= f) bytes ≡ (m >>= g) bytes
  unfolding ◌>>=◌
  bind-agree m f g bytes hm all h = agree_on (m bytes) λ a rest e.
      let (c, eq, bc, p) = hm.at bytes a rest all e in
      h a c rest eq (All-append_right IsByte c rest (subst AllBytes eq all)) p

  pub bind-cong :
      (m n : Parse A) (k : A → Parse B) {bytes : Bytes}
      → m bytes ≡ n bytes
      → (m >>= k) bytes ≡ (n >>= k) bytes
  unfolding ◌>>=◌
  bind-cong m n k h = ap (λ r. continue r k) h

  -- One step of a parser on given bytes.
  pub bind_step :
      (m : Parse A) (f : A → Parse B) {bytes mid : Bytes} {a : A} {r : Result (B × Bytes)}
      → m bytes ≡ ok (a, mid)
      → f a mid ≡ r
      → (m >>= f) bytes ≡ r
  unfolding ◌>>=◌
  bind_step m f em ef = rw em ef

  pub Accepts-bind :
      {m : Parse A} (f : A → Parse B) {c d : Bytes} {a : A} {b : B}
      → Accepts m c a
      → Accepts (f a) d b
      → Accepts (m >>= f) (c ++ d) b
  unfolding ◌>>=◌
  Accepts-bind f hm hf = record { on = λ rest. rw (append_assoc, hm.on) (hf.on rest) }

  pub Accepts-then :
      (f : A → Parse B) {m : Parse A} {c : Bytes} {a : A} {b : B}
      → Accepts m c a
      → f a ≡ pure b
      → Accepts (m >>= f) c b
  unfolding ◌>>=◌
  Accepts-then f hm e = record { on = λ rest. rw (hm.on, e) refl }

  pub Accepts-last :
      {m : Parse A} {c : Bytes} {a : A} (g : A → B)
      → Accepts m c a
      → Accepts (m >>= λ a. pure (g a)) c (g a)
  unfolding ◌>>=◌
  Accepts-last g hm = record { on = λ rest. rw hm.on refl }

-- The bytes that a list is written as, one element after the other.
abbrev pub write_all {ℓ} : {A : Type ℓ} → (A → Bytes) → List A → Bytes
write_all s [] = []
write_all s (x ∷ xs) = s x ++ write_all s xs

-- A value that was read is written back as the bytes that it was read from, and fits `W`.
abbrev pub Prints : {A : Type 0} → (A → Bytes) → (A → Type 0) → A → Bytes → Type 0
Prints s W a c = (c ≡ s a) × W a

module _ {A : Type 0} (p : Parse A) (s : A → Bytes) (W : A → Type 0) where
  -- The loop reads as many elements as it was asked for.
  pub Consumes-parse_many :
      (count : ℕ)
      → Consumes p (Prints s W)
      → Consumes
          (parse_many p count)
          (λ xs c. (c ≡ write_all s xs) × All W xs × (length xs ≡ count))
  unfolding parse_many
  Consumes-parse_many zero hp = Consumes-pure [] (refl, tt, refl)
  Consumes-parse_many (suc count) hp = Consumes-bind p _ hp λ a d bd pd.
      Consumes-bind (parse_many p count) _ (Consumes-parse_many count hp) λ xs c bc pc.
        Consumes-pure (a ∷ xs)
          (ap (λ t. d ++ t) (append-nil c) ∙ ap₂ ◌++◌ pd.0 pc.0, (pd.1, pc.1), ap suc pc.2)

  pub Accepts-parse_many :
      (xs : List A)
      → ((x : A) → W x → Accepts p (s x) x)
      → All W xs
      → Accepts (parse_many p (length xs)) (write_all s xs) xs
  unfolding parse_many
  Accepts-parse_many [] hp h = record { on = λ rest. refl }
  Accepts-parse_many (x ∷ xs) hp h =
      Accepts-bind _ (hp x h.0) (Accepts-last (λ ys. x ∷ ys) (Accepts-parse_many xs hp h.1))

  -- The same, where the count is known by an equation.
  pub Accepts-parse_many_count :
      (xs : List A) {count : ℕ}
      → length xs ≡ count
      → ((x : A) → W x → Accepts p (s x) x)
      → All W xs
      → Accepts (parse_many p count) (write_all s xs) xs
  Accepts-parse_many_count xs e hp h = rw (← e) (Accepts-parse_many xs hp h)
