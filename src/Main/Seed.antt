-- ===== src/Main/Seed.antt =====
-- How `initialize_seed` of reproduce/src/main.c reads the decimal digits of R_SEED.
use reproduce.Prelude.{
  ℕ, zero, suc, ◌+◌, ◌-◌, ◌*◌, ◌/◌, ◌%◌, ◌^◌, ◌<◌, ◌≡◌, refl, true, false, some, List, [], ◌∷◌,
  ◌++◌, ltb, ◌==◌, replicate, arith, Bool-cases, inl, inr, ◌∙◌,
}
use reproduce.Prelude.Decimal.{decimal_from, decimal}
use reproduce.Main.{digits, signed_digits, strtoul, seed_of, is_digit, is_space}

abbrev pub AreDigits : List ℕ → Type 0
AreDigits [] = Unit
AreDigits (c ∷ cs) = (is_digit c ≡ true) × AreDigits cs

-- A text that does not go on with a digit.
abbrev pub NoDigit : List ℕ → Type 0
NoDigit [] = Unit
NoDigit (c ∷ cs) = is_digit c ≡ false

append-AreDigits : (xs ys : List ℕ) → AreDigits xs → AreDigits ys → AreDigits (xs ++ ys)
append-AreDigits [] ys h g = g
append-AreDigits (x ∷ xs) ys (d, h) g = (d, append-AreDigits xs ys h g)

decimal_from-AreDigits : (fuel n : ℕ) → AreDigits (decimal_from fuel n)
unfolding decimal_from
decimal_from-AreDigits zero n = tt
decimal_from-AreDigits (suc fuel) n = elim (Bool-cases (ltb n 10)) [
  | inl small ↦ rw small (ground arith, tt)
  | inr large ↦ rw large (
      append-AreDigits (decimal_from fuel (n / 10)) _ (decimal_from-AreDigits fuel (n / 10))
        (ground arith, tt))
]

digits-append :
    (xs ys : List ℕ) (acc : ℕ) → AreDigits xs → digits acc (xs ++ ys) ≡ digits (digits acc xs) ys
unfolding digits
digits-append [] ys acc h = refl
digits-append (x ∷ xs) ys acc (d, h) = rw d (digits-append xs ys (acc * 10 + (x - b'0')) h)

digits-NoDigit : (rest : List ℕ) (acc : ℕ) → NoDigit rest → digits acc rest ≡ acc
unfolding digits
digits-NoDigit [] acc h = refl
digits-NoDigit (c ∷ cs) acc h = rw h

digits-decimal_from : (fuel n : ℕ) → n < fuel → digits 0 (decimal_from fuel n) ≡ n
unfolding decimal_from digits
digits-decimal_from zero n h = absurd (omega arith)
digits-decimal_from (suc fuel) n h = elim (Bool-cases (ltb n 10)) [
  | inl small ↦ let d : is_digit (b'0' + n) ≡ true = ground arith in rw (small, d) (omega arith)
  | inr large ↦
      let d : is_digit (b'0' + n % 10) ≡ true = ground arith in
      rw
        (
          large,
          digits-append (decimal_from fuel (n / 10)) ((b'0' + n % 10) ∷ []) 0
              (decimal_from-AreDigits fuel (n / 10)),
          digits-decimal_from fuel (n / 10) (ground arith),
          d,
        )
        (omega arith)
]

-- A text that begins with a digit is read without a sign.
strtoul-cons :
    (c : ℕ) (cs : List ℕ) (n : ℕ)
    → is_digit c ≡ true
    → digits 0 (c ∷ cs) ≡ n
    → n < 2 ^ 64
    → strtoul (c ∷ cs) ≡ n
unfolding strtoul signed_digits
strtoul-cons c cs n d e lt =
    let solid : is_space c ≡ false = ground arith in
    let unsigned : (c == b'-') ≡ false = ground arith in
    let bare : (c == b'+') ≡ false = ground arith in
    let fits : ltb (2 ^ 64 - 1) n ≡ false = ground arith in rw (solid, unsigned, bare, e, fits)

strtoul-replicate : (k : ℕ) (xs : List ℕ) → strtoul (replicate k b' ' ++ xs) ≡ strtoul xs
unfolding strtoul
strtoul-replicate zero xs = refl
strtoul-replicate (suc k) xs = strtoul-replicate k xs

snoc_cons : (xs : List ℕ) (x : ℕ) → (c : ℕ) × (cs : List ℕ) × (xs ++ x ∷ [] ≡ c ∷ cs)
snoc_cons [] x = (x, [], refl)
snoc_cons (c ∷ cs) x = (c, cs ++ x ∷ [], refl)

decimal_from_cons : (fuel n : ℕ) → (c : ℕ) × (cs : List ℕ) × (decimal_from (suc fuel) n ≡ c ∷ cs)
unfolding decimal_from
decimal_from_cons fuel n = elim (Bool-cases (ltb n 10)) [
  | inl small ↦ rw small (b'0' + n, [], refl)
  | inr large ↦ rw large (snoc_cons (decimal_from fuel (n / 10)) (b'0' + n % 10))
]

strtoul-AreDigits :
    (xs rest : List ℕ) (c n : ℕ) (cs : List ℕ)
    → xs ≡ c ∷ cs
    → AreDigits xs
    → digits 0 (xs ++ rest) ≡ n
    → n < 2 ^ 64
    → strtoul (xs ++ rest) ≡ n
strtoul-AreDigits [] rest c n cs e h v lt = absurd (ground arith)
strtoul-AreDigits (d ∷ ds) rest c n cs e (h, _) v lt = strtoul-cons d (ds ++ rest) n h v lt

-- A value of R_SEED that is the decimal digits of n, behind spaces and before any text that does not
-- go on with a digit, n below 2^64, gives the seed n modulo 2^32: the digits are read back, and the
-- conversion to an unsigned int cuts them.
pub seed_of-decimal :
    (k n : ℕ) (rest : List ℕ)
    → NoDigit rest
    → n < 2 ^ 64
    → seed_of (some (replicate k b' ' ++ (decimal n ++ rest))) ≡ n % 2 ^ 32
unfolding seed_of
seed_of-decimal k n rest stop lt =
    let (c, cs, e) = decimal_from_cons n n in
    let read : digits 0 (decimal n ++ rest) ≡ n =
      digits-append (decimal n) rest 0 (decimal_from-AreDigits (suc n) n)
      ∙ digits-NoDigit rest (digits 0 (decimal n)) stop
      ∙ digits-decimal_from (suc n) n (omega arith) in
    rw (
      strtoul-replicate k (decimal n ++ rest),
      strtoul-AreDigits (decimal n) rest c n cs e (decimal_from-AreDigits (suc n) n) read lt,
    )
