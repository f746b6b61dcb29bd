-- ===== src/Putils/Text/Strings.antt =====
-- The string at an address of a memory: the specification of `read_child_c_string`.
use reproduce.Prelude.{
  ℕ, zero, suc, ◌+◌, ◌≤◌, ◌<◌, ◌≡◌, refl, List, [], ◌∷◌, ◌++◌, ◌==◌, if◌then◌else◌, length, take,
  arith, ap, Bool-cases, inl, inr, length-take,
}

-- The bytes from an address on that stand before a 0, but no more than n.
unfoldable pub string_at : (m : ℕ → ℕ) → ℕ → ℕ → List ℕ
string_at m a zero = []
string_at m a (suc n) = if m a == 0 then [] else m a ∷ string_at m (a + 1) n

module _ (m : ℕ → ℕ) where
  pub length-string_at : (a n : ℕ) → length (string_at m a n) ≤ n
  unfolding string_at
  length-string_at a zero = omega arith
  length-string_at a (suc n) = ground (arith, length-string_at (a + 1) n)

  pub take-string_at : (a i n : ℕ) → i ≤ n → take i (string_at m a n) ≡ string_at m a i
  unfolding string_at
  take-string_at a zero n h = refl
  take-string_at a (suc i) zero h = absurd (omega arith)
  take-string_at a (suc i) (suc n) h = elim (Bool-cases (m a == 0)) [
    | inl e ↦ rw e
    | inr e ↦ rw e (ap (◌∷◌ (m a)) (take-string_at (a + 1) i n (omega arith)))
  ]

  -- A string that ends before the limit does not depend on the limit.
  pub string_at_stop :
      (a i n : ℕ)
      → length (string_at m a i) < i
      → length (string_at m a i) < n
      → string_at m a n ≡ string_at m a i
  unfolding string_at
  string_at_stop a zero n h g = absurd (omega arith)
  string_at_stop a (suc i) zero h g = absurd (omega arith)
  string_at_stop a (suc i) (suc n) h g = elim (Bool-cases (m a == 0)) [
    | inl e ↦ rw e
    | inr e ↦ rw e (ap (◌∷◌ (m a)) (string_at_stop (a + 1) i n (ground arith) (ground arith)))
  ]

  pub string_at-append :
      (a i n : ℕ)
      → length (string_at m a i) ≡ i
      → string_at m a (i + n) ≡ string_at m a i ++ string_at m (a + i) n
  unfolding string_at
  string_at-append a zero n h =
      let e : zero + n ≡ n = omega arith in let e' : a + zero ≡ a = omega arith in rw (e, e')
  string_at-append a (suc i) n h =
      let e : suc i + n ≡ suc (i + n) = omega arith in
      let e' : a + suc i ≡ a + 1 + i = omega arith in
      elim (Bool-cases (m a == 0)) [
        | inl z ↦ absurd (ground arith)
        | inr z ↦ rw (e, e', z) (ap (◌∷◌ (m a)) (string_at-append (a + 1) i n (ground arith)))
      ]

  -- As long as it does not end, a string has the prefix that has been read.
  pub le-length-string_at :
      (a i n : ℕ) → i ≤ n → length (string_at m a i) ≡ i → i ≤ length (string_at m a n)
  le-length-string_at a i n h e =
      omega (arith, ap (length {A = ℕ}) (take-string_at a i n h), length-take i (string_at m a n))
