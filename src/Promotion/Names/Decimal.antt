-- ===== src/Promotion/Names/Decimal.antt =====
-- Two numbers with the same decimal digits are equal, and the digits are digits.
use stock_fixer.Prelude.{
  ℕ, zero, suc, ◌+◌, ◌-◌, ◌*◌, ◌/◌, ◌%◌, ◌<◌, ◌≡◌, refl, sym, ap, ◌∙◌, inl, inr, Bool, true, List,
  [], ◌∷◌, ◌++◌, arith, ltb, ltb→lt, Bool-cases,
}
use stock_fixer.Promotion.Names.{decimal_on, decimal, all_digits, underscore, match_number}

value_on : ℕ → List ℕ → ℕ
value_on v [] = v
value_on v (c ∷ cs) = value_on (v * 10 + (c - 48)) cs

value_on-append :
    (v : ℕ) (xs : List ℕ) (c : ℕ) → value_on v (xs ++ c ∷ []) ≡ value_on v xs * 10 + (c - 48)
unfolding value_on
value_on-append v [] c = refl
value_on-append v (x ∷ xs) c = value_on-append (v * 10 + (x - 48)) xs c

value_of-decimal_on : (fuel n : ℕ) → n < fuel → value_on 0 (decimal_on fuel n) ≡ n
unfolding decimal_on value_on
value_of-decimal_on zero n h = absurd (omega arith)
value_of-decimal_on (suc fuel) n h = elim (Bool-cases (ltb n 10)) [
  | inl y ↦ rw y (omega arith)
  | inr m ↦ rw m (
      ground (
        arith,
        m,
        value_on-append 0 (decimal_on fuel (n / 10)) (48 + n % 10),
        value_of-decimal_on fuel (n / 10),
      ))
]

pub decimal-injective : (m n : ℕ) → decimal m ≡ decimal n → m ≡ n
unfolding decimal
decimal-injective m n h =
    sym (value_of-decimal_on (suc m) m (omega arith))
    ∙ ap (λ l. value_on 0 l) h
    ∙ value_of-decimal_on (suc n) n (omega arith)

digits-append :
    (digit : ℕ → Bool) (xs ys : List ℕ)
    → all_digits digit xs ≡ true
    → all_digits digit ys ≡ true
    → all_digits digit (xs ++ ys) ≡ true
digits-append digit [] ys h k = k
digits-append digit (x ∷ xs) ys h k = ground (arith, digits-append digit xs ys)

-- `\d` accepts at least 0 to 9.
abbrev pub Digits : (ℕ → Bool) → Type 0
Digits digit = (n : ℕ) → n < 10 → digit (48 + n) ≡ true

pub decimal_on-digits :
    (digit : ℕ → Bool) (fuel n : ℕ) → Digits digit → all_digits digit (decimal_on fuel n) ≡ true
unfolding decimal_on
decimal_on-digits digit zero n h = refl
decimal_on-digits digit (suc fuel) n h = elim (Bool-cases (ltb n 10)) [
  | inl y ↦ rw (y, h n (ltb→lt n 10 y)) refl
  | inr m ↦ rw m (
      digits-append digit (decimal_on fuel (n / 10)) _ (decimal_on-digits digit fuel (n / 10) h)
        (rw (h (n % 10) (omega arith)) refl))
]

-- There is a first digit.
pub decimal_on-first :
    (digit : ℕ → Bool) (fuel n : ℕ)
    → Digits digit
    → (c : ℕ) × (cs : List ℕ) × (decimal_on (suc fuel) n ≡ c ∷ cs)
unfolding decimal_on
decimal_on-first digit fuel n h = elim (Bool-cases (ltb n 10)) [
  | inl y ↦ rw y (48 + n, [], refl)
  | inr m ↦ rw m (first (decimal_on fuel (n / 10)))
]
  where
    first : (xs : List ℕ) → (c : ℕ) × (cs : List ℕ) × (xs ++ (48 + n % 10) ∷ [] ≡ c ∷ cs)
    first [] = (48 + n % 10, [], refl)
    first (x ∷ xs) = (x, xs ++ (48 + n % 10) ∷ [], refl)

-- `(_\d+)?` matches an underscore with a number.
pub match_number-decimal :
    (digit : ℕ → Bool) (n : ℕ) → Digits digit → match_number digit (underscore ∷ decimal n) ≡ true
unfolding decimal
match_number-decimal digit n h =
    let (c, cs, e) = decimal_on-first digit n n h in
    by_first (decimal_on (suc n) n) (decimal_on-digits digit (suc n) n h) c cs e
  where
    by_first :
        (l : List ℕ)
        → all_digits digit l ≡ true
        → (c : ℕ) (cs : List ℕ) → l ≡ c ∷ cs
        → match_number digit (underscore ∷ l) ≡ true
    by_first [] k c cs e = ground arith
    by_first (x ∷ xs) k c cs e = k
