-- ===== src/Memory/Decimal.antt =====
-- The decimal digits that `_itoa_s` and `%llu` write.
use ikp_projekat.Common.{
  ℕ, zero, suc, ◌+◌, ◌/◌, ◌%◌, ◌^◌, ◌≤◌, ◌<◌, ◌≡◌, Option, none, some, List, [], ◌⊎◌, ◌∷◌, ◌++◌,
  arith, ltb, if◌then◌else◌, length, ap, Bool-cases, inl, inr, lt→ltb, not_ltb,
}
use native.Mathlib.Nat.{pow-suc}
use ikp_projekat.Memory.{Block}

-- Digits are put in front of those already written; no number of 64 bits has more than 20.
unfoldable pub digits_onto : ℕ → ℕ → List ℕ → List ℕ
digits_onto zero n acc = acc
digits_onto (suc fuel) n acc =
    let more = digits_onto fuel (n / 10) ((b'0' + n % 10) ∷ acc) in
    if ltb n 10 then (b'0' + n) ∷ acc else more

abbrev pub max_digits : ℕ
max_digits = 20

unfoldable pub decimal : ℕ → List ℕ
decimal n = digits_onto max_digits n []

-- `_itoa_s(n, buffer, size, 10)`: the run-time aborts where the digits and the null byte do not fit.
unfoldable pub itoa_s : ℕ → ℕ → Option Block
itoa_s n size = if ltb (length (decimal n)) size then some (decimal n ++ 0 ∷ []) else none

-- Numbers below `10 ^ k` have at most `k` digits, others have more.
pub length-digits_onto-le :
    (k fuel n : ℕ) (acc : List ℕ)
    → n < 10 ^ suc k
    → length (digits_onto fuel n acc) ≤ suc k + length acc
unfolding digits_onto
length-digits_onto-le k zero n acc h = omega arith
length-digits_onto-le zero (suc fuel) n acc h =
    let small : n < 10 = omega arith in rw (lt→ltb n 10 small) (omega arith)
length-digits_onto-le (suc k) (suc fuel) n acc h = elim (Bool-cases (ltb n 10)) [
  | inl last ↦ rw last (omega arith)
  | inr more ↦
      let rest =
        length-digits_onto-le k fuel (n / 10) ((b'0' + n % 10) ∷ acc)
          (omega (arith, pow-suc 10 (suc k))) in
      rw more (omega (arith, rest))
]

length-digits_onto_mono : (fuel n : ℕ) (acc : List ℕ) → length acc ≤ length (digits_onto fuel n acc)
unfolding digits_onto
length-digits_onto_mono zero n acc = omega arith
length-digits_onto_mono (suc fuel) n acc = elim (Bool-cases (ltb n 10)) [
  | inl last ↦ rw last (omega arith)
  | inr more ↦
      rw more (omega (arith, length-digits_onto_mono fuel (n / 10) ((b'0' + n % 10) ∷ acc)))
]

pow_pos : (k : ℕ) → 1 ≤ 10 ^ k
pow_pos zero = omega arith
pow_pos (suc k) = omega (arith, pow-suc 10 k, pow_pos k)

pub length-digits_onto-ge :
    (k fuel n : ℕ) (acc : List ℕ)
    → k < fuel
    → 10 ^ k ≤ n
    → suc k + length acc ≤ length (digits_onto fuel n acc)
unfolding digits_onto
length-digits_onto-ge k zero n acc f h = absurd (omega arith)
length-digits_onto-ge zero (suc fuel) n acc f h = elim (Bool-cases (ltb n 10)) [
  | inl last ↦ rw last (omega arith)
  | inr more ↦
      rw more (omega (arith, length-digits_onto_mono fuel (n / 10) ((b'0' + n % 10) ∷ acc)))
]
length-digits_onto-ge (suc k) (suc fuel) n acc f h =
    let rest =
      length-digits_onto-ge k fuel (n / 10) ((b'0' + n % 10) ∷ acc) (omega arith)
        (omega (arith, pow-suc 10 k)) in
    rw (not_ltb n 10 (omega (arith, pow-suc 10 k, pow_pos k))) (omega (arith, rest))

pub itoa_s-fits : (k n : ℕ) → n < 10 ^ suc k → itoa_s n (suc (suc k)) ≡ some (decimal n ++ 0 ∷ [])
unfolding itoa_s decimal
itoa_s-fits k n h = rw (
    lt→ltb (length (digits_onto max_digits n [])) (suc (suc k))
      (omega (arith, length-digits_onto-le k max_digits n [] h)))

pub itoa_s-aborts : (k n : ℕ) → k < max_digits → 10 ^ k ≤ n → itoa_s n (suc k) ≡ none
unfolding itoa_s decimal
itoa_s-aborts k n f h = rw (
    not_ltb (length (digits_onto max_digits n [])) (suc k)
      (omega (arith, length-digits_onto-ge k max_digits n [] f h)))

pub digits_onto-head :
    (fuel n : ℕ) (acc : List ℕ)
    → (d : ℕ) × (ds : List ℕ) × (digits_onto (suc fuel) n acc ≡ (b'0' + d) ∷ ds)
unfolding digits_onto
digits_onto-head zero n acc = elim (Bool-cases (ltb n 10)) [
  | inl last ↦ (n, acc, rw last)
  | inr more ↦ (n % 10, acc, rw more)
]
digits_onto-head (suc fuel) n acc = elim (Bool-cases (ltb n 10)) [
  | inl last ↦ (n, acc, rw last)
  | inr more ↦
      let (d, ds, e) = digits_onto-head fuel (n / 10) ((b'0' + n % 10) ∷ acc) in (d, ds, rw more e)
]

-- What `_itoa_s` writes begins with a digit.
pub itoa_s-head :
    (n size : ℕ)
    → (itoa_s n size ≡ none) ⊎ ((d : ℕ) × (ds : Block) × (itoa_s n size ≡ some ((b'0' + d) ∷ ds)))
unfolding itoa_s decimal
itoa_s-head n size = elim (Bool-cases (ltb (length (digits_onto max_digits n [])) size)) [
  | inl fits ↦
      let (d, ds, e) = digits_onto-head 19 n [] in
      inr (d, ds ++ 0 ∷ [], rw fits (ap (λ (l : List ℕ). some (l ++ 0 ∷ [])) e))
  | inr full ↦ inl (rw full)
]
