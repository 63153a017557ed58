-- ===== src/Memory/Scanning/Tokens.antt =====
-- What `strtok` and `strtoll` read of what `snprintf` has written.
use ikp_projekat.Common.{
  ℕ, zero, suc, ◌+◌, ◌*◌, ◌-◌, ◌%◌, ◌/◌, ◌^◌, ◌<◌, ◌≤◌, ◌≡◌, refl, sym, ap, ◌∙◌, true, false, some,
  List, [], ◌∷◌, ◌++◌, ◌==◌, ltb, length, arith, ==_of_ne, ==_refl, Bool-cases, inl, inr, ltb→lt,
}
use native.Mathlib.Nat.{pow-suc}
use ikp_projekat.Memory.Text.{Avoids}
use ikp_projekat.Memory.Decimal.{
  digits_onto, digits_onto-head, max_digits, decimal, length-digits_onto-le,
}
use ikp_projekat.Memory.Scanning.{
  until, next_token, is_digit, is_space, digits_value, strtoll, at_most, llong_max,
}

until-last : (d : ℕ) (t : List ℕ) → Avoids d t → until d t ≡ (t, [])
unfolding until
until-last d [] h = refl
until-last d (c ∷ cs) h = rw (==_of_ne c d h.0, until-last d cs h.1)

until-delimiter : (d : ℕ) (t rest : List ℕ) → Avoids d t → until d (t ++ d ∷ rest) ≡ (t, rest)
unfolding until
until-delimiter d [] rest h = rw (==_refl d)
until-delimiter d (c ∷ cs) rest h = rw (==_of_ne c d h.0, until-delimiter d cs rest h.1)

-- The text is not empty.
abbrev pub NonEmpty : List ℕ → Type 0
NonEmpty t = 0 < length t

-- A token that a delimiter ends.
pub next_token-delimiter :
    (d : ℕ) (t rest : List ℕ)
    → Avoids d t
    → NonEmpty t
    → next_token d (t ++ d ∷ rest) ≡ (some t, rest)
unfolding next_token
next_token-delimiter d [] rest h n = absurd (omega arith)
next_token-delimiter d (c ∷ cs) rest h n = rw (==_of_ne c d h.0, until-delimiter d cs rest h.1)

-- A token that the end of the text ends.
pub next_token-last : (d : ℕ) (t : List ℕ) → Avoids d t → NonEmpty t → next_token d t ≡ (some t, [])
unfolding next_token
next_token-last d [] h n = absurd (omega arith)
next_token-last d (c ∷ cs) h n = rw (==_of_ne c d h.0, until-last d cs h.1)

digits_onto-Avoids :
    (c fuel n : ℕ) (acc : List ℕ) → c < b'0' → Avoids c acc → Avoids c (digits_onto fuel n acc)
unfolding digits_onto
digits_onto-Avoids c zero n acc small h = h
digits_onto-Avoids c (suc fuel) n acc small h = elim (Bool-cases (ltb n 10)) [
  | inl last ↦ rw last (λ e. omega arith, h)
  | inr more ↦
      rw more
        (digits_onto-Avoids c fuel (n / 10) ((b'0' + n % 10) ∷ acc) small (λ e. omega arith, h))
]

-- No digit is a delimiter.
pub decimal-Avoids : (c n : ℕ) → c < b'0' → Avoids c (decimal n)
unfolding decimal
decimal-Avoids c n small = digits_onto-Avoids c max_digits n [] small tt

digit_value :
    (v d : ℕ) (cs : List ℕ)
    → d < 10
    → digits_value v ((b'0' + d) ∷ cs) ≡ digits_value (v * 10 + d) cs
unfolding digits_value
digit_value v d cs h = rw (digit, same)
  where
    digit : is_digit (b'0' + d) ≡ true
    digit = ground arith

    same : v * 10 + ((b'0' + d) - b'0') ≡ v * 10 + d
    same = omega arith

digits_value-onto :
    (fuel n : ℕ) (acc : List ℕ)
    → n < 10 ^ fuel
    → digits_value 0 (digits_onto fuel n acc) ≡ digits_value n acc
unfolding digits_onto
digits_value-onto zero n acc h = ap (λ k. digits_value k acc) zero_n
  where
    zero_n : 0 ≡ n
    zero_n = omega (arith, h)
digits_value-onto (suc fuel) n acc h = elim (Bool-cases (ltb n 10)) [
  | inl last ↦
      let at_n : 0 * 10 + n ≡ n = omega arith in
      rw (last, digit_value 0 n acc (ltb→lt n 10 last), at_n) refl
  | inr more ↦
      let at_n : n / 10 * 10 + n % 10 ≡ n = omega arith in
      rw
        (
          more,
          digits_value-onto fuel (n / 10) ((b'0' + n % 10) ∷ acc) (omega (arith, pow-suc 10 fuel)),
          digit_value (n / 10) (n % 10) acc (omega arith),
          at_n,
        )
        refl
]

-- A text that begins with a digit has neither space nor sign in front.
strtoll-digit :
    (d : ℕ) (ds : List ℕ)
    → strtoll ((b'0' + d) ∷ ds) ≡ at_most llong_max (digits_value 0 ((b'0' + d) ∷ ds))
unfolding strtoll
strtoll-digit d ds = rw (no_space, ==_of_ne (b'0' + d) b'-' (λ e. omega arith), no_plus) refl
  where
    no_space : is_space (b'0' + d) ≡ false
    no_space = ground arith

    no_plus : (b'0' + d == b'+') ≡ false
    no_plus = ==_of_ne (b'0' + d) b'+' (λ e. omega arith)

digits_value_nil : (n : ℕ) → digits_value n [] ≡ n
unfolding digits_value
digits_value_nil n = refl

-- `strtoll` reads a number of 64 bits back, up to the largest `long long`.
pub strtoll-decimal : (n : ℕ) → n < 2 ^ 64 → strtoll (decimal n) ≡ at_most llong_max n
unfolding decimal
strtoll-decimal n h =
    let (d, ds, e) = digits_onto-head 19 n [] in rw (e, strtoll-digit d ds, sym e, value) refl
  where
    value : digits_value 0 (digits_onto max_digits n []) ≡ n
    value = digits_value-onto max_digits n [] (omega (arith, h)) ∙ digits_value_nil n

pub decimal-NonEmpty : (n : ℕ) → NonEmpty (decimal n)
unfolding decimal
decimal-NonEmpty n = let (d, ds, e) = digits_onto-head 19 n [] in rw e (omega arith)

pub length-decimal-le : (n : ℕ) → n < 2 ^ 64 → length (decimal n) ≤ max_digits
unfolding decimal
length-decimal-le n h = omega (arith, length-digits_onto-le 19 max_digits n [] (omega (arith, h)))
