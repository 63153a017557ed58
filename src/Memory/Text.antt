-- ===== src/Memory/Text.antt =====
-- What the run-time's string functions do on a null-terminated string.
use ikp_projekat.Common.{
  ℕ, ◌+◌, ◌≡◌, refl, ◌≢◌, true, some, List, [], ◌∷◌, ◌++◌, arith, ==_refl, ==_of_ne, le→leb, length,
  length-append, take-append_length, append_assoc,
}
use ikp_projekat.Memory.{Block, load, strlen, c_str, same_text}

-- No byte of the text is `c`.
abbrev pub Avoids : ℕ → List ℕ → Type 0
Avoids c [] = Unit
Avoids c (x ∷ xs) = (x ≢ c) × Avoids c xs

-- The block that holds a text, its null byte, and whatever comes after.
abbrev pub terminated : List ℕ → Block → Block
terminated t rest = t ++ 0 ∷ rest

pub strlen-terminated :
    (t : List ℕ) (rest : Block) → Avoids 0 t → strlen (terminated t rest) ≡ some (length t)
unfolding strlen
strlen-terminated [] rest h = refl
strlen-terminated (x ∷ xs) rest h = rw (==_of_ne x 0 h.0, strlen-terminated xs rest h.1)

pub c_str-terminated : (t : List ℕ) (rest : Block) → Avoids 0 t → c_str (terminated t rest) ≡ some t
unfolding c_str
c_str-terminated [] rest h = refl
c_str-terminated (x ∷ xs) rest h = rw (==_of_ne x 0 h.0, c_str-terminated xs rest h.1)

pub same_text_refl : (t : List ℕ) → same_text t t ≡ true
unfolding same_text
same_text_refl [] = refl
same_text_refl (x ∷ xs) = rw (==_refl x) (same_text_refl xs)

pub same_text→eq : (s t : List ℕ) → same_text s t ≡ true → s ≡ t
unfolding same_text
same_text→eq [] [] h = refl
same_text→eq [] (y ∷ ys) h = cc
same_text→eq (x ∷ xs) [] h = cc
same_text→eq (x ∷ xs) (y ∷ ys) h = ground (arith, same_text→eq xs ys)

pub load-append : (xs ys : Block) → load (xs ++ ys) (length xs) ≡ some xs
unfolding load
load-append xs ys = rw (
  le→leb (length xs) (length (xs ++ ys)) (omega (arith, length-append xs ys)),
  take-append_length xs ys,
)

pub Avoids-append : (c : ℕ) (xs ys : List ℕ) → Avoids c xs → Avoids c ys → Avoids c (xs ++ ys)
Avoids-append c [] ys hx hy = hy
Avoids-append c (x ∷ xs) ys hx hy = (hx.0, Avoids-append c xs ys hx.1 hy)

-- A C string with its null byte.
pub load-terminated :
    (t : List ℕ) (rest : Block) → load (terminated t rest) (length t + 1) ≡ some (t ++ 0 ∷ [])
load-terminated t rest = rw (append_assoc t (0 ∷ []) rest, next) at (load-append (t ++ 0 ∷ []) rest)
  where
    next : length (t ++ 0 ∷ []) ≡ length t + 1
    next = omega (arith, length-append t (0 ∷ []))
