-- ===== src/Memory/Fill.antt =====
-- A fresh block that is written from its start to its end.
use ikp_projekat.Common.{
  ℕ, zero, suc, ◌+◌, ◌≤◌, ◌≡◌, refl, ap, some, [], ◌∷◌, ◌++◌, arith, le→leb, lt→ltb, length, drop,
  drop_all, append-nil, length-append, take-append_length, drop-append_add, length-drop,
}
use ikp_projekat.Memory.{Block, malloc, put, store, strcpy_s}
use ikp_projekat.Memory.Text.{Avoids, terminated, strlen-terminated, load-terminated}

pub length-malloc : (garbage : ℕ → ℕ) (n : ℕ) → length (malloc garbage n) ≡ n
unfolding malloc
length-malloc garbage zero = refl
length-malloc garbage (suc n) = ap suc (length-malloc (λ i. garbage (suc i)) n)

-- A write just behind what is already written.
pub store-next :
    (written rest bytes : Block) (n : ℕ)
    → n ≡ length written
    → length bytes ≤ length rest
    → store (written ++ rest) n bytes ≡ some (written ++ bytes ++ drop (length bytes) rest)
unfolding store
store-next written rest bytes n e fits = rw (
  e,
  le→leb (length written + length bytes) (length (written ++ rest))
      (omega (arith, length-append written rest)),
  take-append_length written rest,
  drop-append_add written rest (length bytes),
)

-- `strcpy_s` of a string of just the size, behind what is already written.
pub strcpy_s-next :
    (written rest t tail : Block) (n size : ℕ)
    → Avoids 0 t
    → n ≡ length written
    → size ≡ suc (length t)
    → size ≤ length rest
    → strcpy_s (written ++ rest) n size (terminated t tail)
      ≡ some (written ++ (t ++ 0 ∷ []) ++ drop size rest)
unfolding strcpy_s
strcpy_s-next written rest t tail n size clean e s fits =
    rw
      (strlen-terminated t tail clean, lt→ltb (length t) size (omega arith), load-terminated t tail)
      (rw (store-next written rest (t ++ 0 ∷ []) n e (omega (arith, length-terminated))) (
        ap (λ k. some (written ++ (t ++ 0 ∷ []) ++ drop k rest))
          (omega (arith, length-terminated))))
  where
    length-terminated : length (t ++ 0 ∷ []) ≡ suc (length t)
    length-terminated = omega (arith, length-append t (0 ∷ []))

-- A fresh block that just holds a text takes the text and then its null byte.
module _ (fresh t : Block) (room : length fresh ≡ suc (length t)) where
  pub text_stored : store fresh 0 t ≡ some (t ++ drop (length t) fresh)
  text_stored = store-next [] fresh t 0 refl (omega arith)

  pub null_stored : put (t ++ drop (length t) fresh) (length t) 0 ≡ some (terminated t [])
  null_stored =
      rw
        (store-next t (drop (length t) fresh) (0 ∷ []) (length t) refl
          (omega (arith, length-drop {0})))
        (rw (drop_all (drop (length t) fresh) 1 (omega (arith, length-drop {0}))) (rw append-nil))

-- A block that is full is given a null byte for its last byte.
pub last_cleared :
    (w : Block) (x n : ℕ) → n ≡ length w → put (w ++ x ∷ []) n 0 ≡ some (terminated w [])
last_cleared w x n e = rw (store-next w (x ∷ []) (0 ∷ []) n e (omega arith)) (rw append-nil)
