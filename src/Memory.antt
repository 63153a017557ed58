-- ===== src/Memory.antt =====
-- Blocks of bytes and the calls of the C run-time on them that the program makes: `malloc`,
-- `memcpy`, `strlen`, `strcpy_s`, `strcmp`. A `char*` is the list of the bytes from it to the end of
-- its block, so a read past the block is visible, and is `none`.
pub mod Text
pub mod Fill
pub mod Heap
pub mod Chain
pub mod Access
pub mod Decimal
pub mod Scanning
use ikp_projekat.Common.{
  ℕ, zero, suc, ◌+◌, Bool, true, false, Option, none, some, List, [], ◌∷◌, ◌++◌, ◌==◌, leb, ltb,
  if◌then◌else◌, ◌>>=◌, length, take, drop, get_elem?,
}

abbrev pub Block : Type 0
Block = List ℕ

-- The byte that begins a command and separates its parts.
abbrev pub hashtag : ℕ
hashtag = b'#'

-- `malloc(n)`, which does not fail: `garbage i` is what byte `i` happens to hold.
unfoldable pub malloc : (ℕ → ℕ) → ℕ → Block
malloc garbage zero = []
malloc garbage (suc n) = garbage 0 ∷ malloc (λ i. garbage (suc i)) n

-- `memcpy(block + offset, bytes, length bytes)`
unfoldable pub store : Block → ℕ → Block → Option Block
store block offset bytes =
    if leb (offset + length bytes) (length block)
    then some (take offset block ++ bytes ++ drop (offset + length bytes) block)
    else none

-- `block[i] = c`
abbrev pub put : Block → ℕ → ℕ → Option Block
put block i c = store block i (c ∷ [])

-- The `n` bytes from a pointer on, as `memcpy` reads them.
unfoldable pub load : Block → ℕ → Option Block
load block n = if leb n (length block) then some (take n block) else none

-- `strlen`: reads up to the first null byte.
unfoldable pub strlen : Block → Option ℕ
strlen [] = none
strlen (c ∷ cs) = if c == 0 then some 0 else (do n ← strlen cs; some (suc n))

-- The text of a C string: its bytes before the null byte.
unfoldable pub c_str : Block → Option (List ℕ)
c_str [] = none
c_str (c ∷ cs) = if c == 0 then some [] else (do t ← c_str cs; some (c ∷ t))

-- `strcpy_s(block + offset, size, source)`: the run-time aborts where `source` does not fit `size`.
unfoldable pub strcpy_s : Block → ℕ → ℕ → Block → Option Block
strcpy_s block offset size source = do
  n ← strlen source
  if ltb n size then (do bytes ← load source (n + 1); store block offset bytes) else none

-- Whether two texts are the same, as `!strcmp(a, b)` on strings that hold them.
unfoldable pub same_text : List ℕ → List ℕ → Bool
same_text [] [] = true
same_text (x ∷ xs) (y ∷ ys) = if x == y then same_text xs ys else false
same_text _ _ = false
