-- ===== src/Memory/Scanning.antt =====
-- The run-time's `strtok`, `strtoll` and `snprintf`, for PubSub/StatsManager/file_updating.cpp.
-- Strings here are texts, without their null byte.
pub mod Tokens
use ikp_projekat.Common.{
  ℕ, suc, ◌+◌, ◌*◌, ◌-◌, ◌%◌, ◌^◌, Bool, true, false, Option, none, some, List, [], ◌∷◌, ◌++◌, ◌&&◌,
  ◌||◌, ◌==◌, leb, ltb, if◌then◌else◌, ◌>>=◌, length, take,
}
use ikp_projekat.Memory.{Block, store}

-- The text up to a delimiter, and what follows the delimiter, which `strtok` overwrites.
unfoldable pub until : ℕ → List ℕ → List ℕ × List ℕ
until d [] = ([], [])
until d (c ∷ cs) = if c == d then ([], cs) else (c ∷ (until d cs).0, (until d cs).1)

-- The next token: delimiters in front are skipped, and there is none at the end of the text.
unfoldable pub next_token : ℕ → List ℕ → Option (List ℕ) × List ℕ
next_token d [] = (none, [])
next_token d (c ∷ cs) =
    if c == d then next_token d cs else (some (c ∷ (until d cs).0), (until d cs).1)

-- `strtok(string, d)`: a null pointer goes on in the text that the call before has left. The result
-- is the token, a null pointer for none, and what this call leaves.
unfoldable pub strtok : Option (List ℕ) → ℕ → List ℕ → Option (List ℕ) × List ℕ
strtok none d rest = next_token d rest
strtok (some string) d rest = next_token d string

abbrev pub is_digit : ℕ → Bool
is_digit c = leb b'0' c && leb c b'9'

abbrev pub is_space : ℕ → Bool
is_space c = (c == 32) || (leb 9 c && leb c 13)

-- The number that the digits in front stand for, onto the digits already read.
unfoldable pub digits_value : ℕ → List ℕ → ℕ
digits_value v [] = v
digits_value v (c ∷ cs) = if is_digit c then digits_value (v * 10 + (c - b'0')) cs else v

-- The largest `long long`.
abbrev pub llong_max : ℕ
llong_max = 2 ^ 63 - 1

abbrev pub at_most : ℕ → ℕ → ℕ
at_most bound n = if leb n bound then n else bound

-- `strtoll(text, NULL, 10)`, as the `uint64_t` that it is assigned to: out of range it is the nearest
-- `long long`.
unfoldable pub strtoll : List ℕ → ℕ
strtoll [] = 0
strtoll (c ∷ cs) =
    if is_space c
    then strtoll cs
    else if c == b'-'
    then (2 ^ 64 - at_most (suc llong_max) (digits_value 0 cs)) % 2 ^ 64
    else if c == b'+'
    then at_most llong_max (digits_value 0 cs)
    else at_most llong_max (digits_value 0 (c ∷ cs))

-- `snprintf(block + offset, size, ...)` of a text: as much of it as fits is written with a null byte,
-- and the length of all of it is returned.
unfoldable pub snprintf : Block → ℕ → ℕ → List ℕ → Option (Block × ℕ)
snprintf block offset size text =
    if size == 0
    then some (block, length text)
    else (do b ← store block offset (take (size - 1) text ++ 0 ∷ []); some (b, length text))
