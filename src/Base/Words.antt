-- ===== src/Base/Words.antt =====
-- Machine words: casts, shifts, low masks, and the big-endian accessors of Zephyr's
-- `sys/byteorder.h` as the sources use them. A byte array is a list of numbers below 256.
use Prim.Native.Nat.{ℕ, ◌+◌, ◌*◌, ◌/◌, ◌%◌, ◌^◌, ◌<◌, zero, suc}
use mathlib.Core.Bool.{Bool, true, ◌&&◌}
use mathlib.Core.Path.{◌≡◌}
use mathlib.Core.List.{List, [], ◌∷◌, ◌++◌}
use native.Mathlib.Omega.{arith}
use akira_ccsds.Base.Tests.{◌==◌, ltb}
use akira_ccsds.Base.Lists.{get_or, All}

abbrev pub IsByte : ℕ → Type 0
IsByte b = b < 256

abbrev pub AllBytes : List ℕ → Type 0
AllBytes = All IsByte

abbrev pub u8 : ℕ → ℕ
u8 n = n % 2 ^ 8

abbrev pub u16 : ℕ → ℕ
u16 n = n % 2 ^ 16

abbrev pub u32 : ℕ → ℕ
u32 n = n % 2 ^ 32

abbrev pub shr : ℕ → ℕ → ℕ
shr x k = x / 2 ^ k

abbrev pub shl : ℕ → ℕ → ℕ
shl x k = x * 2 ^ k

-- `x & (2^k - 1)`
abbrev pub low_bits : ℕ → ℕ → ℕ
low_bits x k = x % 2 ^ k

-- `(x & (1 << k)) != 0`
abbrev pub test_bit : ℕ → ℕ → Bool
test_bit x k = x / 2 ^ k % 2 == 1

-- `buf[i]`; every caller has checked that it is in range
abbrev pub byte_at : List ℕ → ℕ → ℕ
byte_at buf i = get_or buf i 0

-- `sys_get_be16(&buf[i])`
abbrev pub get_be16 : List ℕ → ℕ → ℕ
get_be16 buf i = byte_at buf i * 256 + byte_at buf (suc i)

-- the two bytes that `sys_put_be16(w, &buf[i])` stores
abbrev pub be16 : ℕ → List ℕ
be16 w = (w / 256 % 256) ∷ (w % 256) ∷ []

-- the four bytes that `sys_put_be32(w, &buf[i])` stores
abbrev pub be32 : ℕ → List ℕ
be32 w = (w / 2 ^ 24 % 256) ∷ (w / 2 ^ 16 % 256) ∷ (w / 256 % 256) ∷ (w % 256) ∷ []

pub byte_at-IsByte : (xs : List ℕ) (i : ℕ) → AllBytes xs → IsByte (byte_at xs i)
byte_at-IsByte [] i h = omega arith
byte_at-IsByte (x ∷ xs) zero h = h.0
byte_at-IsByte (x ∷ xs) (suc i) h = byte_at-IsByte xs i h.1

abbrev pub all_bytes : List ℕ → Bool
all_bytes [] = true
all_bytes (x ∷ xs) = ltb x 256 && all_bytes xs

pub all_bytes_sound : (xs : List ℕ) → all_bytes xs ≡ true → AllBytes xs
all_bytes_sound [] h = tt
all_bytes_sound (x ∷ xs) h = (ground arith, all_bytes_sound xs (ground arith))

-- `sys_get_be32(&buf[i])`
abbrev pub get_be32 : List ℕ → ℕ → ℕ
get_be32 buf i = get_be16 buf i * 2 ^ 16 + get_be16 buf (suc (suc i))

-- the eight bytes that `sys_put_be64(w, buf)` stores
abbrev pub be64 : ℕ → List ℕ
be64 w = be32 (w / 2 ^ 32) ++ be32 w

-- `sys_get_be64(buf)`
abbrev pub get_be64 : List ℕ → ℕ
get_be64 buf = get_be32 buf 0 * 2 ^ 32 + get_be32 buf 4
