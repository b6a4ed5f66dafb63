-- ===== src/Base/Results.antt =====
-- Result codes. The functions of the CCSDS layer return 0 or a negated errno; `Result` carries
-- what they store through their output pointers when they return 0.
use Prim.Native.Nat.{ℕ}

-- The errno values that the sources name.
pub data Errno : Type 0 where
  einval emsgsize enospc enoent eio eacces enotsup : Errno

pub data Result {ℓ} (A : Type ℓ) : Type ℓ where
  ok : A → Result A
  err : Errno → Result A

infixl 5 ◌>>=◌
abbrev pub ◌>>=◌ {ℓ κ} : {A : Type ℓ} {B : Type κ} → Result A → (A → Result B) → Result B
ok a >>= f = f a
err e >>= f = err e

-- The `int` that a callback returns: 0, a negated errno, or any other value.
pub data Code : Type 0 where
  success : Code
  failure : Errno → Code
  other : ℕ → Code
