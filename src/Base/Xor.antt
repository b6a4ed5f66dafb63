-- ===== src/Base/Xor.antt =====
-- The laws of `^`: it cancels, it associates and commutes, it keeps a width, and it works field by
-- field.
use Prim.Native.Nat.{bit_xor-bitwise, differ}
use Prim.Native.Nat.{ℕ, zero, suc, ◌+◌, ◌-◌, ◌*◌, ◌/◌, ◌%◌, ◌^◌, ◌<◌, bit_xor}
use mathlib.Core.WellFounded as Wf
use mathlib.Core.Path.{◌≡◌, refl, sym, ap, ◌∙◌}
use native.Mathlib.Nat.{pow-suc, div-div-eq-div-mul, mod-eq-sub-mul-div, mul-div-le, mul_assoc}
use native.Mathlib.Omega.{arith}
use akira_ccsds.Base.Fields.{bitwise-suc, lt_wf}

differ_lem : (a b : ℕ) → differ a b ≡ (a - b) + (b - a)
differ_lem zero b = omega arith
differ_lem (suc a) zero = omega arith
differ_lem (suc a) (suc b) = omega (arith, differ_lem a b)

-- One binary digit of `^`.
pub bit_xor_step :
    (a b : ℕ) → bit_xor a b ≡ bit_xor (a / 2) (b / 2) * 2 + ((a % 2 - b % 2) + (b % 2 - a % 2))
bit_xor_step zero b = simp bit_xor-bitwise (omega arith)
bit_xor_step (suc a) b =
    simp bit_xor-bitwise
      (omega (arith, bitwise-suc (λ y. y) differ a b, differ_lem (suc a % 2) (b % 2)))

pub zero-bit_xor : (b : ℕ) → bit_xor 0 b ≡ b
zero-bit_xor b = simp bit_xor-bitwise refl

pub bit_xor-zero : (a : ℕ) → bit_xor a 0 ≡ a
bit_xor-zero a = Wf.induction lt_wf {C = λ k. bit_xor k 0 ≡ k} a step
  where
    step : (n : ℕ) → ((m : ℕ) → m < n → bit_xor m 0 ≡ m) → bit_xor n 0 ≡ n
    step zero ih = refl
    step (suc n) ih = omega (arith, bit_xor_step (suc n) 0, ih (suc n / 2) (omega arith))

pub bit_xor_comm : (a b : ℕ) → bit_xor a b ≡ bit_xor b a
bit_xor_comm a = Wf.induction lt_wf {C = λ k. (b : ℕ) → bit_xor k b ≡ bit_xor b k} a step
  where
    step :
        (n : ℕ)
        → ((m : ℕ) → m < n → (b : ℕ) → bit_xor m b ≡ bit_xor b m)
        → (b : ℕ) → bit_xor n b ≡ bit_xor b n
    step zero ih b = zero-bit_xor b ∙ sym (bit_xor-zero b)
    step (suc n) ih b = omega (
      arith,
      bit_xor_step (suc n) b,
      bit_xor_step b (suc n),
      ih (suc n / 2) (omega arith) (b / 2),
    )

pub bit_xor_self : (a : ℕ) → bit_xor a a ≡ 0
bit_xor_self a = Wf.induction lt_wf {C = λ k. bit_xor k k ≡ 0} a step
  where
    step : (n : ℕ) → ((m : ℕ) → m < n → bit_xor m m ≡ 0) → bit_xor n n ≡ 0
    step zero ih = refl
    step (suc n) ih = omega (arith, bit_xor_step (suc n) (suc n), ih (suc n / 2) (omega arith))

half : (a b : ℕ) → bit_xor a b / 2 ≡ bit_xor (a / 2) (b / 2)
half a b = omega (arith, bit_xor_step a b)

parity : (a b : ℕ) → bit_xor a b % 2 ≡ (a % 2 - b % 2) + (b % 2 - a % 2)
parity a b = omega (arith, bit_xor_step a b)

pub bit_xor_assoc : (a b c : ℕ) → bit_xor (bit_xor a b) c ≡ bit_xor a (bit_xor b c)
bit_xor_assoc a =
    Wf.induction lt_wf {C = λ k. (b c : ℕ) → bit_xor (bit_xor k b) c ≡ bit_xor k (bit_xor b c)} a
      step
  where
    step :
        (n : ℕ)
        → ((m : ℕ) → m < n → (b c : ℕ) → bit_xor (bit_xor m b) c ≡ bit_xor m (bit_xor b c))
        → (b c : ℕ) → bit_xor (bit_xor n b) c ≡ bit_xor n (bit_xor b c)
    step zero ih b c = rw (zero-bit_xor b, zero-bit_xor (bit_xor b c)) refl
    step (suc n) ih b c =
        bit_xor_step (bit_xor (suc n) b) c
        ∙ rw (half (suc n) b, parity (suc n) b, ih (suc n / 2) (omega arith) (b / 2) (c / 2))
            (sym (bit_xor_step (suc n) (bit_xor b c) ∙ rw (half b c, parity b c) (omega arith)))

-- `^` with the same value twice gives the first value back.
pub bit_xor_cancel : (a b : ℕ) → bit_xor (bit_xor a b) b ≡ a
bit_xor_cancel a b = rw (bit_xor_assoc, bit_xor_self, bit_xor-zero) refl

pub bit_xor-lt : (k a b : ℕ) → a < 2 ^ k → b < 2 ^ k → bit_xor a b < 2 ^ k
bit_xor-lt zero a b p q =
    let e : a ≡ 0 = omega arith in let f : b ≡ 0 = omega arith in rw (e, f) (omega arith)
bit_xor-lt (suc k) a b p q = omega (
  arith,
  pow-suc 2 k,
  bit_xor_step a b,
  bit_xor-lt k (a / 2) (b / 2) (omega (arith, pow-suc 2 k)) (omega (arith, pow-suc 2 k)),
)

pub bit_xor_double : (a b : ℕ) → bit_xor (a * 2) (b * 2) ≡ bit_xor a b * 2
bit_xor_double a b =
    bit_xor_step (a * 2) (b * 2)
    ∙ let da : a * 2 / 2 ≡ a = omega arith in
      let db : b * 2 / 2 ≡ b = omega arith in rw (da, db) (omega arith)

-- `^` works bit by bit: it commutes with right shifts, left shifts and low masks.
pub bit_xor-shr : (k a b : ℕ) → bit_xor a b / 2 ^ k ≡ bit_xor (a / 2 ^ k) (b / 2 ^ k)
bit_xor-shr zero a b =
    let da : a / 1 ≡ a = omega arith in
    let db : b / 1 ≡ b = omega arith in rw (da, db) (omega arith)
bit_xor-shr (suc k) a b =
    rw (down a, down b, down (bit_xor a b), half a b) (bit_xor-shr k (a / 2) (b / 2))
  where
    down : (x : ℕ) → x / 2 ^ suc k ≡ x / 2 / 2 ^ k
    down x = rw (div-div-eq-div-mul x 2 (2 ^ k)) (ap (λ t. x / t) (omega (arith, pow-suc 2 k)))

pub bit_xor-shl : (k a b : ℕ) → bit_xor (a * 2 ^ k) (b * 2 ^ k) ≡ bit_xor a b * 2 ^ k
bit_xor-shl zero a b =
    let da : a * 1 ≡ a = omega arith in
    let db : b * 1 ≡ b = omega arith in rw (da, db) (omega arith)
bit_xor-shl (suc k) a b =
    rw (up a, up b, up (bit_xor a b), bit_xor_double) (ap (λ t. t * 2) (bit_xor-shl k a b))
  where
    up : (x : ℕ) → x * 2 ^ suc k ≡ x * 2 ^ k * 2
    up x = omega (arith, ap (λ (t : ℕ). x * t) (pow-suc 2 k))

pub bit_xor-mod : (k a b : ℕ) → bit_xor a b % 2 ^ k ≡ bit_xor (a % 2 ^ k) (b % 2 ^ k)
bit_xor-mod zero a b =
    let da : a % 1 ≡ 0 = omega arith in
    let db : b % 1 ≡ 0 = omega arith in rw (da, db) (omega arith)
bit_xor-mod (suc k) a b =
    low (bit_xor a b)
    ∙ rw (half a b, parity a b, bit_xor-mod k (a / 2) (b / 2))
        (sym (
          bit_xor_step (a % 2 ^ suc k) (b % 2 ^ suc k)
          ∙ rw (low_half a, low_half b, low_parity a, low_parity b) refl))
  where
    scaled : (x : ℕ) → 2 ^ suc k * (x / 2 ^ suc k) ≡ 2 * (2 ^ k * (x / 2 / 2 ^ k))
    scaled x =
        let twice : 2 ^ suc k ≡ 2 * 2 ^ k = omega (arith, pow-suc 2 k) in
        rw (twice, ← div-div-eq-div-mul) (mul_assoc 2 (2 ^ k) (x / 2 / 2 ^ k))

    low : (x : ℕ) → x % 2 ^ suc k ≡ x / 2 % 2 ^ k * 2 + x % 2
    low x = omega (
      arith,
      mod-eq-sub-mul-div x (2 ^ suc k),
      mod-eq-sub-mul-div (x / 2) (2 ^ k),
      mul-div-le (x / 2) (2 ^ k),
      scaled x,
    )

    low_half : (x : ℕ) → x % 2 ^ suc k / 2 ≡ x / 2 % 2 ^ k
    low_half x = omega (arith, low x)

    low_parity : (x : ℕ) → x % 2 ^ suc k % 2 ≡ x % 2
    low_parity x = omega (arith, low x)

pub bit_xor_swap : (a b c : ℕ) → bit_xor (bit_xor a b) c ≡ bit_xor (bit_xor a c) b
bit_xor_swap a b c =
    bit_xor_assoc a b c ∙ ap (λ t. bit_xor a t) (bit_xor_comm b c) ∙ sym (bit_xor_assoc a c b)

pub eq_of_bit_xor : (a b : ℕ) → bit_xor a b ≡ 0 → a ≡ b
eq_of_bit_xor a b e = sym (bit_xor_cancel a b) ∙ ap (λ t. bit_xor t b) e ∙ zero-bit_xor b
