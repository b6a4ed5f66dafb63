-- ===== src/Base/Fields.antt =====
-- `|` of disjoint bit fields as a sum, at every width.
use Prim.Native.Nat.{digits, bitwise, bit_or-bitwise}
use mathlib.Core.WellFounded.{Acc, WellFounded}
use native.Mathlib.Nat.{pow-suc}
use Prim.Native.Nat.{ℕ, zero, suc, ◌+◌, ◌*◌, ◌/◌, ◌%◌, ◌^◌, ◌≤◌, ◌<◌, max, bit_or}
use mathlib.Core.Path.{◌≡◌, refl, ap, ◌∙◌}
use mathlib.Core.Logic.{◌⊎◌, inl, inr}
use native.Mathlib.Omega.{arith}

below_or_at : (a bound : ℕ) → a ≤ suc bound → (a ≤ bound) ⊎ (suc bound ≡ a)
below_or_at zero bound fits = inl (omega arith)
below_or_at (suc a) zero fits = inr (omega arith)
below_or_at (suc a) (suc bound) fits = elim (below_or_at a bound (omega arith)) [
  | inl lower ↦ inl (omega arith)
  | inr equal ↦ inr (omega arith)
]

-- The binary digits of a bit operation, with fuel beyond the first operand.
module _ (rest : ℕ → ℕ) (combine : ℕ → ℕ → ℕ) where
  one_more :
      (fuel x y : ℕ) → x ≤ fuel → digits rest combine (suc fuel) x y ≡ digits rest combine fuel x y
  one_more zero zero y fits = refl
  one_more zero (suc x) y fits = absurd (omega arith)
  one_more (suc fuel) zero y fits = refl
  one_more (suc fuel) (suc x) y fits =
      ap (λ t. t * 2 + combine (suc x % 2) (y % 2))
        (one_more fuel (suc x / 2) (y / 2) (omega arith))

  least_fuel : (fuel x y : ℕ) → x ≤ fuel → digits rest combine fuel x y ≡ digits rest combine x x y
  least_fuel zero zero y fits = refl
  least_fuel zero (suc x) y fits = absurd (omega arith)
  least_fuel (suc fuel) x y fits = elim (below_or_at x fuel fits) [
    | inl lower ↦ one_more fuel x y lower ∙ least_fuel fuel x y lower
    | inr equal ↦ ap (λ t. digits rest combine t x y) equal
  ]

  -- The lowest digit of the operation, the others as the operation on the halves.
  pub bitwise-suc :
      (x y : ℕ)
      → bitwise rest combine (suc x) y
        ≡ bitwise rest combine (suc x / 2) (y / 2) * 2 + combine (suc x % 2) (y % 2)
  bitwise-suc x y =
      ap (λ t. t * 2 + combine (suc x % 2) (y % 2)) (least_fuel x (suc x / 2) (y / 2) (omega arith))

Acc-below : (k n : ℕ) → n < k → Acc ◌<◌ n
Acc-below zero n h = absurd (omega arith)
Acc-below (suc k) n h = Acc.intro n (λ m hm. Acc-below k m (omega arith))

pub lt_wf : WellFounded ◌<◌
lt_wf = record { apply = λ n. Acc-below (suc n) n (omega arith) }

-- The two parts of `|`: all digits but the lowest, and the lowest.
or_parts :
    (x y : ℕ) → (bit_or x y / 2 ≡ bit_or (x / 2) (y / 2)) × (bit_or x y % 2 ≡ max (x % 2) (y % 2))
or_parts zero y = simp bit_or-bitwise (omega arith, omega arith)
or_parts (suc x) y =
    let digit = bitwise-suc (λ t. t) max x y in
    simp bit_or-bitwise (omega (arith, digit), omega (arith, digit))

or_nothing : (bound x : ℕ) → x ≤ bound → bit_or x 0 ≡ x
or_nothing bound zero fits = simp bit_or-bitwise refl
or_nothing zero (suc x) fits = absurd (omega arith)
or_nothing (suc bound) (suc x) fits =
    let parts = or_parts (suc x) 0 in
    omega (arith, parts.0, parts.1, or_nothing bound (suc x / 2) (omega arith))

pub pow_doubles : (k n : ℕ) → 2 * (n * 2 ^ k) ≡ n * 2 ^ suc k
pow_doubles k n =
    let expanded : n * 2 ^ suc k ≡ n * (2 ^ k * 2) = ap (λ (t : ℕ). n * t) (pow-suc 2 k) in
    omega (arith, expanded)

-- `(high << k) | low` is a sum when `low` has at most `k` bits.
pub bit_or_fields : (k high low : ℕ) → low < 2 ^ k → bit_or (high * 2 ^ k) low ≡ high * 2 ^ k + low
bit_or_fields zero high low small =
    let none_low : low ≡ 0 = omega arith in
    let unshifted : high * 2 ^ 0 ≡ high = omega arith in
    rw (none_low, unshifted) (omega (arith, or_nothing high high (omega arith)))
bit_or_fields (suc k) high low small =
    let parts = or_parts (high * 2 ^ suc k) low in
    let halved : high * 2 ^ suc k / 2 ≡ high * 2 ^ k = omega (arith, pow_doubles k high) in
    let upper =
      parts.0
      ∙ (ap (λ t. bit_or t (low / 2)) halved
          ∙ bit_or_fields k high (low / 2) (omega (arith, pow-suc 2 k))) in
    omega (arith, upper, parts.1, pow_doubles k high)
