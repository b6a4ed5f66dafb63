-- ===== src/Tm/Delivery.antt =====
-- What a route mask selects.
use native.Mathlib.Nat as Nat
use native.Mathlib.Nat.{pow-suc}
use akira_ccsds.Base.{ℕ, zero, suc, ◌+◌, ◌-◌, ◌*◌, ◌/◌, ◌%◌, ◌^◌, ◌<◌}
use akira_ccsds.Base.{◌≡◌, refl, sym, ap, ◌∙◌, inl, inr, arith}
use akira_ccsds.Base.{Option, List, [], ◌∷◌}
use akira_ccsds.Base.{◌==◌, if◌then◌else◌, Bool-cases}
use akira_ccsds.Base.{test_bit}
use akira_ccsds.Base.Fields.{pow_doubles}
use akira_ccsds.Tm.State.{PipeOps, Tm}
use akira_ccsds.Tm.State.{vc_at}
use akira_ccsds.Tm.Routes.{call_route, route_loop, route_frame}

pow-pos : (k : ℕ) → 0 < 2 ^ k
pow-pos zero = omega arith
pow-pos (suc k) = omega (arith, pow-suc 2 k, pow-pos k)

div-pow-suc : (m k : ℕ) → m / 2 ^ suc k ≡ m / 2 ^ k / 2
div-pow-suc m k = ap (λ t. m / t) (pow-suc 2 k) ∙ sym (Nat.div-div-eq-div-mul m (2 ^ k) 2)

-- Clearing the lowest bit that is left.
cleared_odd : (q k : ℕ) → q % 2 ≡ 1 → q * 2 ^ k - 2 ^ k ≡ q / 2 * 2 ^ suc k
cleared_odd q k odd = omega (
  arith,
  pow_doubles k (q / 2),
  ap (λ t. t * 2 ^ k) (omega_half q odd),
  Nat.add-mul (2 * (q / 2)) 1 (2 ^ k),
  Nat.mul_assoc 2 (q / 2) (2 ^ k),
)
  where
    omega_half : (n : ℕ) → n % 2 ≡ 1 → n ≡ 2 * (n / 2) + 1
    omega_half n h = omega arith

cleared_even : (q k : ℕ) → q % 2 ≡ 0 → q * 2 ^ k ≡ q / 2 * 2 ^ suc k
cleared_even q k even = omega (
  arith,
  pow_doubles k (q / 2),
  ap (λ t. t * 2 ^ k) (omega_half q even),
  Nat.mul_assoc 2 (q / 2) (2 ^ k),
)
  where
    omega_half : (n : ℕ) → n % 2 ≡ 0 → n ≡ 2 * (n / 2)
    omega_half n h = omega arith

mul_zero_iff : (q p : ℕ) → 0 < p → q * p ≡ 0 → q ≡ 0
mul_zero_iff zero p some_p h = refl
mul_zero_iff (suc q) p some_p h = absurd (omega (arith, Nat.add-mul q 1 p))

module _ {R W : Type 0} (call : R → ℕ → List ℕ → W → W) where
  -- Every callback whose bit of the mask is set, in the order of the bits from `bit_num` on.
  abbrev pub call_selected : List (Option R) → ℕ → ℕ → ℕ → List ℕ → W → W
  call_selected [] bit_num mask vcid frame w = w
  call_selected (r ∷ routes) bit_num mask vcid frame w =
      call_selected routes (suc bit_num) mask vcid frame
        (if test_bit mask bit_num then call_route call r vcid frame w else w)

  call_selected-none :
      (routes : List (Option R)) (k mask vcid : ℕ) (frame : List ℕ) (w : W)
      → mask / 2 ^ k ≡ 0
      → call_selected routes k mask vcid frame w ≡ w
  call_selected-none [] k mask vcid frame w h = refl
  call_selected-none (r ∷ routes) k mask vcid frame w h = ground (
    arith,
    h,
    call_selected-none routes (suc k) mask vcid frame w (omega (arith, div-pow-suc mask k)),
  )

  -- The loop with the bits of the mask from `k` on.
  route_loop_lem :
      (routes : List (Option R)) (k q mask vcid : ℕ) (frame : List ℕ) (w : W)
      → mask / 2 ^ k ≡ q
      → route_loop call routes k (q * 2 ^ k) vcid frame w ≡ call_selected routes k mask vcid frame w
  unfolding route_loop
  route_loop_lem [] k q mask vcid frame w h = refl
  route_loop_lem (r ∷ routes) k q mask vcid frame w h = elim (Bool-cases (q % 2 == 1)) [
    | inl odd ↦ ground (
      arith,
      h,
      Nat.mul-div_cancel q (pow-pos k),
      cleared_odd q k (ground arith),
      mul_zero_iff q (2 ^ k) (pow-pos k),
      route_loop_lem routes (suc k) (q / 2) mask vcid frame (call_route call r vcid frame w)
          (omega (arith, div-pow-suc mask k)),
    )
    | inr even ↦ ground (
      arith,
      h,
      Nat.mul-div_cancel q (pow-pos k),
      cleared_even q k (ground arith),
      mul_zero_iff q (2 ^ k) (pow-pos k),
      call_selected-none routes (suc k) mask vcid frame w,
      div-pow-suc mask k,
      route_loop_lem routes (suc k) (q / 2) mask vcid frame w (omega (arith, div-pow-suc mask k)),
    )
  ]

  module _ {P C : Type 0} (ops : PipeOps P) where
    -- A frame is handed to the callbacks that are registered for the bits of its channel's mask,
    -- each once, in the order of the bits, and to no other.
    pub route_frame-selected :
        (tm : Tm P R C) (vcid : ℕ) (frame : List ℕ) (w : W)
        → route_frame call ops tm vcid frame w
          ≡ call_selected tm.routes 0 (vc_at ops tm vcid).route_mask vcid frame w
    unfolding route_frame
    route_frame-selected tm vcid frame w =
        ap (λ m. route_loop call tm.routes 0 m vcid frame w)
          (mask_whole (vc_at ops tm vcid).route_mask)
        ∙ route_loop_lem tm.routes 0 (vc_at ops tm vcid).route_mask (vc_at ops tm vcid).route_mask
            vcid frame w (omega arith)
      where
        mask_whole : (m : ℕ) → m ≡ m * 2 ^ 0
        mask_whole m = omega arith
