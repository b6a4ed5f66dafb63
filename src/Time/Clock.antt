-- ===== src/Time/Clock.antt =====
-- The clock of the time service: what the payload of a report shows after the time was set.
use akira_ccsds.Base.{ℕ, suc, ◌+◌, ◌*◌, ◌/◌, ◌%◌, ◌^◌, ◌≤◌, ◌<◌}
use akira_ccsds.Base.{◌≡◌, refl, sym, ap, ap₂, ◌∙◌, arith}
use akira_ccsds.Base.{List, ◌∷◌, ◌++◌}
use akira_ccsds.Base.{lt→ltb}
use akira_ccsds.Base.{length}
use akira_ccsds.Base.{
  AllBytes, u8, u16, u32, byte_at, get_be16, be16, be32, get_be32, byte_at-IsByte,
}
use akira_ccsds.Base.{success}
use akira_ccsds.Time.{func_set}
use akira_ccsds.Time.{add64, sub64, quotient, remainder, Ops, State}
use akira_ccsds.Time.{report_payload, ticks_of, handle_tc_packet}
use akira_ccsds.SpacePacket.{SpacePacket}
use native.Mathlib.Nat.{
  mod-eq_of_lt, mul-add-div_right, div-eq_of_lt, div-add-mod', div-lt_iff_lt-mul, div-mul-le_self,
  lt-div-mul-add, mul-le-mul_right, div-le_of_le-mul, mul_comm,
}

-- A tick rate that the kernel can have.
abbrev pub IsRate : ℕ → Type 0
IsRate t = (1 ≤ t) × (t ≤ 2 ^ 30)

-- The fraction of a second, as a number of ticks, that a fine time stands for.
abbrev fraction : ℕ → ℕ → ℕ
fraction t f = f * t / 2 ^ 16

fraction-lt : (t f : ℕ) → IsRate t → f < 2 ^ 16 → fraction t f < t
fraction-lt t f r lt =
    let below = mul-le-mul_right {m = suc f} {n = 2 ^ 16} t lt in
    (div-lt_iff_lt-mul {k = 2 ^ 16} {x = f * t} {y = t} (omega arith)).1 (omega (arith, below, r.0))

seconds_back : (t s q : ℕ) → IsRate t → q < t → (s * t + q) / t ≡ s
seconds_back t s q r lt = mul-add-div_right {m = t} r.0 s q ∙ rw (div-eq_of_lt lt) (omega arith)

fraction_back : (t s q : ℕ) → IsRate t → q < t → (s * t + q) % t ≡ q
fraction_back t s q r lt =
    let whole : s * t + (s * t + q) % t ≡ s * t + q =
      ap (λ n. n * t + (s * t + q) % t) (sym (seconds_back t s q r lt))
      ∙ div-add-mod' (s * t + q) t in
    omega (arith, whole)

ticks_small : (t s q : ℕ) → IsRate t → s < 2 ^ 32 → q < t → s * t + q < 2 ^ 63
ticks_small t s q r lt small =
    let below = mul-le-mul_right {m = suc s} {n = 2 ^ 32} t lt in omega (arith, below, r.1)

quotient_small : (x d : ℕ) → x < 2 ^ 63 → quotient x d ≡ x / d
unfolding quotient
quotient_small x d lt = rw (lt→ltb x (2 ^ 63) lt) refl

remainder_small : (x d : ℕ) → x < 2 ^ 63 → remainder x d ≡ x % d
unfolding remainder
remainder_small x d lt = rw (lt→ltb x (2 ^ 63) lt) refl

fine_small : (t q : ℕ) → IsRate t → q < t → q * 2 ^ 16 / t < 2 ^ 16
fine_small t q r lt =
    (div-lt_iff_lt-mul {k = t} {x = q * 2 ^ 16} {y = 2 ^ 16} r.0).1 (omega (arith, lt))

report_payload-ticks :
    (t s q func_id : ℕ)
    → IsRate t
    → s < 2 ^ 32
    → q < t
    → report_payload t func_id (s * t + q) ≡ u8 func_id ∷ (be32 s ++ be16 (q * 2 ^ 16 / t))
unfolding report_payload
report_payload-ticks t s q func_id r lt small =
    let fits = ticks_small t s q r lt small in
    let seconds : u32 (quotient (s * t + q) t) ≡ s =
      ap (λ n. u32 n) (quotient_small (s * t + q) t fits ∙ seconds_back t s q r small)
      ∙ mod-eq_of_lt lt in
    let ticks : u32 (remainder (s * t + q) t) ≡ q =
      ap (λ n. u32 n) (remainder_small (s * t + q) t fits ∙ fraction_back t s q r small)
      ∙ mod-eq_of_lt (omega (arith, small, r.1)) in
    ap₂ (λ n f. u8 func_id ∷ (be32 n ++ be16 f)) seconds
      (ap (λ n. u16 (n * 2 ^ 16 / t)) ticks ∙ mod-eq_of_lt (fine_small t q r small))

ticks_of_lem :
    (t s f : ℕ) → IsRate t → s < 2 ^ 32 → f < 2 ^ 16 → ticks_of t s f ≡ s * t + fraction t f
unfolding ticks_of
ticks_of_lem t s f r lt small =
    let product = ticks_small t f 0 r (omega (arith, small)) r.0 in
    let whole = ticks_small t s 0 r lt r.0 in
    let part : quotient (f * t % 2 ^ 64) (2 ^ 16) ≡ fraction t f =
      ap (λ n. quotient n (2 ^ 16)) (mod-eq_of_lt (omega (arith, product)))
      ∙ quotient_small (f * t) (2 ^ 16) (omega (arith, product)) in
    ap₂ (λ n m. add64 n m) (mod-eq_of_lt (omega (arith, whole))) part
    ∙ mod-eq_of_lt (omega (arith, ticks_small t s (fraction t f) r lt (fraction-lt t f r small)))

rounding :
    (t f : ℕ)
    → IsRate t
    → f < 2 ^ 16
    → (fraction t f * 2 ^ 16 / t ≤ f) × (f * t < fraction t f * 2 ^ 16 / t * t + t + 2 ^ 16)
rounding t f r lt = (
  div-le_of_le-mul t (omega (arith, div-mul-le_self (f * t) (2 ^ 16), mul_comm t f)),
  omega (
    arith,
    lt-div-mul-add {a = fraction t f * 2 ^ 16} {b = t} r.0,
    lt-div-mul-add {a = f * t} {b = 2 ^ 16} (omega arith),
  ),
)

pub handle_tc_packet-set :
    {W : Type 0} (t : ℕ) (ops : Ops W) (packet : SpacePacket) (st : State W)
    → 7 ≤ length packet.payload
    → byte_at packet.payload 0 ≡ func_set
    → handle_tc_packet t ops packet st ≡ (
      success,
      record {
        time = record (st.time) {
          offset_ticks =
              sub64
                (ticks_of t (get_be32 packet.payload 1) (get_be16 packet.payload 5))
                (ops.uptime_ticks st.world).0;
        };
        world = (ops.uptime_ticks st.world).1;
      },
    )
unfolding handle_tc_packet
handle_tc_packet-set t ops packet st enough is_set = rw is_set (ground (arith, enough))

-- The clock shows the time that it was set to.
set_clock : (x up : ℕ) → x < 2 ^ 63 → up < 2 ^ 64 → add64 up (sub64 x up) ≡ x
set_clock x up small fits = omega (arith, small, fits)

pub get_be16-lt : (xs : List ℕ) (i : ℕ) → AllBytes xs → get_be16 xs i < 2 ^ 16
get_be16-lt xs i bytes = omega (arith, byte_at-IsByte xs i bytes, byte_at-IsByte xs (suc i) bytes)

pub get_be32-lt : (xs : List ℕ) (i : ℕ) → AllBytes xs → get_be32 xs i < 2 ^ 32
get_be32-lt xs i bytes = omega (arith, get_be16-lt xs i bytes, get_be16-lt xs (suc (suc i)) bytes)

-- The payload of a report at the same tick of the kernel's clock, after the time was set to `s` and
-- `f` at `up`.
pub report_payload-set :
    (t s f up func_id : ℕ)
    → IsRate t
    → s < 2 ^ 32
    → f < 2 ^ 16
    → up < 2 ^ 64
    → (fine : ℕ) × (report_payload t func_id (add64 up (sub64 (ticks_of t s f) up))
        ≡ u8 func_id ∷ (be32 s ++ be16 fine))
      × (fine ≤ f)
      × (f * t < fine * t + t + 2 ^ 16)
report_payload-set t s f up func_id r sl fl fits =
    let small = ticks_small t s (fraction t f) r sl (fraction-lt t f r fl) in
    let shown : add64 up (sub64 (ticks_of t s f) up) ≡ s * t + fraction t f =
      ap (λ n. add64 up (sub64 n up)) (ticks_of_lem t s f r sl fl)
      ∙ set_clock (s * t + fraction t f) up small fits in
    (
      fraction t f * 2 ^ 16 / t,
      ap (λ n. report_payload t func_id n) shown
          ∙ report_payload-ticks t s (fraction t f) func_id r sl (fraction-lt t f r fl),
      (rounding t f r fl).0,
      (rounding t f r fl).1,
    )
