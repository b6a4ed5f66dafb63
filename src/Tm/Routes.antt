-- ===== src/Tm/Routes.antt =====
-- Route masks, the table of route callbacks, and the hand-over of a frame to the callbacks that a
-- mask selects.
use akira_ccsds.Base.{ℕ, zero, suc, ◌-◌, ◌/◌, ◌%◌, ◌^◌}
use akira_ccsds.Base.{Bool, false, ◌||◌, not, Option, none, some, List, [], ◌∷◌}
use akira_ccsds.Base.{ltb, ◌==◌, if◌then◌else◌}
use akira_ccsds.Base.{set}
use akira_ccsds.Base.{shr}
use akira_ccsds.Base.{einval, Result, ok, err}
use Prim.Native.Nat.{bit_and}
use akira_ccsds.Tm.State.{max_vc_id}
use akira_ccsds.Tm.State.{PipeOps, Tm}
use akira_ccsds.Tm.State.{vc_at}

-- CCSDS_TM_SUPPORTED_ROUTE_MASK: bits 0 to 4 and 16 to 18.
abbrev pub supported_route_mask : ℕ
supported_route_mask = 0x7001f

unfoldable pub route_bit_is_valid : ℕ → Bool
route_bit_is_valid route_bit =
    if route_bit == 0
    then false
    else if not (bit_and route_bit (route_bit - 1) == 0)
    then false
    else not (bit_and route_bit supported_route_mask == 0)

-- `(route_mask & ~CCSDS_TM_SUPPORTED_ROUTE_MASK) == 0`, on 32 bits.
unfoldable pub route_mask_is_valid : ℕ → Bool
route_mask_is_valid route_mask = bit_and route_mask (0xffffffff - supported_route_mask) == 0

-- `while ((route_bit >> bit_num) != 1u) bit_num++`, on fuel; a 32-bit number needs 32 rounds.
unfoldable pub bit_index_from : ℕ → ℕ → ℕ → ℕ
bit_index_from zero bit_num route_bit = bit_num
bit_index_from (suc fuel) bit_num route_bit =
    let rest = bit_index_from fuel (suc bit_num) route_bit in
    if not (shr route_bit bit_num == 1) then rest else bit_num

unfoldable pub route_bit_index : ℕ → ℕ
route_bit_index route_bit = bit_index_from 32 0 route_bit

module _ {P R C : Type 0} where
  unfoldable pub register_route : Tm P R C → ℕ → R → Result (Tm P R C)
  register_route tm route_bit fn =
      if not (route_bit_is_valid route_bit)
      then err einval
      else ok (record tm { routes = set tm.routes (route_bit_index route_bit) (some fn) })

  unfoldable pub set_vc_route : PipeOps P → Tm P R C → ℕ → ℕ → Result (Tm P R C)
  set_vc_route ops tm vcid route_mask =
      if ltb max_vc_id vcid || not (route_mask_is_valid route_mask)
      then err einval
      else ok (record tm {
        vcs = set tm.vcs vcid (record (vc_at ops tm vcid) { route_mask = route_mask });
      })

  unfoldable pub get_vc_route : PipeOps P → Tm P R C → ℕ → Result ℕ
  get_vc_route ops tm vcid =
      if ltb max_vc_id vcid then err einval else ok (vc_at ops tm vcid).route_mask

-- `route->fn(vcid, frame, frame_len, user_data)`, whose result is ignored.
module _ {R W : Type 0} (call : R → ℕ → List ℕ → W → W) where
  abbrev pub call_route : Option R → ℕ → List ℕ → W → W
  call_route none vcid frame w = w
  call_route (some r) vcid frame w = call r vcid frame w

  -- The loop of `route_frame` over the table from `bit_num` on, with what is left of the mask.
  unfoldable pub route_loop : List (Option R) → ℕ → ℕ → ℕ → List ℕ → W → W
  route_loop [] bit_num route_mask vcid frame w = w
  route_loop (r ∷ routes) bit_num route_mask vcid frame w =
      let here = route_mask / 2 ^ bit_num % 2 == 1 in
      let mask' = if here then route_mask - 2 ^ bit_num else route_mask in
      let w' = if here then call_route r vcid frame w else w in
      let rest = route_loop routes (suc bit_num) mask' vcid frame w' in
      if not (route_mask == 0) then rest else w

  unfoldable pub route_frame : {P C : Type 0} → PipeOps P → Tm P R C → ℕ → List ℕ → W → W
  route_frame ops tm vcid frame w =
      route_loop tm.routes 0 (vc_at ops tm vcid).route_mask vcid frame w
