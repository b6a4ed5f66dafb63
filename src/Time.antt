-- ===== src/Time.antt =====
-- The time service: connectivity/ccsds/ccsds_time_service.c and .h. An `int64_t` is its 64-bit
-- pattern, and its arithmetic wraps. The calls of Zephyr and of the TM frame generator are
-- parameters on a world; a packet is given to the handler with an unused user pointer, which is
-- left out.
pub mod Clock
pub mod Reports
mod Examples
use akira_ccsds.Base.{
  ℕ, zero, suc, ◌+◌, ◌-◌, ◌*◌, ◌/◌, ◌%◌, ◌^◌, ◌≤◌, ◌<◌, min, max, bit_or, bit_xor,
}
use akira_ccsds.Base.{◌≡◌, refl, sym, ap, ap₂, ◌∙◌, ◌≢◌, ◌↔◌, ◌⊎◌, inl, inr, arith}
use akira_ccsds.Base.{
  Bool, true, false, ◌&&◌, ◌||◌, not, Option, none, some, List, [], ◌∷◌, ◌++◌, map, append_assoc,
  append-nil,
}
use akira_ccsds.Base.{
  ltb, leb, ◌==◌, if◌then◌else◌, ltb→lt, leb→le, ltb→ge, lt→ltb, ge→ltb, ==_iff, ==_refl,
  Bool-cases, Option-cases, all_below, all_below_sound,
}
use akira_ccsds.Base.{
  length, get_or, set, take, drop, replicate, All, length-append, length-set, length-take,
  length-drop, length-replicate, take-append-drop, take-append, drop-append, take_all, take-set,
  set_beyond, get_or-take, set_back, All-set, get_or-append, concat, prepend, prepend-eq-some,
  get_or-set_self, get_or-set_ne, get_or_ext, All-append, All-take, All-drop,
}
use akira_ccsds.Base.{
  IsByte, AllBytes, u8, u16, u32, shr, shl, low_bits, test_bit, byte_at, get_be16, be16, be32,
  get_be32, be64, get_be64, byte_at-IsByte, all_bytes_sound,
}
use akira_ccsds.Base.{
  Errno, einval, emsgsize, enospc, enoent, eio, eacces, enotsup, Result, ok, err, ◌>>=◌, Code,
  success, failure, other,
}
use akira_ccsds.SpacePacket.{SpacePacket, primary_hdr_len, sequence_unsegmented, encode}
use akira_ccsds.Router.{Router, register_apid}

abbrev pub service_apid : ℕ
service_apid = 0

abbrev pub fine_units : ℕ
fine_units = 2 ^ 16

abbrev pub payload_len : ℕ
payload_len = 7

abbrev pub period_seconds : ℕ
period_seconds = 10

abbrev pub func_set : ℕ
func_set = 1

abbrev pub func_adjust : ℕ
func_adjust = 2

abbrev pub func_ping : ℕ
func_ping = 0xff

-- `(int64_t)(int32_t)x` and `(int64_t)(int16_t)x`
unfoldable pub sign_extend32 : ℕ → ℕ
sign_extend32 x = if ltb x (2 ^ 31) then x else 2 ^ 64 - 2 ^ 32 + x

unfoldable pub sign_extend16 : ℕ → ℕ
sign_extend16 x = if ltb x (2 ^ 15) then x else 2 ^ 64 - 2 ^ 16 + x

abbrev pub add64 : ℕ → ℕ → ℕ
add64 x y = (x + y) % 2 ^ 64

abbrev pub sub64 : ℕ → ℕ → ℕ
sub64 x y = (x + (2 ^ 64 - y)) % 2 ^ 64

-- `x / d` and `x % d` of an `int64_t` and a positive `d`, which round towards 0.
unfoldable pub quotient : ℕ → ℕ → ℕ
quotient x d = if ltb x (2 ^ 63) then x / d else (2 ^ 64 - (2 ^ 64 - x) / d) % 2 ^ 64

unfoldable pub remainder : ℕ → ℕ → ℕ
remainder x d = if ltb x (2 ^ 63) then x % d else (2 ^ 64 - (2 ^ 64 - x) % d) % 2 ^ 64

-- The static variables, without the work item and the buffer.
pub record Time : Type 0 where
  pub work_initialized : Bool
  pub running : Bool
  pub vcid : ℕ
  pub sequence_count : ℕ
  pub offset_ticks : ℕ

pub record Ops (W : Type 0) : Type 0 where
  pub uptime_ticks : W → ℕ × W
  pub frame_add : ℕ → List ℕ → W → W
  pub work_init : W → W
  pub work_schedule : ℕ → W → W
  pub work_cancel : W → W

-- The statics, and everything outside.
pub record State (W : Type 0) : Type 0 where
  pub time : Time
  pub world : W

-- CONFIG_SYS_CLOCK_TICKS_PER_SEC
module _ (ticks_per_sec : ℕ) where
  -- The packet at a tick of the service's clock, with the seconds and the fraction in its payload.
  unfoldable pub report_payload : ℕ → ℕ → List ℕ
  report_payload func_id now_ticks =
      let s = u32 (quotient now_ticks ticks_per_sec) in
      let f_ticks = u32 (remainder now_ticks ticks_per_sec) in
      let f = u16 (f_ticks * fine_units / ticks_per_sec) in u8 func_id ∷ (be32 s ++ be16 f)

  unfoldable pub report_packet : Time → List ℕ → SpacePacket
  report_packet time payload = record {
    version = 0;
    type = 0;
    secondary_header = false;
    apid = service_apid;
    sequence_flags = sequence_unsegmented;
    sequence_count = time.sequence_count;
    payload = payload;
  }

  -- `(int64_t)s * TICKS + ((int64_t)f * TICKS) / FINE_UNITS`, also with `s_adj` and `f_adj`
  unfoldable pub ticks_of : ℕ → ℕ → ℕ
  ticks_of s f =
      add64 (s * ticks_per_sec % 2 ^ 64) (quotient (f * ticks_per_sec % 2 ^ 64) fine_units)

  module _ {W : Type 0} (ops : Ops W) where
    unfoldable pub build_tm_packet : ℕ → ℕ → State W → Result (List ℕ) × State W
    build_tm_packet func_id cap st =
        let uptime = ops.uptime_ticks st.world in
        let now_ticks = add64 uptime.0 st.time.offset_ticks in
        let packet = report_packet st.time (report_payload func_id now_ticks) in
        elim (encode packet cap) [
          | err e ↦ (err e, record { time = st.time; world = uptime.1 })
          | ok bytes ↦
              let count = low_bits (st.time.sequence_count + 1) 14 in
              (
                ok bytes,
                record { time = record (st.time) { sequence_count = count }; world = uptime.1 },
              )
        ]

    -- `build_tm_packet` and `ccsds_tm_frame_add`, as the work handler and the ping call them.
    unfoldable pub report : ℕ → State W → State W
    report func_id st =
        let built = build_tm_packet func_id (primary_hdr_len + payload_len + 1) st in
        elim (built.0) [
          | err e ↦ built.1
          | ok bytes ↦ record {
            time = built.1.time;
            world = ops.frame_add built.1.time.vcid bytes built.1.world;
          }
        ]

    unfoldable pub work_handler : State W → State W
    work_handler st =
        let after = report 0 st in
        if not st.time.running
        then st
        else if after.time.running
        then record { time = after.time; world = ops.work_schedule period_seconds after.world }
        else after

    unfoldable pub handle_tc_packet : SpacePacket → State W → Code × State W
    handle_tc_packet packet st =
        let func = byte_at packet.payload 0 in
        let s = get_be32 packet.payload 1 in
        let f = get_be16 packet.payload 5 in
        let uptime = ops.uptime_ticks st.world in
        let target = sub64 (ticks_of s f) uptime.0 in
        let adjusted = add64 st.time.offset_ticks (ticks_of (sign_extend32 s) (sign_extend16 f)) in
        if length packet.payload == 0
        then (failure einval, st)
        else if func == func_ping
        then (success, report func_ping st)
        else if func == func_set
        then if ltb (length packet.payload) 7 then (failure einval, st) else (
          success,
          record { time = record (st.time) { offset_ticks = target }; world = uptime.1 },
        )
        else if func == func_adjust
        then if ltb (length packet.payload) 7 then (failure einval, st) else (
          success,
          record { time = record (st.time) { offset_ticks = adjusted }; world = st.world },
        )
        else (failure enotsup, st)

    unfoldable pub ensure_work : State W → State W
    ensure_work st = if st.time.work_initialized then st else record {
      time = record (st.time) { work_initialized = true };
      world = ops.work_init st.world;
    }

    -- `ccsds_time_service_init`
    unfoldable pub init : {H U : Type 0} → H → Router H U → State W → Result (Router H U) × State W
    init handler router st = (register_apid router service_apid handler none, ensure_work st)

    -- `ccsds_time_service_start`
    unfoldable pub start : ℕ → State W → Code × State W
    start vcid st =
        let begun =
          ensure_work (record {
            time = record (st.time) { vcid = vcid; running = true };
            world = st.world;
          }) in
        if ltb 7 vcid
        then (failure einval, st)
        else (success, record { time = begun.time; world = ops.work_schedule 0 begun.world })

    -- `ccsds_time_service_stop`
    unfoldable pub stop : State W → State W
    stop st = record {
      time = record (st.time) { running = false };
      world = ops.work_cancel st.world;
    }
