-- ===== src/Time/Reports.antt =====
-- What the time service sends: the packet of a report, and the answer to a ping after the time was
-- set.
use akira_ccsds.Base.{ℕ, ◌+◌, ◌*◌, ◌%◌, ◌^◌, ◌≤◌, ◌<◌}
use akira_ccsds.Base.{◌≡◌, refl, sym, ap, ◌∙◌, arith}
use akira_ccsds.Base.{false, List, [], ◌∷◌, ◌++◌, append-nil}
use akira_ccsds.Base.{length, AllBytes, byte_at, get_be16, get_be32, be16, be32}
use akira_ccsds.Base.{ok, success}
use akira_ccsds.SpacePacket.{SpacePacket, encode, decode}
use akira_ccsds.SpacePacket.RoundTrip.{IsWellFormed, decode-encode}
use akira_ccsds.Time.{
  func_set, func_ping, add64, sub64, Ops, State, report_payload, report_packet, ticks_of,
  build_tm_packet, report, handle_tc_packet,
}
use akira_ccsds.Time.Clock.{
  IsRate, report_payload-set, handle_tc_packet-set, get_be16-lt, get_be32-lt,
}

-- A report as a Space Packet.
abbrev pub report_with : ℕ → List ℕ → SpacePacket
report_with count payload = record {
  version = 0;
  type = 0;
  secondary_header = false;
  apid = 0;
  sequence_flags = 3;
  sequence_count = count;
  payload = payload;
}

report_with-IsWellFormed :
    (count : ℕ) (payload : List ℕ)
    → count < 2 ^ 14
    → length payload ≡ 7
    → IsWellFormed (report_with count payload)
report_with-IsWellFormed count payload small seven = record {
  version_fits = omega arith;
  type_fits = omega arith;
  apid_fits = omega arith;
  flags_fit = omega arith;
  count_fits = small;
  payload_present = omega (arith, seven);
  payload_fits = omega (arith, seven);
}

module _ {W : Type 0} (ticks_per_sec : ℕ) (ops : Ops W) where
  build_tm_packet-encoded :
      (func_id cap : ℕ) (st : State W) {payload bytes : List ℕ}
      → report_payload ticks_per_sec func_id
          (add64 (ops.uptime_ticks st.world).0 st.time.offset_ticks)
        ≡ payload
      → encode (report_with st.time.sequence_count payload) cap ≡ ok bytes
      → build_tm_packet ticks_per_sec ops func_id cap st ≡ (
        ok bytes,
        record {
          time = record (st.time) { sequence_count = (st.time.sequence_count + 1) % 2 ^ 14 };
          world = (ops.uptime_ticks st.world).1;
        },
      )
  unfolding build_tm_packet report_packet
  build_tm_packet-encoded func_id cap st shown stored =
      ground (arith, ap (λ p. encode (report_with st.time.sequence_count p) cap) shown ∙ stored)

  report-encoded :
      (func_id : ℕ) (st : State W) {payload bytes : List ℕ}
      → report_payload ticks_per_sec func_id
          (add64 (ops.uptime_ticks st.world).0 st.time.offset_ticks)
        ≡ payload
      → encode (report_with st.time.sequence_count payload) 14 ≡ ok bytes
      → report ticks_per_sec ops func_id st ≡ record {
        time = record (st.time) { sequence_count = (st.time.sequence_count + 1) % 2 ^ 14 };
        world = ops.frame_add st.time.vcid bytes (ops.uptime_ticks st.world).1;
      }
  unfolding report
  report-encoded func_id st shown stored =
      ground (arith, build_tm_packet-encoded func_id 14 st shown stored)

  report_sent :
      (func_id : ℕ) (st : State W) (payload : List ℕ)
      → report_payload ticks_per_sec func_id
          (add64 (ops.uptime_ticks st.world).0 st.time.offset_ticks)
        ≡ payload
      → st.time.sequence_count < 2 ^ 14
      → length payload ≡ 7
      → (bytes : List ℕ) × (report ticks_per_sec ops func_id st ≡ record {
        time = record (st.time) { sequence_count = (st.time.sequence_count + 1) % 2 ^ 14 };
        world = ops.frame_add st.time.vcid bytes (ops.uptime_ticks st.world).1;
      })
        × (decode bytes ≡ ok (report_with st.time.sequence_count payload))
  report_sent func_id st payload shown small seven =
      let (bytes, stored, read) =
        decode-encode (report_with st.time.sequence_count payload) 14 []
          (report_with-IsWellFormed st.time.sequence_count payload small seven)
          (omega (arith, seven)) in
      (bytes, report-encoded func_id st shown stored, ap decode (sym (append-nil bytes)) ∙ read)

  handle_tc_packet-ping :
      (packet : SpacePacket) (st : State W)
      → 1 ≤ length packet.payload
      → byte_at packet.payload 0 ≡ func_ping
      → handle_tc_packet ticks_per_sec ops packet st
        ≡ (success, report ticks_per_sec ops func_ping st)
  unfolding handle_tc_packet
  handle_tc_packet-ping packet st some is_ping = rw is_ping (ground (arith, some))

  -- After a telecommand that sets the time, a ping at the same tick of the kernel's clock is
  -- answered by one packet, which is handed to the virtual channel of the service and decodes to a
  -- report with the function code of the ping, the seconds of the first telecommand, and a fraction
  -- that is not larger than the one of that telecommand and smaller by less than one tick and one
  -- unit. The sequence count goes up by one,
  -- modulo 2 ^ 14. The rate is from 1 to 2 ^ 30 ticks a second, the sequence count has 14 bits, and the
  -- payload that sets the time has the function code, the time, and any bytes behind.
  pub handle_tc_packet-shown :
      (set ping : SpacePacket) (st : State W)
      → IsRate ticks_per_sec
      → AllBytes set.payload
      → 7 ≤ length set.payload
      → byte_at set.payload 0 ≡ func_set
      → 1 ≤ length ping.payload
      → byte_at ping.payload 0 ≡ func_ping
      → st.time.sequence_count < 2 ^ 14
      → (ops.uptime_ticks st.world).0 < 2 ^ 64
      → (ops.uptime_ticks (ops.uptime_ticks st.world).1).0 ≡ (ops.uptime_ticks st.world).0
      → ((handle_tc_packet ticks_per_sec ops set st).0 ≡ success)
        × ((bytes : List ℕ) × (fine : ℕ) × ((handle_tc_packet ticks_per_sec ops ping
                (handle_tc_packet ticks_per_sec ops set st).1).0
              ≡ success)
            × ((handle_tc_packet ticks_per_sec ops ping
                  (handle_tc_packet ticks_per_sec ops set st).1).1.world
                ≡ ops.frame_add st.time.vcid bytes
                    (ops.uptime_ticks (ops.uptime_ticks st.world).1).1)
            × ((handle_tc_packet ticks_per_sec ops ping
                  (handle_tc_packet ticks_per_sec ops set st).1).1.time.sequence_count
                ≡ (st.time.sequence_count + 1) % 2 ^ 14)
            × (decode bytes
                ≡ ok (
                    report_with st.time.sequence_count
                      (255 ∷ (be32 (get_be32 set.payload 1) ++ be16 fine))))
            × (fine ≤ get_be16 set.payload 5)
            × (get_be16 set.payload 5 * ticks_per_sec
                < fine * ticks_per_sec + ticks_per_sec + 2 ^ 16))
  handle_tc_packet-shown set ping st r bytes enough is_set some is_ping small up still =
      let done_set = handle_tc_packet-set ticks_per_sec ops set st enough is_set in
      let s = get_be32 set.payload 1 in
      let f = get_be16 set.payload 5 in
      let uptime = ops.uptime_ticks st.world in
      let (fine, shown, below, near) =
        report_payload-set ticks_per_sec s f uptime.0 func_ping r (get_be32-lt set.payload 1 bytes)
          (get_be16-lt set.payload 5 bytes) up in
      let offset = sub64 (ticks_of ticks_per_sec s f) uptime.0 in
      let after : State W = record {
        time = record (st.time) { offset_ticks = offset };
        world = uptime.1;
      } in
      let (packet, sent, read) =
        report_sent func_ping after (255 ∷ (be32 s ++ be16 fine))
          (ap (λ n. report_payload ticks_per_sec func_ping (add64 n offset)) still ∙ shown) small
          refl in
      let answered =
        ap (λ z. handle_tc_packet ticks_per_sec ops ping z.1) done_set
        ∙ handle_tc_packet-ping ping after some is_ping in
      (
        ap (λ z. z.0) done_set,
        (
          packet,
          fine,
          ap (λ z. z.0) answered,
          ap (λ z. z.1.world) answered ∙ ap (λ z. z.world) sent,
          ap (λ z. z.1.time.sequence_count) answered ∙ ap (λ z. z.time.sequence_count) sent,
          read,
          below,
          near,
        ),
      )
