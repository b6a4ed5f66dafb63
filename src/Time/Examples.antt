-- ===== src/Time/Examples.antt =====
-- The time service at concrete inputs, with a clock of 100 ticks a second.
use akira_ccsds.Base.{ℕ, ◌+◌, ◌-◌, ◌*◌, ◌^◌, ◌≤◌, ◌<◌}
use akira_ccsds.Base.{◌≡◌, refl, arith}
use akira_ccsds.Base.{true, false, List, [], ◌∷◌}
use akira_ccsds.Base.{be16, all_bytes_sound}
use akira_ccsds.Base.{enotsup, ok, success, failure}
use akira_ccsds.Time.{sign_extend32}
use akira_ccsds.Time.{sign_extend16, quotient, remainder, Ops, State}
use akira_ccsds.Time.{
  report_payload, report_packet, ticks_of, build_tm_packet, report, work_handler, handle_tc_packet,
}
use akira_ccsds.Time.Reports.{report_with, handle_tc_packet-shown}
use akira_ccsds.SpacePacket.{SpacePacket, encode, decode, header_word0, header_word1}

-- The world is the uptime and the frames that were added.
abbrev World : Type 0
World = ℕ × List (ℕ × List ℕ)

abbrev sample_ops : Ops World
sample_ops = record {
  uptime_ticks = λ w. (w.0, w);
  frame_add = λ vcid bytes w. (w.0, (vcid, bytes) ∷ w.1);
  work_init = λ w. w;
  work_schedule = λ seconds w. w;
  work_cancel = λ w. w;
}

abbrev sample_state : State World
sample_state = record {
  time = record {
    work_initialized = true;
    running = true;
    vcid = 3;
    sequence_count = 16383;
    offset_ticks = 0;
  };
  world = (1250, []);
}

abbrev command : List ℕ → SpacePacket
command payload = record {
  version = 0;
  type = 1;
  secondary_header = false;
  apid = 0;
  sequence_flags = 3;
  sequence_count = 9;
  payload = payload;
}

-- Half past second 5.
abbrev set_command : SpacePacket
set_command = command (1 ∷ 0 ∷ 0 ∷ 0 ∷ 5 ∷ 128 ∷ 0 ∷ [])

-- Back by two seconds.
abbrev adjust_command : SpacePacket
adjust_command = command (2 ∷ 255 ∷ 255 ∷ 255 ∷ 254 ∷ 0 ∷ 0 ∷ [])

handle_adjust :
    (handle_tc_packet 100 sample_ops adjust_command sample_state).1.time.offset_ticks ≡ 2 ^ 64 - 200
unfolding handle_tc_packet ticks_of quotient sign_extend32 sign_extend16
handle_adjust = refl

handle_unknown :
    (handle_tc_packet 100 sample_ops (command (7 ∷ [])) sample_state).0 ≡ failure enotsup
unfolding handle_tc_packet
handle_unknown = refl

-- Twelve and a half seconds after the start, and the sequence counter wraps.
work_handler_report : work_handler 100 sample_ops sample_state ≡ record sample_state {
  time = record (sample_state.time) { sequence_count = 0 };
  world = (1250, (3, 0 ∷ 0 ∷ 255 ∷ 255 ∷ 0 ∷ 6 ∷ 0 ∷ 0 ∷ 0 ∷ 0 ∷ 12 ∷ 128 ∷ 0 ∷ []) ∷ []);
}
unfolding work_handler report build_tm_packet report_packet report_payload quotient remainder encode
    header_word0 header_word1
work_handler_report = refl

abbrev ping_command : SpacePacket
ping_command = command (255 ∷ [])

-- The state after the telecommand that sets the time.
abbrev after_set : State World
after_set = (handle_tc_packet 100 sample_ops set_command sample_state).1

handle_tc_packet-shown_example :
    ((handle_tc_packet 100 sample_ops set_command sample_state).0 ≡ success)
    × ((bytes : List ℕ) × (fine : ℕ) × ((handle_tc_packet 100 sample_ops ping_command after_set).0
          ≡ success)
        × ((handle_tc_packet 100 sample_ops ping_command after_set).1.world
            ≡ (1250, (3, bytes) ∷ []))
        × ((handle_tc_packet 100 sample_ops ping_command after_set).1.time.sequence_count ≡ 0)
        × (decode bytes ≡ ok (report_with 16383 (255 ∷ 0 ∷ 0 ∷ 0 ∷ 5 ∷ be16 fine)))
        × (fine ≤ 32768)
        × (32768 * 100 < fine * 100 + 100 + 2 ^ 16))
handle_tc_packet-shown_example =
    handle_tc_packet-shown 100 sample_ops set_command ping_command sample_state
      (omega arith, omega arith) (all_bytes_sound set_command.payload refl) (omega arith) refl
      (omega arith) refl (omega arith) (omega arith) refl
