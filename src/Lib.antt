-- ===== src/Lib.antt =====
-- AkiraOS: the CCSDS space-communication layer under src/connectivity/ccsds.
--
-- The layer takes telecommands up and sends telemetry down. Uplink: a CLTU is a start sequence,
-- BCH blocks and a tail (ccsds_cltu.c, ccsds_bch.c); its data are a TC transfer frame
-- (ccsds_tc_frame.c), which carries a segment (ccsds_tc_segment.c), which carries Space Packets
-- (ccsds_space_packet.c); a packet goes to the handler registered for its APID (ccsds_router.c).
-- Downlink: Space Packets are queued for a virtual channel and packed into TM frames
-- (ccsds_tm_frame.c) with a CRC (ccsds_crc16.c), Reed-Solomon parity (ccsds_rs.c) and
-- randomization (ccsds_rnd.c), and a frame is handed to the routes of its channel. A time service
-- (ccsds_time_service.c) answers on APID 0 and reports its clock. CFDP file delivery runs over
-- Space Packets: an entity (ccsds_cfdp_entity.c) sends a file as PDUs (ccsds_cfdp_pdu.c) and
-- receives one, with the set of received ranges (ccsds_cfdp_ranges.c) and the file checksum
-- (ccsds_cfdp_checksum.c).
--
-- Files and the code that they model, all under src/connectivity/ccsds:
--   Base         shared names, lists as C arrays, words and their bits, errno results
--   SpacePacket  ccsds_space_packet.c: ccsds_space_packet_decode, _encode
--   Router       ccsds_router.c: the table and its operations; handlers are a parameter
--   Cfdp         ccsds_cfdp_status.h, ccsds_cfdp_types.h; Cfdp.Ranges: ccsds_cfdp_ranges.c;
--                Cfdp.Checksum: ccsds_cfdp_checksum.c; Cfdp.Pdu: ccsds_cfdp_pdu.c, with the fixed
--                header, and a module for the LV and TLV fields and for each PDU;
--                Cfdp.Entity: ccsds_cfdp_entity.c: the state, Entity.Receiver (checksum, ACK, NAK,
--                Finished), .Finish (receiver_finish), .Handlers (metadata, file data), .EndOfFile
--                (EOF, ACK, poll), .Sender, .SendFile, .Replies (Finished, ACK, NAK), .Dispatch
--                (init, receive_pdu, poll); Cfdp.Adapter: ccsds_cfdp_space_packet.c, PDUs in Space
--                Packets
--   Crc16        ccsds_crc16.c
--   Randomizer   ccsds_rnd.c
--   ReedSolomon  ccsds_rs.c
--   Tc           Tc.Bch: ccsds_bch.c; Tc.Cltu: ccsds_cltu.c; Tc.Frame: ccsds_tc_frame.c;
--                Tc.Segment: ccsds_tc_segment.c
--   Tm           ccsds_tm_frame.c: Tm.State (static variables, init, start, stop), Tm.Routes (masks
--                and callbacks), Tm.Pending (read_pending_bytes), Tm.Queue (ccsds_tm_frame_add),
--                Tm.Build (the frame), Tm.Generator (the cycle and the work handler)
--   Time         ccsds_time_service.c: the clock, its telecommands and its reports
-- The other files under a module hold its proofs, and Examples its tests and witnesses.
--
-- How the code is represented: a buffer is the list of its bytes, numbers are natural numbers
-- with every cast and mask written out, an errno result is Result, a CFDP status Outcome, a
-- callback is a parameter that maps a state to a code and a state. Mutexes are left out: each
-- operation is one step under its lock. A `size_t` has 32 bits where it can wrap. Assertions are
-- preconditions.
--
-- Parameters: k_pipe of Zephyr is the record PipeOps, with PipeLaws as what it promises (bytes
-- come out in order; a read of a pipe with data and a write that succeeds make progress; a failed
-- write changes nothing); crc32_c and crc32_ieee_update of Zephyr; handlers, routes, CLCW
-- providers; Time.Ops, the clock and the work queue of the time service; the file reader of the
-- checksum; Cfdp.Entity.Ops, the transport, event callback, clock and file store of the CFDP
-- entity, of which the first two may call back into it (IsQuiet says that they do not).
--
-- Bounds and fuel: the ranges table has its default of 4 entries. Loops that are not structural
-- run on fuel: the walk over packets, the reads and the writes on the number of bytes, the data
-- field on its length, the recomputed checksum on the file size; each round takes at least one
-- byte. The search for a route bit has 32 rounds for 32 bits.
--
-- Not modelled: the CFDP service and its staging, the mission profile, UDP and the shell of the
-- layer; logging; the rest of AkiraOS (runtime, drivers, other connectivity, storage, user
-- interface). A stop of the generator while its cycle runs is not represented.
pub mod Base
pub mod SpacePacket
pub mod Router
pub mod Cfdp
pub mod Crc16
pub mod Randomizer
pub mod ReedSolomon
pub mod Tc
pub mod Tm
pub mod Time
