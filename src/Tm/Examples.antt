-- ===== src/Tm/Examples.antt =====
-- A generator on pipes that are lists, with one packet queued.
use akira_ccsds.Base.{ℕ, suc, ◌≤◌, ◌<◌}
use akira_ccsds.Base.{◌≡◌, refl, sym, ap, arith}
use akira_ccsds.Base.{true, false, Option, none, some, List, [], ◌∷◌, ◌++◌}
use akira_ccsds.Base.{length, take, drop, replicate, length-take, take-append-drop}
use akira_ccsds.Base.{Errno, eio, Result, ok, err}
use akira_ccsds.Tm.State.{Config}
use akira_ccsds.Tm.State.{PipeOps, Vc, Tm}
use akira_ccsds.Tm.State.{fresh_vc, vc_at}
use akira_ccsds.Tm.Build.{fill_data, packet_total_len, no_first_header_pointer}
use akira_ccsds.Tm.Routes.{route_frame}
use akira_ccsds.Tm.Stream.{PipeLaws}
use akira_ccsds.Tm.Queue.{add}
use akira_ccsds.Tm.Frames.{Aligned}
use akira_ccsds.Tm.Field.{FilledFrom, fill_data_lem}
use akira_ccsds.Tm.Build.{build_packet_transfer_frame}
use akira_ccsds.Tm.Whole.{Built, build_packet_transfer_frame-Built}
use akira_ccsds.Tm.Generator.{select_from, vc_has_pending_bytes}
use akira_ccsds.Tm.Selection.{Selected, select_from-Selected}
use akira_ccsds.Tm.Enqueue.{IsAccepted, Sent, add-Sent}
use akira_ccsds.Tm.Delivery.{route_frame-selected}

abbrev read_list : ℕ → List ℕ → Result (List ℕ) × List ℕ
read_list n [] = (err eio, [])
read_list n (b ∷ bytes) = (ok (take n (b ∷ bytes)), drop n (b ∷ bytes))

-- A pipe that takes one byte of a write.
abbrev write_list : List ℕ → List ℕ → Result ℕ × List ℕ
write_list [] p = (err eio, p)
write_list (b ∷ bytes) p = (ok 1, p ++ b ∷ [])

abbrev list_ops : PipeOps (List ℕ)
list_ops = record { fresh = []; read = read_list; write = write_list }

list_read :
    (n : ℕ) (p : List ℕ)
    → 0 < n
    → 0 < length p
    → (bytes : List ℕ) × ((read_list n p).0 ≡ ok bytes)
      × (p ≡ bytes ++ (read_list n p).1)
      × (0 < length bytes)
      × (length bytes ≤ n)
list_read n [] some_asked some_there = absurd (omega arith)
list_read n (b ∷ bytes) some_asked some_there = (
  take n (b ∷ bytes),
  refl,
  sym (take-append-drop n (b ∷ bytes)),
  omega (arith, length-take n (b ∷ bytes)),
  omega (arith, length-take n (b ∷ bytes)),
)

list_write :
    (bytes p : List ℕ) (n : ℕ)
    → 0 < length bytes
    → (write_list bytes p).0 ≡ ok n
    → ((write_list bytes p).1 ≡ p ++ take n bytes) × (0 < n) × (n ≤ length bytes)
list_write [] p n some_bytes e = absurd (omega arith)
list_write (b ∷ bytes) p n some_bytes e =
    let one : 1 ≡ n = ground (arith, e) in
    (ap (λ k. p ++ take k (b ∷ bytes)) one, omega arith, omega arith)

list_write_err :
    (bytes p : List ℕ) (e : Errno) → (write_list bytes p).0 ≡ err e → (write_list bytes p).1 ≡ p
list_write_err [] p e h = refl
list_write_err (b ∷ bytes) p e h = cc

abbrev list_laws : PipeLaws list_ops
list_laws = record {
  contents = λ p. p;
  fresh-contents = refl;
  read_lem = list_read;
  write_lem = list_write;
  write-err = list_write_err;
}

abbrev config : Config
config = record {
  spacecraft_id = 42;
  frame_len = 32;
  fecf = true;
  rs = false;
  rnd = true;
  queue_depth = 64;
  max_space_packet_len = 64;
}

abbrev packet : List ℕ
packet = 8 ∷ 5 ∷ 0xc0 ∷ 0 ∷ 0 ∷ 1 ∷ 3 ∷ 4 ∷ []

-- The channel continues a packet of which two bytes are left.
abbrev busy : Vc (List ℕ)
busy = record {
  pending = 1 ∷ 2 ∷ packet;
  pending_len = 10;
  packet_rem = 2;
  packet_is_idle = false;
  vcfc = 0;
  route_mask = 5;
}

packet_len : packet_total_len packet ≡ 8
unfolding packet_total_len
packet_len = refl

busy-Aligned : Aligned 2 (1 ∷ 2 ∷ packet)
busy-Aligned = record {
  tail = 1 ∷ 2 ∷ [];
  packets = packet ∷ [];
  size = refl;
  whole = ((omega arith, packet_len), tt);
  cut = refl;
}

fill_data_lem_example :
    FilledFrom list_ops config list_laws [] no_first_header_pointer busy
      (fill_data list_ops config 20 [] no_first_header_pointer busy)
fill_data_lem_example = fill_data_lem list_ops config list_laws busy (omega arith) refl busy-Aligned

-- Callbacks and providers are numbers; a callback that is called goes on the trace.
abbrev machine : Tm (List ℕ) ℕ ℕ
machine = record {
  vcs = busy ∷ replicate 7 (fresh_vc list_ops);
  routes = some 10 ∷ some 11 ∷ some 12 ∷ replicate 29 none;
  clcw_provider = none;
  mcfc = 0;
  active_delay = 1;
  idle_delay = 2;
  last_vcid = 7;
  running = true;
  last_cycle_active = false;
  initialized = true;
}

abbrev trace_call : ℕ → ℕ → List ℕ → List ℕ → List ℕ
trace_call r vcid frame w = r ∷ w

route_frame-selected_example : route_frame trace_call list_ops machine 0 packet [] ≡ 12 ∷ 10 ∷ []
route_frame-selected_example = route_frame-selected trace_call list_ops machine 0 packet []

packet-IsAccepted : IsAccepted config 0 packet
packet-IsAccepted = ((omega arith, packet_len), omega arith, omega arith, omega arith)

add-Sent_example : Sent list_ops list_laws packet busy (
  (add list_ops config machine 0 packet none).0,
  vc_at list_ops ((add list_ops config machine 0 packet none).1) 0,
)
add-Sent_example = add-Sent list_ops list_laws config machine 0 packet packet-IsAccepted refl refl

-- A provider whose control word is its own number.
abbrev control_word : ℕ → ℕ → Option ℕ × ℕ
control_word provider w = (some provider, suc w)

build_packet_transfer_frame-Built_example :
    Built list_ops config list_laws control_word machine 0
      (build_packet_transfer_frame list_ops config control_word machine 0 0)
build_packet_transfer_frame-Built_example =
    build_packet_transfer_frame-Built list_ops config list_laws control_word machine 0 0
      (omega arith) (omega arith) (omega arith) refl busy-Aligned

-- The third channel has a packet to finish and nothing in its queue.
abbrev third_busy : List (Vc (List ℕ))
third_busy =
    fresh_vc list_ops
    ∷ fresh_vc list_ops
    ∷ record busy { pending_len = 0; packet_rem = 3 }
    ∷ busy
    ∷ []

select_third : select_from 0 third_busy ≡ some 2
unfolding select_from vc_has_pending_bytes
select_third = refl

select_from-Selected_example : Selected third_busy 0 (select_from 0 third_busy)
select_from-Selected_example = select_from-Selected third_busy 0
