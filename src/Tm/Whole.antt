-- ===== src/Tm/Whole.antt =====
-- The whole frame around the data field, and the state after it.
use mathlib.Core.Path.{subst}
use akira_ccsds.Base.{ℕ, ◌+◌, ◌-◌, ◌≤◌, ◌<◌}
use akira_ccsds.Base.{◌≡◌, refl, sym, ap, ◌∙◌, inl, inr, arith}
use akira_ccsds.Base.{Option, none, some, List, [], ◌++◌, append_assoc, append-nil}
use akira_ccsds.Base.{ltb, Bool-cases}
use akira_ccsds.Base.{
  length, set, take, drop, length-append, length-set, length-replicate, take-append,
  get_or-set_self,
}
use akira_ccsds.Base.{u8, be16}
use akira_ccsds.Base.{Result, ok, err}
use akira_ccsds.Crc16.{compute}
use akira_ccsds.Tm.State.{Config, fecf_len}
use akira_ccsds.Tm.State.{data_len, PipeOps, Vc, Tm}
use akira_ccsds.Tm.State.{fresh_vc, vc_at}
use akira_ccsds.Tm.Stream.{PipeLaws, queued, IsCounted}
use akira_ccsds.Tm.Build.{
  no_first_header_pointer, primary_header, ocf, with_fecf, idle_space_packet,
  increment_frame_counters,
}
use akira_ccsds.Tm.Build.{
  Filled, ask_clcw, fill_data, close_data, frame_of, finish_frame, build_packet_transfer_frame,
}
use akira_ccsds.Tm.Frames.{Aligned}
use akira_ccsds.Tm.Field.{fill_data_lem}

length-idle_space_packet : (n : ℕ) → length (idle_space_packet n) ≡ n
unfolding idle_space_packet
length-idle_space_packet n =
    ground (arith, length-replicate {A = ℕ} n 0, length-replicate {A = ℕ} (n - 6) 0)

length-ocf : (word : Option ℕ) → length (ocf word) ≡ 4
length-ocf none = refl
length-ocf (some w) = refl

length-with_fecf :
    (c : Config) (body : List ℕ) → length (with_fecf c body) ≡ length body + fecf_len c
length-with_fecf c body = elim (Bool-cases c.fecf) [
  | inl on ↦ ground (arith, on, length-append body (be16 (compute body)))
  | inr off ↦ ground (arith, off)
]

-- A frame is its body and perhaps more.
with_fecf-append :
    (c : Config) (body : List ℕ) → (trailer : List ℕ) × (with_fecf c body ≡ body ++ trailer)
with_fecf-append c body = elim (Bool-cases c.fecf) [
  | inl on ↦ (be16 (compute body), ground (arith, on))
  | inr off ↦ ([], ground (arith, off, append-nil body))
]

module _ {P : Type 0} (ops : PipeOps P) (c : Config) where
  -- The closed field begins with what was taken and is full.
  close_data_lem :
      (f : Filled)
      → length f.used ≤ data_len c
      → (pad : List ℕ) × ((close_data ops c f).used ≡ f.used ++ pad)
        × (length (close_data ops c f).used ≡ data_len c)
  unfolding close_data
  close_data_lem f fits = elim (Bool-cases (ltb (length f.used) (data_len c))) [
    | inl room ↦
        let pad = idle_space_packet (data_len c - length f.used) in
        (
          pad,
          ground (arith, room),
          ground (
            arith,
            room,
            length-append f.used pad,
            length-idle_space_packet (data_len c - length f.used),
          ),
        )
    | inr none_left ↦ ([], ground (arith, none_left, append-nil f.used), ground (arith, none_left))
  ]

  field_split : (taken pad more : List ℕ) → take (length taken) ((taken ++ pad) ++ more) ≡ taken
  field_split taken pad more =
      ap (take (length taken)) (append_assoc taken pad more)
      ∙ take-append taken (pad ++ more) (length taken) refl

  module _ {R C W : Type 0} (laws : PipeLaws ops) (clcw : C → W → Option ℕ × W) where
    -- A packet frame that was built: of the configured length, with the bytes taken from the queue
    -- behind the six of the header, and the state that is left.
    pub record Built (tm : Tm P R C) (vcid : ℕ) (out : Option (List ℕ) × Tm P R C × W)
        : Type 0 where
      pub frame : List ℕ
      pub next : Tm P R C
      pub world : W
      pub taken : List ℕ
      pub result : out ≡ (some frame, next, world)
      pub size : length frame ≡ c.frame_len
      pub carried : take (length taken) (drop 6 frame) ≡ taken
      pub split :
          queued ops laws (vc_at ops tm vcid) ≡ taken ++ queued ops laws (vc_at ops next vcid)
      pub counted : IsCounted ops laws (vc_at ops next vcid)
      pub aligned : Aligned (vc_at ops next vcid).packet_rem (queued ops laws (vc_at ops next vcid))
      pub frame_counted : (vc_at ops next vcid).vcfc < 256

    length-frame_of :
        (tm : Tm P R C) (vcid fhp : ℕ) (field : List ℕ) (word : Option ℕ)
        → length field ≡ data_len c
        → 10 + fecf_len c ≤ c.frame_len
        → length (frame_of ops c clcw tm vcid fhp field word) ≡ c.frame_len
    unfolding frame_of primary_header
    length-frame_of tm vcid fhp field word full long = omega (
      arith,
      length-with_fecf c
          (primary_header c vcid tm.mcfc (vc_at ops tm vcid).vcfc fhp ++ (field ++ ocf word)),
      length-append field (ocf word),
      length-ocf word,
    )

    frame_of-front :
        (tm : Tm P R C) (vcid fhp : ℕ) (field : List ℕ) (word : Option ℕ) (taken pad : List ℕ)
        → field ≡ taken ++ pad
        → take (length taken) (drop 6 (frame_of ops c clcw tm vcid fhp field word)) ≡ taken
    unfolding frame_of primary_header
    frame_of-front tm vcid fhp field word taken pad e =
        let whole =
          with_fecf-append c
            (primary_header c vcid tm.mcfc (vc_at ops tm vcid).vcfc fhp ++ (field ++ ocf word)) in
        ap (λ t. take (length taken) (drop 6 t)) whole.1
        ∙ (ap (λ t. take (length taken) ((t ++ ocf word) ++ whole.0)) e
            ∙ (ap (λ t. take (length taken) t) (append_assoc (taken ++ pad) (ocf word) whole.0)
                ∙ field_split taken pad (ocf word ++ whole.0)))

    -- The frame and the state that a well filled data field leads to.
    abbrev frame_from : Tm P R C → ℕ → Filled → Vc P → W → List ℕ
    frame_from tm vcid f vc w =
        frame_of ops c clcw (record tm { vcs = set tm.vcs vcid vc }) vcid
          (close_data ops c f).first_header_pointer (close_data ops c f).used
          (ask_clcw clcw tm.clcw_provider w).0

    abbrev state_from : Tm P R C → ℕ → Vc P → Tm P R C
    state_from tm vcid vc =
        increment_frame_counters ops (record tm { vcs = set tm.vcs vcid vc }) vcid

    -- What `build_packet_transfer_frame` does after its loop.
    abbrev finish_with : Tm P R C → ℕ → W → Result Filled × Vc P → Option (List ℕ) × Tm P R C × W
    finish_with tm vcid w out =
        let read : Tm P R C = record tm { vcs = set tm.vcs vcid (out.1) } in
        elim out.0 [
          | err e ↦ (none, read, w)
          | ok filled ↦
              let (frame, tm', w') = finish_frame ops c clcw read vcid filled w in
              (some frame, tm', w')
        ]

    build-filled :
        (tm : Tm P R C) (vcid : ℕ) (w : W) (f : Filled) (vc : Vc P)
        → fill_data ops c (data_len c) [] no_first_header_pointer (vc_at ops tm vcid) ≡ (ok f, vc)
        → build_packet_transfer_frame ops c clcw tm vcid w ≡ (
          some (frame_from tm vcid f vc w),
          state_from tm vcid vc,
          (ask_clcw clcw tm.clcw_provider w).1,
        )
    unfolding build_packet_transfer_frame finish_frame
    build-filled tm vcid w f vc e = ap (finish_with tm vcid w) e

    state_from-vc :
        (tm : Tm P R C) (vcid : ℕ) (vc : Vc P)
        → vcid < length tm.vcs
        → vc_at ops (state_from tm vcid vc) vcid ≡ record vc { vcfc = u8 (vc.vcfc + 1) }
    unfolding increment_frame_counters
    state_from-vc tm vcid vc inside =
        get_or-set_self (set tm.vcs vcid vc) vcid _ (fresh_vc ops)
          (omega (arith, length-set tm.vcs vcid vc))
        ∙ ap (λ (v : Vc P). record v { vcfc = u8 (v.vcfc + 1) })
            (get_or-set_self tm.vcs vcid vc (fresh_vc ops) inside)

    -- `build_packet_transfer_frame` for a channel of the module whose queue is counted right and in
    -- step, with a configured frame that has room for header, control field and checksum and a data
    -- field of at most 2047 bytes: a frame of the configured length is built, the data field begins
    -- with bytes taken from the front of the queue, and the channel is left with the others,
    -- counted right and in step, and with an 8-bit frame counter.
    pub build_packet_transfer_frame-Built :
        (tm : Tm P R C) (vcid : ℕ) (w : W)
        → vcid < length tm.vcs
        → data_len c ≤ 2047
        → 10 + fecf_len c ≤ c.frame_len
        → IsCounted ops laws (vc_at ops tm vcid)
        → Aligned (vc_at ops tm vcid).packet_rem (queued ops laws (vc_at ops tm vcid))
        → Built tm vcid (build_packet_transfer_frame ops c clcw tm vcid w)
    build_packet_transfer_frame-Built tm vcid w inside small long counted aligned =
        let f = fill_data_lem ops c laws (vc_at ops tm vcid) small counted aligned in
        let closed = close_data_lem f.filled f.fits in
        let word = (ask_clcw clcw tm.clcw_provider w).0 in
        let left = state_from-vc tm vcid f.next inside in
        record {
          frame = frame_from tm vcid f.filled f.next w;
          next = state_from tm vcid f.next;
          world = (ask_clcw clcw tm.clcw_provider w).1;
          taken = f.taken;
          result = build-filled tm vcid w f.filled f.next f.result;
          size =
              length-frame_of (record tm { vcs = set tm.vcs vcid f.next }) vcid
                (close_data ops c f.filled).first_header_pointer (close_data ops c f.filled).used
                (ask_clcw clcw tm.clcw_provider w).0 closed.2 long;
          carried =
              frame_of-front (record tm { vcs = set tm.vcs vcid f.next }) vcid
                (close_data ops c f.filled).first_header_pointer (close_data ops c f.filled).used
                word f.taken closed.0 (closed.1 ∙ ap (λ t. t ++ closed.0) f.field);
          split = f.split ∙ ap (λ v. f.taken ++ queued ops laws v) (sym left);
          counted = subst (IsCounted ops laws) (sym left) f.counted;
          aligned = subst (λ v. Aligned v.packet_rem (queued ops laws v)) (sym left) f.aligned;
          frame_counted = subst (λ (v : Vc P). v.vcfc < 256) (sym left) (omega arith);
        }
