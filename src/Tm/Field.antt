-- ===== src/Tm/Field.antt =====
-- The data field of a frame against the queue of its channel.
use mathlib.Core.Path.{subst}
use akira_ccsds.Base.{ℕ, zero, suc, ◌+◌, ◌-◌, ◌≤◌, ◌<◌, min}
use akira_ccsds.Base.{◌≡◌, refl, sym, ap, ◌∙◌, ◌⊎◌, inl, inr, arith}
use akira_ccsds.Base.{List, [], ◌++◌, append_assoc, append-nil}
use akira_ccsds.Base.{◌==◌, if◌then◌else◌}
use akira_ccsds.Base.{length, length-append}
use akira_ccsds.Base.{u16}
use akira_ccsds.Base.{Result, ok}
use akira_ccsds.Tm.State.{Config}
use akira_ccsds.Tm.State.{data_len, PipeOps, Vc}
use akira_ccsds.Tm.Pending.{sub_size, read_pending_bytes}
use akira_ccsds.Tm.Stream.{sub_size-le, PipeLaws, queued, IsCounted, Taken, read_pending_bytes_lem}
use akira_ccsds.Tm.Build.{no_first_header_pointer, packet_total_len}
use akira_ccsds.Tm.Build.{Filled, fill_data}
use akira_ccsds.Tm.Frames.{
  Aligned, Aligned-taken, empty_list, Aligned-header, Aligned-has_header, Aligned-rem,
}
use akira_ccsds.Tm.Rounds.{
  round_cases, fill_data-stay, fill_data-continued, fill_data-opened, pointer_of, pointer_moved,
  pointer_set,
}

module _ {P : Type 0} (ops : PipeOps P) (c : Config) where
  module _ (laws : PipeLaws ops) where
    -- The loop ends well: `taken` went from the queue to the field, both stay in order, and more
    -- does not fit.
    pub record FilledFrom (used : List ℕ) (fhp : ℕ) (vc : Vc P) (out : Result Filled × Vc P)
        : Type 0 where
      pub filled : Filled
      pub next : Vc P
      pub taken : List ℕ
      pub result : out ≡ (ok filled, next)
      pub field : filled.used ≡ used ++ taken
      pub split : queued ops laws vc ≡ taken ++ queued ops laws next
      pub counted : IsCounted ops laws next
      pub aligned : Aligned next.packet_rem (queued ops laws next)
      pub fits : length filled.used ≤ data_len c
      pub full : length filled.used + 6 ≤ data_len c → queued ops laws next ≡ []
      pub pointer :
          filled.first_header_pointer
          ≡ pointer_of ops c fhp (length used) vc.packet_rem (length (queued ops laws vc))

    FilledFrom-stay :
        (fuel : ℕ) (used : List ℕ) (fhp : ℕ) (vc : Vc P)
        → IsCounted ops laws vc
        → Aligned vc.packet_rem (queued ops laws vc)
        → length used ≤ data_len c
        → (data_len c ≤ length used)
          ⊎ ((vc.packet_rem ≡ 0) × ((vc.pending_len ≡ 0) ⊎ (data_len c < length used + 6)))
        → FilledFrom used fhp vc (fill_data ops c fuel used fhp vc)
    FilledFrom-stay fuel used fhp vc counted aligned fits why = record {
      filled = record { used = used; first_header_pointer = fhp };
      next = vc;
      taken = [];
      result = fill_data-stay ops c fuel used fhp vc why;
      field = sym (append-nil used);
      split = refl;
      counted = counted;
      aligned = aligned;
      fits = fits;
      full = λ room. empty_list (queued ops laws vc) (ground arith);
      pointer = ground arith;
    }

    -- A round that took `bytes` and left `vc1`, and the rounds after it.
    FilledFrom-step :
        (used : List ℕ) (fhp fhp1 : ℕ) (vc vc1 : Vc P) (bytes : List ℕ)
        (out out1 : Result Filled × Vc P)
        → out ≡ out1
        → queued ops laws vc ≡ bytes ++ queued ops laws vc1
        → pointer_of ops c fhp1
            (length used + length bytes)
            vc1.packet_rem
            (length (queued ops laws vc1))
          ≡ pointer_of ops c fhp (length used) vc.packet_rem (length (queued ops laws vc))
        → FilledFrom (used ++ bytes) fhp1 vc1 out1
        → FilledFrom used fhp vc out
    FilledFrom-step used fhp fhp1 vc vc1 bytes out out1 e split pointer rest = record {
      filled = rest.filled;
      next = rest.next;
      taken = bytes ++ rest.taken;
      result = e ∙ rest.result;
      field = rest.field ∙ append_assoc used bytes rest.taken;
      split =
          split
          ∙ (ap (λ t. bytes ++ t) rest.split
              ∙ sym (append_assoc bytes rest.taken (queued ops laws rest.next)));
      counted = rest.counted;
      aligned = rest.aligned;
      fits = rest.fits;
      full = rest.full;
      pointer =
          rest.pointer
          ∙ (ap (λ t. pointer_of ops c fhp1 t vc1.packet_rem (length (queued ops laws vc1)))
                (length-append used bytes)
              ∙ pointer);
    }

    -- What the loop does with some fuel.
    abbrev Fills : ℕ → Type 0
    Fills fuel =
        (used : List ℕ) (fhp : ℕ) (vc : Vc P)
        → data_len c ≤ length used + fuel
        → IsCounted ops laws vc
        → Aligned vc.packet_rem (queued ops laws vc)
        → length used ≤ data_len c
        → FilledFrom used fhp vc (fill_data ops c fuel used fhp vc)

    abbrev chunk_len : List ℕ → Vc P → ℕ
    chunk_len used v = min v.packet_rem (data_len c - length used)

    FilledFrom-continued :
        (fuel : ℕ) (used : List ℕ) (fhp : ℕ) (vc : Vc P)
        → Fills fuel
        → data_len c ≤ length used + suc fuel
        → data_len c ≤ 2047
        → Aligned vc.packet_rem (queued ops laws vc)
        → length used ≤ data_len c
        → length used < data_len c
        → 0 < vc.packet_rem
        → Taken ops laws (chunk_len used vc) vc (read_pending_bytes ops (chunk_len used vc) vc)
        → FilledFrom used fhp vc (fill_data ops c (suc fuel) used fhp vc)
    FilledFrom-continued fuel used fhp vc ih enough small aligned fits room started t =
        let left = sub_size t.next.packet_rem (chunk_len used vc) in
        let vc1 : Vc P = record (t.next) { packet_rem = left } in
        let left_eq : vc.packet_rem - length t.bytes ≡ left = omega (
          arith,
          sub_size-le t.next.packet_rem (chunk_len used vc) (omega (arith, t.same_rem)),
          t.same_rem,
          t.size,
        ) in
        FilledFrom-step used fhp fhp vc vc1 t.bytes (fill_data ops c (suc fuel) used fhp vc)
          (fill_data ops c fuel (used ++ t.bytes) fhp vc1)
          (fill_data-continued ops c fuel used fhp vc t.bytes t.next room started t.result) t.split
          (pointer_moved ops c (length used) fhp vc.packet_rem (length t.bytes) left
            (length (queued ops laws vc)) (length (queued ops laws t.next)) left_eq
            (omega (arith, t.size))
            (ap length t.split ∙ length-append t.bytes (queued ops laws t.next)))
          (ih (used ++ t.bytes) fhp vc1 (omega (arith, length-append used t.bytes, t.size))
            t.counted
            (subst (λ r. Aligned r (queued ops laws t.next)) left_eq
              (Aligned-taken vc.packet_rem t.bytes (queued ops laws t.next) (queued ops laws vc)
                aligned t.split (omega (arith, t.size))))
            (omega (arith, length-append used t.bytes, t.size)))

    FilledFrom-opened :
        (fuel : ℕ) (used : List ℕ) (fhp : ℕ) (vc : Vc P)
        → Fills fuel
        → data_len c ≤ length used + suc fuel
        → data_len c ≤ 2047
        → IsCounted ops laws vc
        → Aligned vc.packet_rem (queued ops laws vc)
        → length used ≤ data_len c
        → length used + 6 ≤ data_len c
        → vc.packet_rem ≡ 0
        → Taken ops laws 6 vc (read_pending_bytes ops 6 vc)
        → FilledFrom used fhp vc (fill_data ops c (suc fuel) used fhp vc)
    FilledFrom-opened fuel used fhp vc ih enough small counted aligned fits room none_started t =
        let fhp1 = if fhp == no_first_header_pointer then u16 (length used) else fhp in
        let left = packet_total_len t.bytes - 6 in
        let vc1 : Vc P = record (t.next) { packet_rem = left } in
        let total = ap length t.split ∙ length-append t.bytes (queued ops laws t.next) in
        FilledFrom-step used fhp fhp1 vc vc1 t.bytes (fill_data ops c (suc fuel) used fhp vc)
          (fill_data ops c fuel (used ++ t.bytes) fhp1 vc1)
          (fill_data-opened ops c fuel used fhp vc t.bytes t.next room none_started
            (omega (arith, counted, total, t.size)) t.result)
          t.split
          (pointer_set ops c (length used) fhp vc.packet_rem (length t.bytes) left
            (length (queued ops laws vc)) (length (queued ops laws t.next)) small none_started
            t.size room total)
          (ih (used ++ t.bytes) fhp1 vc1 (omega (arith, length-append used t.bytes, t.size))
            t.counted
            (Aligned-header t.bytes (queued ops laws t.next) (queued ops laws vc)
              (subst (λ r. Aligned r (queued ops laws vc)) none_started aligned) t.split t.size)
            (omega (arith, length-append used t.bytes, t.size)))

    fill_data-FilledFrom : (fuel : ℕ) → data_len c ≤ 2047 → Fills fuel
    fill_data-FilledFrom zero small used fhp vc enough counted aligned fits =
        FilledFrom-stay zero used fhp vc counted aligned fits (inl (omega arith))
    fill_data-FilledFrom (suc fuel) small used fhp vc enough counted aligned fits =
        elim (round_cases (length used) (data_len c) vc.packet_rem vc.pending_len) [
          | inl why ↦ FilledFrom-stay (suc fuel) used fhp vc counted aligned fits why
          | inr (inl (room, started)) ↦
              FilledFrom-continued fuel used fhp vc (fill_data-FilledFrom fuel small) enough small
                aligned fits room started
                (read_pending_bytes_lem ops laws (chunk_len used vc) vc counted
                  (omega (arith, Aligned-rem vc.packet_rem (queued ops laws vc) aligned)))
          | inr (inr (room, none_started, some_queued)) ↦
              FilledFrom-opened fuel used fhp vc (fill_data-FilledFrom fuel small) enough small
                counted aligned fits room none_started
                (read_pending_bytes_lem ops laws 6 vc counted (
                  Aligned-has_header (queued ops laws vc)
                    (subst (λ t. Aligned t (queued ops laws vc)) none_started aligned)
                    (omega arith)))
        ]

    -- `build_packet_transfer_frame`'s loop, on a channel whose queue is counted right and starts in
    -- step with `packet_rem`, for a data field of at most 2047 bytes: it returns no error; the
    -- field so far and the queue that is left are, put together, the queue as it was; count and
    -- step still fit; the field is not overrun, and where a header would still fit the queue is
    -- empty; the first header pointer is the offset of the first packet that starts, or 0x7ff where
    -- none does.
    pub fill_data_lem :
        (vc : Vc P)
        → data_len c ≤ 2047
        → IsCounted ops laws vc
        → Aligned vc.packet_rem (queued ops laws vc)
        → FilledFrom [] no_first_header_pointer vc
            (fill_data ops c (data_len c) [] no_first_header_pointer vc)
    fill_data_lem vc small counted aligned =
        fill_data-FilledFrom (data_len c) small [] no_first_header_pointer vc (omega arith) counted
          aligned (omega arith)
