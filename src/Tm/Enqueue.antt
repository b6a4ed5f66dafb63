-- ===== src/Tm/Enqueue.antt =====
-- What `ccsds_tm_frame_add` does to the queue of its channel.
use mathlib.Core.Path.{subst}
use akira_ccsds.Base.{ℕ, zero, suc, ◌+◌, ◌≤◌, ◌<◌}
use akira_ccsds.Base.{◌≡◌, refl, sym, ap, ◌∙◌, ◌⊎◌, inl, inr, arith}
use akira_ccsds.Base.{none, List, [], ◌∷◌, ◌++◌, append_assoc, append-nil}
use akira_ccsds.Base.{
  length, set, take, drop, length-append, length-take, length-drop, get_or-set_self,
}
use akira_ccsds.Base.{Errno, Result, ok, err}
use akira_ccsds.Tm.State.{Config}
use akira_ccsds.Tm.State.{PipeOps, Vc, Tm}
use akira_ccsds.Tm.State.{fresh_vc, vc_at}
use akira_ccsds.Tm.Stream.{PipeLaws, queued, IsCounted}
use akira_ccsds.Tm.Queue.{write_loop, add}
use akira_ccsds.Tm.Frames.{IsPacket}

Result-cases {ℓ} :
    {A : Type ℓ} (r : Result A) → ((a : A) × (r ≡ ok a)) ⊎ ((e : Errno) × (r ≡ err e))
Result-cases (ok a) = inl (a, refl)
Result-cases (err e) = inr (e, refl)

-- The checks of `add` before the lock.
abbrev pub IsAccepted : Config → ℕ → List ℕ → Type 0
IsAccepted c vcid packet =
    IsPacket packet
    × (length packet ≤ c.max_space_packet_len)
    × (length packet ≤ c.queue_depth)
    × (vcid ≤ 7)

take-nil : (n : ℕ) → take {A = ℕ} n [] ≡ []
take-nil zero = refl
take-nil (suc n) = refl

take_at : (m n y : ℕ) (ys : List ℕ) → m ≡ n → take m (y ∷ ys) ≡ take n (y ∷ ys)
take_at m n y ys h = ap (λ t. take t (y ∷ ys)) h

append-take-drop :
    (xs left : List ℕ) (n k : ℕ)
    → (xs ++ take n left) ++ take k (drop n left) ≡ xs ++ take (n + k) left
append-take-drop xs left n k =
    append_assoc xs (take n left) (take k (drop n left)) ∙ ap (λ t. xs ++ t) (joined n left)
  where
    joined : (m : ℕ) (ys : List ℕ) → take m ys ++ take k (drop m ys) ≡ take (m + k) ys
    joined zero ys = ap (λ t. take t ys) (omega arith)
    joined (suc m) [] = take-nil k ∙ sym (take-nil (suc m + k))
    joined (suc m) (y ∷ ys) =
        ap (λ t. y ∷ t) (joined m ys) ∙ take_at (suc (m + k)) (suc m + k) y ys (omega arith)

err-ne-ok {ℓ} : {A : Type ℓ} {a : A} (e : Errno) → ¬ (Path (Result A) (err e) (ok a))
err-ne-ok e h = cc

module _ {P : Type 0} (ops : PipeOps P) where
  write_loop-none :
      (fuel : ℕ) (left : List ℕ) (vc : Vc P)
      → length left ≡ 0
      → write_loop ops fuel left vc ≡ (ok tt, vc)
  unfolding write_loop
  write_loop-none zero left vc h = refl
  write_loop-none (suc fuel) left vc h = ground arith

  write_loop-err :
      (fuel : ℕ) (left : List ℕ) (vc : Vc P) (e : Errno)
      → 0 < length left
      → (ops.write left vc.pending).0 ≡ err e
      → write_loop ops (suc fuel) left vc
        ≡ (err e, record vc { pending = (ops.write left vc.pending).1 })
  unfolding write_loop
  write_loop-err fuel left vc e some_left h = ground (arith, h)

  write_loop-ok :
      (fuel : ℕ) (left : List ℕ) (vc : Vc P) (n : ℕ)
      → 0 < length left
      → 0 < n
      → (ops.write left vc.pending).0 ≡ ok n
      → write_loop ops (suc fuel) left vc
        ≡ write_loop ops fuel (drop n left) (record vc {
          pending = (ops.write left vc.pending).1;
          pending_len = vc.pending_len + n;
        })
  unfolding write_loop
  write_loop-ok fuel left vc n some_left some_written h = ground (arith, h)

  module _ (laws : PipeLaws ops) where
    -- `sent` bytes of `left` were put at the end of the queue: all, unless there was an error.
    pub record Sent (left : List ℕ) (vc : Vc P) (out : Result (Unit {0}) × Vc P) : Type 0 where
      pub sent : ℕ
      pub queue : queued ops laws (out.1) ≡ queued ops laws vc ++ take sent left
      pub counted : IsCounted ops laws (out.1)
      pub same_rem : (out.1).packet_rem ≡ vc.packet_rem
      pub all_sent : out.0 ≡ ok tt → length left ≤ sent

    Sent-none :
        (fuel : ℕ) (left : List ℕ) (vc : Vc P)
        → length left ≡ 0
        → IsCounted ops laws vc
        → Sent left vc (write_loop ops fuel left vc)
    Sent-none fuel left vc none_left counted =
        subst (Sent left vc) (sym (write_loop-none fuel left vc none_left)) record {
          sent = 0;
          queue = sym (append-nil (queued ops laws vc));
          counted = counted;
          same_rem = refl;
          all_sent = λ h. omega arith;
        }

    Sent-err :
        (fuel : ℕ) (left : List ℕ) (vc : Vc P) (e : Errno)
        → 0 < length left
        → IsCounted ops laws vc
        → (ops.write left vc.pending).0 ≡ err e
        → Sent left vc (write_loop ops (suc fuel) left vc)
    Sent-err fuel left vc e some_left counted h =
        subst (Sent left vc) (sym (write_loop-err fuel left vc e some_left h)) record {
          sent = 0;
          queue = laws.write-err left vc.pending e h ∙ sym (append-nil (queued ops laws vc));
          counted = counted ∙ ap length (sym (laws.write-err left vc.pending e h));
          same_rem = refl;
          all_sent = λ bad. absurd (err-ne-ok e bad);
        }

    Sent-ok :
        (fuel : ℕ) (left : List ℕ) (vc : Vc P) (n : ℕ)
        → 0 < length left
        → (h : (ops.write left vc.pending).0 ≡ ok n)
        → laws.contents ((ops.write left vc.pending).1) ≡ queued ops laws vc ++ take n left
        → 0 < n
        → (let after : Vc P = record vc {
          pending = (ops.write left vc.pending).1;
          pending_len = vc.pending_len + n;
        } in
            Sent (drop n left) after (write_loop ops fuel (drop n left) after))
        → Sent left vc (write_loop ops (suc fuel) left vc)
    Sent-ok fuel left vc n some_left h added some_sent rest =
        subst (Sent left vc) (sym (write_loop-ok fuel left vc n some_left some_sent h)) record {
          sent = n + rest.sent;
          queue =
              rest.queue
              ∙ (ap (λ t. t ++ take rest.sent (drop n left)) added
                  ∙ append-take-drop (queued ops laws vc) left n rest.sent);
          counted = rest.counted;
          same_rem = rest.same_rem;
          all_sent = λ done_well. omega (arith, rest.all_sent done_well, length-drop n left);
        }

    write_loop-Sent :
        (fuel : ℕ) (left : List ℕ) (vc : Vc P)
        → length left ≤ fuel
        → IsCounted ops laws vc
        → Sent left vc (write_loop ops fuel left vc)
    write_loop-Sent zero left vc enough counted = Sent-none zero left vc (omega arith) counted
    write_loop-Sent (suc fuel) [] vc enough counted = Sent-none (suc fuel) [] vc refl counted
    write_loop-Sent (suc fuel) (b ∷ bs) vc enough counted =
        elim (Result-cases ((ops.write (b ∷ bs) vc.pending).0)) [
          | inr (e, h) ↦ Sent-err fuel (b ∷ bs) vc e (omega arith) counted h
          | inl (n, h) ↦
              let (added, some_sent, most) = laws.write_lem (b ∷ bs) vc.pending n (omega arith) h in
              Sent-ok fuel (b ∷ bs) vc n (omega arith) h added some_sent (
                write_loop-Sent fuel (drop n (b ∷ bs))
                  (record vc {
                    pending = (ops.write (b ∷ bs) vc.pending).1;
                    pending_len = vc.pending_len + n;
                  })
                  (omega (arith, length-drop n (b ∷ bs)))
                  (omega (
                    arith,
                    counted,
                    ap length added,
                    length-append (queued ops laws vc) (take n (b ∷ bs)),
                    length-take n (b ∷ bs),
                  )))
        ]

    module _ {R C : Type 0} (c : Config) where
      add-accepted :
          (tm : Tm P R C) (vcid : ℕ) (packet : List ℕ)
          → IsAccepted c vcid packet
          → add ops c tm vcid packet none ≡ (
              let out = write_loop ops (length packet) packet (vc_at ops tm vcid) in
              (out.0, record tm { vcs = set tm.vcs vcid (out.1) }))
      unfolding add
      add-accepted tm vcid packet ((long, whole), most, deep, channel) = ground (arith, whole)

      -- A packet that passes the checks, for a channel whose queue is counted right, is put at the
      -- end of that queue once the lock is held: whole if `add` returns 0; if it returns an error,
      -- the bytes that were written before it stay in the queue. The count stays right, and what is
      -- left of a started packet is as before.
      pub add-Sent :
          (tm : Tm P R C) (vcid : ℕ) (packet : List ℕ)
          → IsAccepted c vcid packet
          → length tm.vcs ≡ 8
          → IsCounted ops laws (vc_at ops tm vcid)
          → Sent packet (vc_at ops tm vcid) (
            (add ops c tm vcid packet none).0,
            vc_at ops ((add ops c tm vcid packet none).1) vcid,
          )
      add-Sent tm vcid packet accepted size counted =
          subst (Sent packet (vc_at ops tm vcid)) (sym (both accepted size))
            (write_loop-Sent (length packet) packet (vc_at ops tm vcid) (omega arith) counted)
        where
          both :
              IsAccepted c vcid packet
              → length tm.vcs ≡ 8
              → (
                (add ops c tm vcid packet none).0,
                vc_at ops ((add ops c tm vcid packet none).1) vcid,
              )
                ≡ write_loop ops (length packet) packet (vc_at ops tm vcid)
          both ok_packet eight =
              ap (λ (o : Result (Unit {0}) × Tm P R C). (o.0, vc_at ops (o.1) vcid))
                (add-accepted tm vcid packet ok_packet)
              ∙ ap (λ v. ((write_loop ops (length packet) packet (vc_at ops tm vcid)).0, v))
                  (get_or-set_self tm.vcs vcid
                    ((write_loop ops (length packet) packet (vc_at ops tm vcid)).1) (fresh_vc ops)
                    (omega (arith, ok_packet.3)))
