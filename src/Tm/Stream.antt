-- ===== src/Tm/Stream.antt =====
-- What a pipe promises, and reads of an exact number of bytes.
use akira_ccsds.Base.{ℕ, zero, suc, ◌+◌, ◌-◌, ◌≤◌, ◌<◌}
use akira_ccsds.Base.{◌≡◌, refl, sym, ap, ◌∙◌, arith}
use akira_ccsds.Base.{List, [], ◌++◌, append_assoc}
use akira_ccsds.Base.{length, take, length-append}
use akira_ccsds.Base.{Errno, Result, ok, err, ◌>>=◌}
use akira_ccsds.Tm.State.{PipeOps, Vc}
use akira_ccsds.Tm.Pending.{sub_size, read_loop, read_pending_bytes}

pub sub_size-le : (a b : ℕ) → b ≤ a → sub_size a b ≡ a - b
unfolding sub_size
sub_size-le a b h = ground arith

module _ {P : Type 0} (ops : PipeOps P) where
  -- A pipe as a byte queue: a read of a pipe that is not empty takes a nonempty prefix, a write
  -- puts a nonempty prefix of the data at the end or fails and changes nothing.
  pub record PipeLaws : Type 0 where
    pub contents : P → List ℕ
    pub fresh-contents : contents ops.fresh ≡ []
    pub read_lem :
        (n : ℕ) (p : P)
        → 0 < n
        → 0 < length (contents p)
        → (bytes : List ℕ) × ((ops.read n p).0 ≡ ok bytes)
          × (contents p ≡ bytes ++ contents ((ops.read n p).1))
          × (0 < length bytes)
          × (length bytes ≤ n)
    pub write_lem :
        (bytes : List ℕ) (p : P) (n : ℕ)
        → 0 < length bytes
        → (ops.write bytes p).0 ≡ ok n
        → (contents ((ops.write bytes p).1) ≡ contents p ++ take n bytes)
          × (0 < n)
          × (n ≤ length bytes)
    pub write-err :
        (bytes : List ℕ) (p : P) (e : Errno)
        → (ops.write bytes p).0 ≡ err e
        → contents ((ops.write bytes p).1) ≡ contents p

  read_loop-ok :
      (fuel left : ℕ) (vc : Vc P) (bytes : List ℕ)
      → (ops.read left vc.pending).0 ≡ ok bytes
      → 0 < left
      → 0 < length bytes
      → read_loop ops (suc fuel) left vc ≡ (
          let rest : Result (List ℕ) × Vc P = read_loop ops fuel (left - length bytes) (record vc {
            pending = (ops.read left vc.pending).1;
            pending_len = sub_size vc.pending_len (length bytes);
          }) in
          (rest.0 >>= (λ more. ok (bytes ++ more)), rest.1))
  unfolding read_loop
  read_loop-ok fuel left vc bytes eq some_left some_read = ground (arith, eq)

  read_loop-zero : (fuel : ℕ) (vc : Vc P) → read_loop ops fuel 0 vc ≡ (ok [], vc)
  unfolding read_loop
  read_loop-zero zero vc = refl
  read_loop-zero (suc fuel) vc = ground arith

  module _ (laws : PipeLaws) where
    -- The queue of a channel, whose length the channel keeps count of.
    abbrev pub queued : Vc P → List ℕ
    queued vc = laws.contents vc.pending

    abbrev pub IsCounted : Vc P → Type 0
    IsCounted vc = vc.pending_len ≡ length (queued vc)

    -- A read that took `left` bytes off the queue of `vc` and changed nothing else that matters.
    pub record Taken (left : ℕ) (vc : Vc P) (out : Result (List ℕ) × Vc P) : Type 0 where
      pub bytes : List ℕ
      pub next : Vc P
      pub result : out ≡ (ok bytes, next)
      pub size : length bytes ≡ left
      pub split : queued vc ≡ bytes ++ queued next
      pub counted : IsCounted next
      pub same_rem : next.packet_rem ≡ vc.packet_rem

    read_loop-Taken :
        (fuel left : ℕ) (vc : Vc P)
        → left ≤ fuel
        → IsCounted vc
        → left ≤ length (queued vc)
        → Taken left vc (read_loop ops fuel left vc)
    read_loop-Taken fuel zero vc enough counted there = record {
      bytes = [];
      next = vc;
      result = read_loop-zero fuel vc;
      size = refl;
      split = refl;
      counted = counted;
      same_rem = refl;
    }
    read_loop-Taken zero (suc left) vc enough counted there = absurd (omega arith)
    read_loop-Taken (suc fuel) (suc left) vc enough counted there =
        let (bytes, eq, split, some_read, most) =
          laws.read_lem (suc left) vc.pending (omega arith) (omega arith) in
        let vc1 : Vc P = record vc {
          pending = (ops.read (suc left) vc.pending).1;
          pending_len = sub_size vc.pending_len (length bytes);
        } in
        let total : length (queued vc) ≡ length bytes + length (queued vc1) =
          ap length split ∙ length-append bytes (queued vc1) in
        let rest =
          read_loop-Taken fuel (suc left - length bytes) vc1 (omega arith)
            (sub_size-le vc.pending_len (length bytes) (omega arith) ∙ omega arith) (omega arith) in
        record {
          bytes = bytes ++ rest.bytes;
          next = rest.next;
          result =
              read_loop-ok fuel (suc left) vc bytes eq (omega arith) some_read
              ∙ ap (λ (o : Result (List ℕ) × Vc P). (o.0 >>= (λ more. ok (bytes ++ more)), o.1))
                  rest.result;
          size = omega (arith, length-append bytes rest.bytes, rest.size);
          split =
              split
              ∙ (ap (λ t. bytes ++ t) rest.split
                  ∙ sym (append_assoc bytes rest.bytes (queued rest.next)));
          counted = rest.counted;
          same_rem = rest.same_rem;
        }

    -- A read of bytes that are all queued takes them.
    pub read_pending_bytes_lem :
        (left : ℕ) (vc : Vc P)
        → IsCounted vc
        → left ≤ length (queued vc)
        → Taken left vc (read_pending_bytes ops left vc)
    unfolding read_pending_bytes
    read_pending_bytes_lem left vc counted there =
        read_loop-Taken left left vc (omega arith) counted there
