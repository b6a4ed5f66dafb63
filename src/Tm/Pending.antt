-- ===== src/Tm/Pending.antt =====
-- `read_pending_bytes`: reading an exact number of queued bytes of a virtual channel.
use akira_ccsds.Base.{ℕ, zero, suc, ◌+◌, ◌-◌, ◌^◌}
use akira_ccsds.Base.{List, [], ◌++◌}
use akira_ccsds.Base.{leb, ◌==◌, if◌then◌else◌}
use akira_ccsds.Base.{length}
use akira_ccsds.Base.{eio, Result, ok, err, ◌>>=◌}
use akira_ccsds.Tm.State.{PipeOps, Vc}

-- `size_t` subtraction, with a 32-bit `size_t`.
unfoldable pub sub_size : ℕ → ℕ → ℕ
sub_size a b = if leb b a then a - b else a + 2 ^ 32 - b

module _ {P : Type 0} (ops : PipeOps P) where
  -- The loop, with `left` bytes still to read, on fuel: every round that goes on reads a byte, so
  -- `left` rounds are enough.
  unfoldable pub read_loop : ℕ → ℕ → Vc P → Result (List ℕ) × Vc P
  read_loop zero left vc = (ok [], vc)
  read_loop (suc fuel) left vc =
      let got = ops.read left vc.pending in
      elim got.0 [
        | err e ↦ if left == 0 then (ok [], vc) else (err e, record vc { pending = got.1 })
        | ok bytes ↦
            let after : Vc P = record vc {
              pending = got.1;
              pending_len = sub_size vc.pending_len (length bytes);
            } in
            let rest = read_loop fuel (left - length bytes) after in
            if left == 0
            then (ok [], vc)
            else if length bytes == 0
            then (err eio, record vc { pending = got.1 })
            else (rest.0 >>= (λ more. ok (bytes ++ more)), rest.1)
      ]

  unfoldable pub read_pending_bytes : ℕ → Vc P → Result (List ℕ) × Vc P
  read_pending_bytes len vc = read_loop len len vc
