-- ===== src/Tc/Bch/Syndrome.antt =====
-- The syndrome is linear in the bits of a block: what one flipped bit does to it.
use akira_ccsds.Base.{ℕ, zero, suc, ◌+◌, ◌-◌, ◌≤◌, ◌<◌, bit_xor}
use akira_ccsds.Base.{◌≡◌, refl, sym, ap, ◌∙◌, ◌≢◌, arith}
use akira_ccsds.Base.{Bool, true, ◌&&◌, not, List}
use akira_ccsds.Base.{ltb, leb, ◌==◌, if◌then◌else◌, ==_iff, all_below, all_below_sound}
use akira_ccsds.Base.Xor.{bit_xor_cancel, bit_xor-lt}
use akira_ccsds.Base.Xor.{bit_xor_swap}
use akira_ccsds.Tc.Bch.{Scan}
use akira_ccsds.Tc.Bch.{block_bit, shift_in, scan_bit, scan}
use native.Mathlib.Decide.{ℕ_discrete}

-- The register steps with every error pattern beside it.
linear_rows :
    all_below 64
      (λ s. all_below 64 (λ d. shift_in (bit_xor s d) 0 == bit_xor (shift_in s 0) (shift_in d 0)))
    ≡ true
unfolding all_below shift_in
linear_rows = refl

one_rows :
    all_below 64 (λ s. (shift_in s 1 == bit_xor (shift_in s 0) 1) && ltb (shift_in s 0) 64) ≡ true
unfolding all_below shift_in
one_rows = refl

shift_in-linear :
    (s d : ℕ) → s < 64 → d < 64 → shift_in (bit_xor s d) 0 ≡ bit_xor (shift_in s 0) (shift_in d 0)
shift_in-linear s d hs hd =
    (==_iff _ _).0 (all_below_sound 64 _ d (all_below_sound 64 _ s linear_rows hs) hd)

shift_in_facts : (s : ℕ) → s < 64 → (shift_in s 1 ≡ bit_xor (shift_in s 0) 1) × (shift_in s 0 < 64)
shift_in_facts s h =
    let row = all_below_sound 64 _ s one_rows h in (ground (arith, row), ground (arith, row))

shift_in-lt : (s b : ℕ) → s < 64 → b < 2 → shift_in s b < 64
shift_in-lt s zero h hb = (shift_in_facts s h).1
shift_in-lt s (suc zero) h hb =
    rw ((shift_in_facts s h).0)
      (bit_xor-lt 6 (shift_in s 0) 1 ((shift_in_facts s h).1) (omega arith))
shift_in-lt s (suc (suc b)) h hb = absurd (omega arith)

-- Data bit or error bit, both leave the register the same way.
shift_in-both :
    (s d b : ℕ)
    → s < 64
    → d < 64
    → b < 2
    → shift_in (bit_xor s d) b ≡ bit_xor (shift_in s b) (shift_in d 0)
shift_in-both s d zero hs hd hb = shift_in-linear s d hs hd
shift_in-both s d (suc zero) hs hd hb =
    (shift_in_facts (bit_xor s d) (bit_xor-lt 6 s d hs hd)).0
    ∙ ap (λ t. bit_xor t 1) (shift_in-linear s d hs hd)
    ∙ bit_xor_swap (shift_in s 0) (shift_in d 0) 1
    ∙ ap (λ t. bit_xor t (shift_in d 0)) (sym ((shift_in_facts s hs).0))
shift_in-both s d (suc (suc b)) hs hd hb = absurd (omega arith)

-- The register that an error bit leaves after that many further rounds.
unfoldable pub error_after : ℕ → ℕ → ℕ
error_after zero d = d
error_after (suc rounds) d = error_after rounds (shift_in d 0)

error_after-suc : (rounds d : ℕ) → error_after (suc rounds) d ≡ error_after rounds (shift_in d 0)
unfolding error_after
error_after-suc rounds d = refl

-- The bit that a round takes in.
sent_bit : List ℕ → ℕ → ℕ
sent_bit block i = if leb 56 i then bit_xor (block_bit block i) 1 else block_bit block i

block_bit-lt : (block : List ℕ) (i : ℕ) → block_bit block i < 2
unfolding block_bit
block_bit-lt block i = omega arith

sent_bit-lt : (block : List ℕ) (i : ℕ) → sent_bit block i < 2
unfolding sent_bit
sent_bit-lt block i = ground (arith, block_bit-lt block i, bit_xor-lt 1 (block_bit block i) 1)

sent_bit-same :
    (block noisy : List ℕ) (i : ℕ)
    → block_bit noisy i ≡ block_bit block i
    → sent_bit noisy i ≡ sent_bit block i
unfolding sent_bit
sent_bit-same block noisy i e = ap (λ t. if leb 56 i then bit_xor t 1 else t) e

-- The state after one round that takes in the bit `b`.
abbrev after : ℕ → ℕ → Bool → Scan
after b s p = record { syndrome = shift_in s b; odd_parity = if b == 0 then p else not p }

scan-suc :
    (rounds i s : ℕ) (p : Bool) (block : List ℕ)
    → scan (suc rounds) block i (record { syndrome = s; odd_parity = p })
      ≡ scan rounds block (suc i) (after (sent_bit block i) s p)
unfolding scan scan_bit sent_bit
scan-suc rounds i s p block = refl

-- What a flipped bit does to the register and the parity by the end of the scan.
abbrev pub Differs : ℕ → Scan → Scan → Type 0
Differs d out out' =
    (out'.syndrome ≡ bit_xor out.syndrome d) × (out'.odd_parity ≡ not out.odd_parity)

-- Two blocks that agree from bit `i` on keep the difference of their registers, as the register
-- itself moves it, and the difference of their parities.
scan-agree :
    (rounds i s d : ℕ) (p : Bool) (block noisy : List ℕ)
    → s < 64
    → d < 64
    → ((j : ℕ) → i ≤ j → block_bit noisy j ≡ block_bit block j)
    → Differs
        (error_after rounds d)
        (scan rounds block i (record { syndrome = s; odd_parity = p }))
        (scan rounds noisy i (record { syndrome = bit_xor s d; odd_parity = not p }))
scan-agree zero i s d p block noisy hs hd same = unfold scan error_after in (refl, refl)
scan-agree (suc rounds) i s d p block noisy hs hd same =
    let b = sent_bit block i in
    let hb = sent_bit-lt block i in
    rw
      (
        scan-suc rounds i s p block,
        scan-suc rounds i (bit_xor s d) (not p) noisy,
        sent_bit-same block noisy i (same i (omega arith)),
        shift_in-both s d b hs hd hb,
        flipped b,
        error_after-suc rounds d,
      )
      (scan-agree rounds (suc i) (shift_in s b) (shift_in d 0) (if b == 0 then p else not p) block
        noisy (shift_in-lt s b hs hb) ((shift_in_facts d hd).1) (λ j h. same j (omega arith)))
  where
    flipped : (b : ℕ) → (if b == 0 then not p else not (not p)) ≡ not (if b == 0 then p else not p)
    flipped b = ground arith

shift_in-opposite : (s b : ℕ) → s < 64 → b < 2 → shift_in s (1 - b) ≡ bit_xor (shift_in s b) 1
shift_in-opposite s zero h hb = (shift_in_facts s h).0
shift_in-opposite s (suc zero) h hb =
    sym (rw ((shift_in_facts s h).0) (bit_xor_cancel (shift_in s 0) 1))
shift_in-opposite s (suc (suc b)) h hb = absurd (omega arith)

sent_bit-opposite :
    (block noisy : List ℕ) (k : ℕ)
    → block_bit noisy k ≡ 1 - block_bit block k
    → sent_bit noisy k ≡ 1 - sent_bit block k
unfolding sent_bit
sent_bit-opposite block noisy k e = rw e (go (block_bit block k) (block_bit-lt block k))
  where
    go :
        (b : ℕ)
        → b < 2
        → (if leb 56 k then bit_xor (1 - b) 1 else 1 - b)
          ≡ 1 - (if leb 56 k then bit_xor b 1 else b)
    go zero h = ground arith
    go (suc zero) h = ground arith
    go (suc (suc b)) h = absurd (omega arith)

scan-at :
    (rounds k s : ℕ) (p : Bool) (block noisy : List ℕ)
    → s < 64
    → block_bit noisy k ≡ 1 - block_bit block k
    → ((j : ℕ) → j ≢ k → block_bit noisy j ≡ block_bit block j)
    → Differs
        (error_after rounds 1)
        (scan (suc rounds) block k (record { syndrome = s; odd_parity = p }))
        (scan (suc rounds) noisy k (record { syndrome = s; odd_parity = p }))
scan-at rounds k s p block noisy hs here same =
    let b = sent_bit block k in
    let hb = sent_bit-lt block k in
    rw
      (
        scan-suc rounds k s p block,
        scan-suc rounds k s p noisy,
        sent_bit-opposite block noisy k here,
        shift_in-opposite s b hs hb,
        flipped b hb,
      )
      (scan-agree rounds (suc k) (shift_in s b) 1 (if b == 0 then p else not p) block noisy
        (shift_in-lt s b hs hb) (omega arith) (λ j h. same j (λ e. omega arith)))
  where
    flipped :
        (b : ℕ) → b < 2 → (if 1 - b == 0 then p else not p) ≡ not (if b == 0 then p else not p)
    flipped b h = ground arith

-- Two blocks that differ in bit `k` alone, scanned from the same state before it.
pub scan-flipped :
    (rounds i k s : ℕ) (p : Bool) (block noisy : List ℕ)
    → s < 64
    → i ≤ k
    → k < i + rounds
    → block_bit noisy k ≡ 1 - block_bit block k
    → ((j : ℕ) → j ≢ k → block_bit noisy j ≡ block_bit block j)
    → Differs
        (error_after (i + rounds - suc k) 1)
        (scan rounds block i (record { syndrome = s; odd_parity = p }))
        (scan rounds noisy i (record { syndrome = s; odd_parity = p }))
scan-flipped zero i k s p block noisy hs le lt here same = absurd (omega arith)
scan-flipped (suc rounds) i k s p block noisy hs le lt here same = elim (ℕ_discrete i k) [
  | yes e ↦
      let left : i + suc rounds - suc k ≡ rounds = omega arith in
      rw (left, e) (scan-at rounds k s p block noisy hs here same)
  | no ne ↦
      let left : i + suc rounds - suc k ≡ suc i + rounds - suc k = omega arith in
      let b = sent_bit block i in
      let rest =
        scan-flipped rounds (suc i) k (shift_in s b) (if b == 0 then p else not p) block noisy
          (shift_in-lt s b hs (sent_bit-lt block i)) (omega arith) (omega arith) here same in
      rw
        (
          left,
          scan-suc rounds i s p block,
          scan-suc rounds i s p noisy,
          sent_bit-same block noisy i (same i ne),
        )
        rest
]
