-- ===== src/Tc/Bch/Correction.antt =====
-- What the decoder does with one and with two flipped bits.
use akira_ccsds.Base.{ℕ, suc, ◌+◌, ◌-◌, ◌/◌, ◌%◌, ◌^◌, ◌<◌, bit_xor}
use akira_ccsds.Base.{◌≡◌, refl, sym, ap, ◌∙◌, ◌≢◌, inl, inr, arith}
use akira_ccsds.Base.{Bool, true, false, ◌&&◌, ◌||◌, not, Option, none, some, List}
use akira_ccsds.Base.{
  ltb, ◌==◌, if◌then◌else◌, ==_iff, ==_refl, Bool-cases, all_below, all_below_sound,
}
use akira_ccsds.Base.{
  length, set, take, length-set, length-take, take-set, set_beyond, get_or-take, set_back, All-set,
  get_or-set_self, get_or-set_ne,
}
use akira_ccsds.Base.{IsByte, AllBytes, byte_at, byte_at-IsByte}
use akira_ccsds.Base.Xor.{zero-bit_xor, bit_xor_cancel, bit_xor-lt}
use akira_ccsds.Tc.Bch.{block_size, data_size, intact, corrected, detected_even}
use akira_ccsds.Tc.Bch.{block_bit, shift_in, previous_single, find_single, flip}
use akira_ccsds.Tc.Bch.{correct, scanned, decode_block}
use akira_ccsds.Tc.Bch.Syndrome.{error_after, Differs, scan-flipped}
use native.Mathlib.Decide.{ℕ_discrete}

-- The register that one error at bit `k` leaves, at the end of the 63 rounds.
abbrev error_at : ℕ → ℕ
error_at k = error_after (62 - k) 1

-- Every single error has a syndrome of its own, not 0, that the search finds.
found_rows :
    all_below 63 (λ k.
      elim (find_single 63 0 0x21 (error_at k)) [ none ↦ false | some i ↦ i == k ]
      && not (error_at k == 0)
      && all_below 63 (λ j. (j == k) || not (bit_xor (error_at j) (error_at k) == 0)))
    ≡ true
unfolding all_below find_single error_after shift_in previous_single
found_rows = refl

some_of_test :
    (o : Option ℕ) (k : ℕ) → (elim o [ none ↦ false | some i ↦ i == k ]) ≡ true → o ≡ some k
some_of_test none k h = absurd (ground arith)
some_of_test (some i) k h = ground arith

and_true : (a b c : Bool) → (a && b && c) ≡ true → (a ≡ true) × (b ≡ true) × (c ≡ true)
and_true a b c h = ground arith

error_at_facts :
    (k : ℕ)
    → k < 63
    → (find_single 63 0 0x21 (error_at k) ≡ some k)
      × (error_at k ≢ 0)
      × ((j : ℕ) → j < 63 → j ≢ k → bit_xor (error_at j) (error_at k) ≢ 0)
error_at_facts k h =
    let parts = and_true _ _ _ (all_below_sound 63 _ k found_rows h) in
    (
      some_of_test _ k parts.0,
      λ e. ground (arith, parts.1),
      λ j hj ne e. ground (arith, all_below_sound 63 _ j parts.2 hj),
    )

-- One flipped bit of a byte, at each place.
flip_rows :
    all_below 256 (λ x. all_below 8 (λ m. all_below 8 (λ j.
      bit_xor x (0x80 / 2 ^ m) / 2 ^ (7 - j) % 2
      == (if m == j then 1 - x / 2 ^ (7 - j) % 2 else x / 2 ^ (7 - j) % 2))))
    ≡ true
unfolding all_below
flip_rows = refl

flip_byte :
    (x m j : ℕ)
    → x < 256
    → m < 8
    → j < 8
    → bit_xor x (0x80 / 2 ^ m) / 2 ^ (7 - j) % 2
      ≡ (if m == j then 1 - x / 2 ^ (7 - j) % 2 else x / 2 ^ (7 - j) % 2)
flip_byte x m j hx hm hj =
    (==_iff _ _).0
      (all_below_sound 8 _ j (all_below_sound 8 _ m (all_below_sound 256 _ x flip_rows hx) hm) hj)

-- A received block: eight bytes.
pub record IsBlock (block : List ℕ) : Type 0 where
  pub size : length block ≡ block_size
  pub bytes : AllBytes block

block_bit-flip :
    (block : List ℕ) (k j : ℕ)
    → IsBlock block
    → k < 64
    → block_bit (flip k block) j ≡ (if k == j then 1 - block_bit block j else block_bit block j)
unfolding block_bit flip
block_bit-flip block k j w hk = elim (ℕ_discrete (k / 8) (j / 8)) [
  | yes e ↦
      let x = byte_at block (k / 8) in
      let bytes_equal : (k % 8 == j % 8) ≡ (k == j) = ground arith in
      rw
        (
          ← e,
          get_or-set_self block (k / 8) (bit_xor x (0x80 / 2 ^ (k % 8))) 0 (omega (arith, w.size)),
        )
        (flip_byte x (k % 8) (j % 8) (byte_at-IsByte block (k / 8) w.bytes) (omega arith)
            (omega arith)
          ∙ rw bytes_equal refl)
  | no ne ↦
      let apart : (k == j) ≡ false = ground arith in
      rw
        (
          get_or-set_ne block (k / 8) (j / 8) (bit_xor (byte_at block (k / 8)) (0x80 / 2 ^ (k % 8)))
              0 ne,
          apart,
        )
        refl
]

-- The scan of a block with one more flipped bit.
scanned-flip :
    (block : List ℕ) (k : ℕ)
    → IsBlock block
    → k < 63
    → Differs (error_at k) (scanned block) (scanned (flip k block))
scanned-flip block k w h =
    let left : 62 - k ≡ 0 + 63 - suc k = omega arith in
    rw left (
      scan-flipped 63 0 k 0 false block (flip k block) (omega arith) (omega arith) (omega arith)
        (block_bit-flip block k k w (omega arith) ∙ rw (==_refl k) refl)
        (λ j ne. block_bit-flip block k j w (omega arith) ∙ ground arith))

intact_scan :
    (block : List ℕ)
    → (decode_block block).verdict ≡ intact
    → ((scanned block).syndrome ≡ 0) × ((scanned block).odd_parity ≡ false)
unfolding decode_block correct
intact_scan block h = ground arith

-- Flipping a bit of the data field and flipping it back.
restored :
    (block : List ℕ) (k : ℕ)
    → IsBlock block
    → (if ltb k 56 then flip k (take 7 (flip k block)) else take 7 (flip k block)) ≡ take 7 block
unfolding flip
restored block k w = elim (Bool-cases (ltb k 56)) [
  | inl low ↦
      let inside : k / 8 < length (take 7 block) = ground (arith, w.size, length-take 7 block) in
      rw low (
        ap (λ t. set t i (bit_xor (byte_at t i) m)) (take-set 7 i block (bit_xor x m))
        ∙ ap (λ t. set (set data_part i (bit_xor x m)) i (bit_xor t m))
            (get_or-set_self data_part i (bit_xor x m) 0 inside)
        ∙ ap (λ t. set (set data_part i (bit_xor x m)) i t)
            (bit_xor_cancel x m ∙ sym (get_or-take 7 i block 0 (ground arith)))
        ∙ set_back data_part i (bit_xor x m) 0)
  | inr high ↦ rw high (
      take-set 7 i block (bit_xor x m)
      ∙ set_beyond data_part i (bit_xor x m) (ground (arith, w.size, length-take 7 block)))
]
  where
    i : ℕ
    i = k / 8

    m : ℕ
    m = 0x80 / 2 ^ (k % 8)

    x : ℕ
    x = byte_at block i

    data_part : List ℕ
    data_part = take 7 block

-- One flipped bit among the 63 of a block that decodes as intact is corrected: the data are those
-- of the block before the flip, and the bit is named.
pub decode_block-single :
    (block : List ℕ) (k : ℕ)
    → IsBlock block
    → k < 63
    → (decode_block block).verdict ≡ intact
    → decode_block (flip k block)
      ≡ record { verdict = corrected; payload = take data_size block; corrected_bit = some k }
unfolding decode_block correct
decode_block-single block k w h ok_block =
    let clean = intact_scan block ok_block in
    let d = scanned-flip block k w h in
    let syn : (scanned (flip k block)).syndrome ≡ error_at k =
      d.0 ∙ rw clean.0 (zero-bit_xor (error_at k)) in
    let odd : (scanned (flip k block)).odd_parity ≡ true = d.1 ∙ rw clean.1 refl in
    let facts = error_at_facts k h in ground (arith, syn, odd, facts.0, facts.1, restored block k w)

flip-IsBlock : (block : List ℕ) (k : ℕ) → IsBlock block → IsBlock (flip k block)
unfolding flip
flip-IsBlock block k w = record {
  size = length-set block (k / 8) _ ∙ w.size;
  bytes =
      All-set IsByte block (k / 8) (bit_xor (byte_at block (k / 8)) (0x80 / 2 ^ (k % 8))) w.bytes (
        bit_xor-lt 8 (byte_at block (k / 8)) (0x80 / 2 ^ (k % 8))
          (byte_at-IsByte block (k / 8) w.bytes) (omega arith));
}

-- Two different flipped bits among the 63 of a block that decodes as intact are detected.
pub decode_block-double :
    (block : List ℕ) (j k : ℕ)
    → IsBlock block
    → j < 63
    → k < 63
    → j ≢ k
    → (decode_block block).verdict ≡ intact
    → (decode_block (flip k (flip j block))).verdict ≡ detected_even
unfolding decode_block correct
decode_block-double block j k w hj hk ne ok_block =
    let clean = intact_scan block ok_block in
    let first = scanned-flip block j w hj in
    let second = scanned-flip (flip j block) k (flip-IsBlock block j w) hk in
    let syn : (scanned (flip k (flip j block))).syndrome ≡ bit_xor (error_at j) (error_at k) =
      second.0
      ∙ ap (λ t. bit_xor t (error_at k)) (first.0 ∙ rw clean.0 (zero-bit_xor (error_at j))) in
    let even : (scanned (flip k (flip j block))).odd_parity ≡ false =
      second.1 ∙ rw (first.1, clean.1) refl in
    let apart = (error_at_facts k hk).2 j hj ne in ground (arith, syn, even, apart)
