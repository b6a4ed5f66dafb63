-- ===== src/Tc/Cltu/Delivery.antt =====
-- What the decoder makes of a message whose blocks were hit by errors.
use akira_ccsds.Base.{ℕ, suc, ◌+◌, ◌-◌, ◌*◌, ◌/◌, ◌%◌, ◌≤◌, ◌<◌}
use akira_ccsds.Base.{◌≡◌, refl, sym, ap, ◌∙◌, ◌⊎◌, inl, inr, arith}
use akira_ccsds.Base.{true, List, [], ◌∷◌, ◌++◌, map, append_assoc}
use akira_ccsds.Base.{
  length, take, All, length-append, length-set, take-append, drop-append, get_or-append, concat,
}
use akira_ccsds.Base.{byte_at}
use akira_ccsds.Base.{ok}
use akira_ccsds.Tc.Bch.{block_size, data_size, intact, corrected}
use akira_ccsds.Tc.Bch.{flip, Decoded}
use akira_ccsds.Tc.Bch.{correct, decode_block}
use akira_ccsds.Tc.Bch.Correction.{IsBlock, decode_block-single}
use akira_ccsds.Tc.Cltu.{
  is_start_sequence, tail_sequence, matches_tail, has_tail_sequence, decode_blocks, decode_message,
}

abbrev pub IsIntact : List ℕ → Type 0
IsIntact block = IsBlock block × ((decode_block block).verdict ≡ intact)

-- A sent block and what arrives of it: at most one of the 63 bits that the code covers is flipped.
pub data Arrives (sent : List ℕ) : List ℕ → Type 0 where
  unharmed : Arrives sent sent
  harmed : (k : ℕ) → k < 63 → Arrives sent (flip k sent)

pub data Delivered : List (List ℕ) → List (List ℕ) → Type 0 where
  none_left : Delivered [] []
  another :
      {sent received : List ℕ} {sents receiveds : List (List ℕ)}
      → Arrives sent received
      → Delivered sents receiveds
      → Delivered (sent ∷ sents) (received ∷ receiveds)

abbrev pub IsDecoded : List ℕ → Decoded → Type 0
IsDecoded sent d =
    ((d.verdict ≡ intact) ⊎ (d.verdict ≡ corrected)) × (d.payload ≡ take data_size sent)

intact_payload :
    (b : List ℕ) → (decode_block b).verdict ≡ intact → (decode_block b).payload ≡ take data_size b
unfolding decode_block correct
intact_payload b h = ground arith

length-flip : (k : ℕ) (b : List ℕ) → length (flip k b) ≡ length b
unfolding flip
length-flip k b = length-set b (k / 8) _

Arrives-IsDecoded :
    {sent received : List ℕ}
    → IsIntact sent
    → Arrives sent received
    → IsDecoded sent (decode_block received) × (length received ≡ block_size)
Arrives-IsDecoded {sent} (w, good) unharmed = ((inl good, intact_payload sent good), w.size)
Arrives-IsDecoded {sent} (w, good) (harmed k h) =
    rw (decode_block-single sent k w h good) ((inr refl, refl), length-flip k sent ∙ w.size)

block_step :
    (count : ℕ) (received rest bytes : List ℕ) (sent : List ℕ)
    → IsDecoded sent (decode_block received)
    → length received ≡ block_size
    → decode_blocks count rest ≡ ok bytes
    → decode_blocks (suc count) (received ++ rest) ≡ ok (take data_size sent ++ bytes)
unfolding decode_blocks
block_step count received rest bytes sent d size e = ground (
  arith,
  d,
  e,
  ap decode_block (take-append received rest 8 (sym size)),
  ap (decode_blocks count) (drop-append received rest 8 (sym size)),
)

-- The blocks, one after the other, with anything behind them.
decode_blocks-Delivered :
    {sents receiveds : List (List ℕ)} (rest : List ℕ)
    → All IsIntact sents
    → Delivered sents receiveds
    → decode_blocks (length sents) (concat receiveds ++ rest)
      ≡ ok (concat (map (take data_size) sents))
decode_blocks-Delivered rest good none_left = unfold decode_blocks in refl
decode_blocks-Delivered {sents = sent ∷ sents} {receiveds = received ∷ receiveds} rest good
      (another a d) =
    let (decoded, size) = Arrives-IsDecoded good.0 a in
    rw (append_assoc received (concat receiveds) rest) (
      block_step (length sents) received (concat receiveds ++ rest)
        (concat (map (take data_size) sents)) sent decoded size
        (decode_blocks-Delivered rest good.1 d))

length-Delivered :
    {sents receiveds : List (List ℕ)}
    → All IsIntact sents
    → Delivered sents receiveds
    → length (concat receiveds) ≡ length sents * block_size
length-Delivered good none_left = refl
length-Delivered {sents = sent ∷ sents} {receiveds = received ∷ receiveds} good (another a d) =
    let (decoded, size) = Arrives-IsDecoded good.0 a in
    omega (arith, size, length-append received (concat receiveds), length-Delivered good.1 d)

tail_byte :
    (bytes : List ℕ) (i : ℕ)
    → byte_at (bytes ++ tail_sequence) (length bytes + i) ≡ byte_at tail_sequence i
tail_byte bytes i =
    get_or-append bytes tail_sequence (length bytes + i) 0 (omega arith)
    ∙ ap (byte_at tail_sequence) (omega arith)

matches_tail-append :
    (bytes : List ℕ) → matches_tail 7 0 (length bytes) (bytes ++ tail_sequence) ≡ true
unfolding matches_tail
matches_tail-append bytes =
    rw
      (
        tail_byte bytes 0,
        tail_byte bytes 1,
        tail_byte bytes 2,
        tail_byte bytes 3,
        tail_byte bytes 4,
        tail_byte bytes 5,
        tail_byte bytes 6,
      )
      refl

has_tail-append : (bytes : List ℕ) → has_tail_sequence (bytes ++ tail_sequence) ≡ true
unfolding has_tail_sequence
has_tail-append bytes =
    let last : length (bytes ++ tail_sequence) - 1 ≡ length bytes + 7 =
      omega (arith, length-append bytes tail_sequence) in
    let first : length (bytes ++ tail_sequence) - block_size ≡ length bytes =
      omega (arith, length-append bytes tail_sequence) in
    rw (last, first, tail_byte bytes 7) (matches_tail-append bytes)

-- A message of at least one and at most 126 BCH blocks, each intact when sent and with at most one
-- flipped bit among its 63 on arrival, behind a start sequence that is recognised and before the
-- tail sequence, is decoded to the data bytes that were sent, if the output buffer holds them.
pub decode_message-Delivered :
    (a b : ℕ) (sents receiveds : List (List ℕ)) (cap : ℕ)
    → is_start_sequence (a ∷ b ∷ []) ≡ true
    → 1 ≤ length sents
    → length sents ≤ 126
    → All IsIntact sents
    → Delivered sents receiveds
    → length sents * data_size ≤ cap
    → decode_message (a ∷ b ∷ concat receiveds ++ tail_sequence) cap
      ≡ ok (concat (map (take data_size) sents))
unfolding decode_message is_start_sequence
decode_message-Delivered a b sents receiveds cap start some_block few good d room =
    let body = concat receiveds in
    let size = length-append (a ∷ b ∷ body) tail_sequence in
    let body_size = length-Delivered good d in
    let count : (length (a ∷ b ∷ body ++ tail_sequence) - 2) / block_size - 1 ≡ length sents =
      omega (arith, size, body_size) in
    let aligned : (length (a ∷ b ∷ body ++ tail_sequence) - 2) % block_size ≡ 0 =
      omega (arith, size, body_size) in
    ground (
      arith,
      start,
      count,
      aligned,
      size,
      body_size,
      has_tail-append (a ∷ b ∷ body),
      decode_blocks-Delivered tail_sequence good d,
    )
