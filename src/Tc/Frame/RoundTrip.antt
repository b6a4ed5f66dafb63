-- ===== src/Tc/Frame/RoundTrip.antt =====
-- The frame decoder against the frame layout of the standard.
use akira_ccsds.Base.{ℕ, zero, suc, ◌+◌, ◌-◌, ◌*◌, ◌/◌, ◌%◌, ◌^◌, ◌≤◌, ◌<◌}
use akira_ccsds.Base.{◌≡◌, refl, ap, ◌∙◌, arith}
use akira_ccsds.Base.{Bool, List, ◌∷◌, ◌++◌}
use akira_ccsds.Base.{◌==◌, if◌then◌else◌}
use akira_ccsds.Base.{
  length, get_or, replicate, length-append, length-replicate, take-append, get_or-append,
}
use akira_ccsds.Base.{test_bit, byte_at, be16}
use akira_ccsds.Base.{eacces, ok, err}
use akira_ccsds.Tc.Frame.{fill_byte, TcFrame, frame_len, decode}

-- A frame that the ground can send: its fields fit, and it is at most 1024 bytes.
pub record IsFrame (f : TcFrame) : Type 0 where
  pub scid_fits : f.spacecraft_id < 2 ^ 10
  pub vcid_fits : f.virtual_channel_id < 2 ^ 6
  pub number_fits : f.frame_sequence_number < 256
  pub length_fits : length f.payload ≤ 1019

abbrev bit : Bool → ℕ
bit b = if b then 1 else 0

-- The bytes of a frame: version 0, the two flags, two spare bits, the spacecraft id (10 bits), the
-- virtual channel (6 bits), the length less one (10 bits), the sequence number, the data.
abbrev pub layout : ℕ → TcFrame → List ℕ
layout spare f =
    let word0 =
      bit f.bypass * 2 ^ 13 + bit f.control_command * 2 ^ 12 + spare * 2 ^ 10 + f.spacecraft_id in
    let word1 = f.virtual_channel_id * 2 ^ 10 + (length f.payload + 4) in
    be16 word0 ++ be16 word1 ++ (f.frame_sequence_number ∷ f.payload)

get_or-replicate : (n i : ℕ) (v d : ℕ) → i < n → get_or (replicate n v) i d ≡ v
get_or-replicate zero i v d h = absurd (omega arith)
get_or-replicate (suc n) zero v d h = refl
get_or-replicate (suc n) (suc i) v d h = get_or-replicate n i v d (omega arith)

-- The bytes behind the frame's data.
fill_at :
    (payload : List ℕ) (fill j : ℕ)
    → j < fill
    → byte_at (payload ++ replicate fill fill_byte) (length payload + j) ≡ fill_byte
fill_at payload fill j h =
    get_or-append payload (replicate fill fill_byte) (length payload + j) 0 (omega arith)
    ∙ get_or-replicate fill (length payload + j - length payload) fill_byte 0 (omega arith)

module _ (h0 h1 h2 h3 number : ℕ) (payload : List ℕ) (fill : ℕ) where
  abbrev frame_bytes : List ℕ
  frame_bytes = h0 ∷ h1 ∷ h2 ∷ h3 ∷ number ∷ (payload ++ replicate fill fill_byte)

  frame_fill :
      (j at : ℕ) → at ≡ length payload + j + 5 → j < fill → byte_at frame_bytes at ≡ fill_byte
  frame_fill j at e h = ap (byte_at frame_bytes) (five e) ∙ fill_at payload fill j h
    where
      five : {n : ℕ} → at ≡ n + 5 → at ≡ suc (suc (suc (suc (suc n))))
      five e = omega arith

  decode_bytes :
      (scid : ℕ)
      → h0 / 64 % 4 ≡ 0
      → (h2 * 256 + h3) % 2 ^ 10 ≡ length payload + 4
      → decode scid frame_bytes ≡ (
          if (h0 * 256 + h1) % 2 ^ 10 == scid
          then ok (record {
            spacecraft_id = (h0 * 256 + h1) % 2 ^ 10;
            virtual_channel_id = (h2 * 256 + h3) / 2 ^ 10 % 2 ^ 6;
            bypass = test_bit h0 5;
            control_command = test_bit h0 4;
            frame_sequence_number = number;
            payload = payload;
          })
          else err eacces)
  unfolding decode
  decode_bytes scid version_0 len_field =
      let size = length-append payload (replicate fill fill_byte) in
      let fill_size = length-replicate fill fill_byte in
      ground (
        arith,
        size,
        fill_size,
        frame_fill 0 (frame_len frame_bytes),
        frame_fill (fill - 1) (length frame_bytes - 1),
        take-append payload (replicate fill fill_byte) (frame_len frame_bytes - 5),
      )

-- A frame in the layout of the standard, with any number of fill bytes behind it, is decoded to its
-- fields and data by the spacecraft that it names, and refused with EACCES by every other. The spare
-- (reserved) bits are not tested: every value of them is accepted, where the user manual asks for
-- zero.
pub decode-layout :
    (f : TcFrame) (spare fill scid : ℕ)
    → IsFrame f
    → spare < 4
    → decode scid (layout spare f ++ replicate fill fill_byte)
      ≡ (if f.spacecraft_id == scid then ok f else err eacces)
decode-layout f spare fill scid w hs =
    let word0 =
      bit f.bypass * 2 ^ 13 + bit f.control_command * 2 ^ 12 + spare * 2 ^ 10 + f.spacecraft_id in
    let word1 = f.virtual_channel_id * 2 ^ 10 + (length f.payload + 4) in
    ground (
      arith,
      decode_bytes (word0 / 256 % 256) (word0 % 256) (word1 / 256 % 256) (word1 % 256)
          f.frame_sequence_number f.payload fill scid,
    )
