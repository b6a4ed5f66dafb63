-- ===== src/SpacePacket/RoundTrip.antt =====
-- `ccsds_space_packet_encode` and `ccsds_space_packet_decode` invert one another.
use akira_ccsds.Base.{ℕ, ◌+◌, ◌-◌, ◌*◌, ◌%◌, ◌^◌, ◌≤◌, ◌<◌}
use akira_ccsds.Base.{◌≡◌, arith}
use akira_ccsds.Base.{Bool, List, [], ◌∷◌, ◌++◌}
use akira_ccsds.Base.{if◌then◌else◌}
use akira_ccsds.Base.{length, take, length-append, length-take, take-append}
use akira_ccsds.Base.{AllBytes, u16, be16}
use akira_ccsds.Base.{ok}
use akira_ccsds.Base.Fields.{bit_or_fields}
use akira_ccsds.SpacePacket.{apid_max, SpacePacket, encoded_len, decode, header_word0, header_word1}
use akira_ccsds.SpacePacket.{encode}

-- A packet whose fields fit their bit fields.
pub record IsWellFormed (p : SpacePacket) : Type 0 where
  pub version_fits : p.version < 8
  pub type_fits : p.type < 2
  pub apid_fits : p.apid ≤ apid_max
  pub flags_fit : p.sequence_flags < 4
  pub count_fits : p.sequence_count < 2 ^ 14
  pub payload_present : 1 ≤ length p.payload
  pub payload_fits : length p.payload ≤ 2 ^ 16

abbrev flag : Bool → ℕ
flag b = if b then 1 else 0

word0-sum :
    (p : SpacePacket)
    → header_word0 p
      ≡ p.version % 8 * 2 ^ 13
        + (p.type % 2 * 2 ^ 12 + (flag p.secondary_header * 2 ^ 11 + p.apid % 2 ^ 11))
unfolding header_word0
word0-sum p = ground (
  arith,
  bit_or_fields 11 0 (p.apid % 2 ^ 11) (omega arith),
  bit_or_fields 11 1 (p.apid % 2 ^ 11) (omega arith),
  bit_or_fields 12 (p.type % 2) (flag p.secondary_header * 2 ^ 11 + p.apid % 2 ^ 11),
  bit_or_fields 13 (p.version % 8)
      (p.type % 2 * 2 ^ 12 + (flag p.secondary_header * 2 ^ 11 + p.apid % 2 ^ 11)),
)

word1-sum :
    (p : SpacePacket) → header_word1 p ≡ p.sequence_flags % 4 * 2 ^ 14 + p.sequence_count % 2 ^ 14
unfolding header_word1
word1-sum p = ground (arith, bit_or_fields 14 (p.sequence_flags % 4) (p.sequence_count % 2 ^ 14))

-- What `encode` stores for a well-formed packet.
abbrev image : SpacePacket → List ℕ
image p =
    be16 (header_word0 p) ++ be16 (header_word1 p) ++ be16 (u16 (length p.payload - 1)) ++ p.payload

pub encode-image :
    (p : SpacePacket) (cap : ℕ)
    → IsWellFormed p
    → encoded_len (length p.payload) ≤ cap
    → encode p cap ≡ ok (image p)
unfolding encode
encode-image p cap w room = ground arith

module _ (p : SpacePacket) (w : IsWellFormed p) (rest : List ℕ) where
  decode-image : decode (image p ++ rest) ≡ ok p
  unfolding decode
  decode-image = ground (
    arith,
    word0-sum p,
    word1-sum p,
    length-append p.payload rest,
    take-append p.payload rest (length p.payload),
  )

-- Decoding what `encode` stored, with any bytes behind it, gives the packet back: for a packet
-- whose fields fit their bit fields, and a buffer with room for it.
pub decode-encode :
    (p : SpacePacket) (cap : ℕ) (rest : List ℕ)
    → IsWellFormed p
    → encoded_len (length p.payload) ≤ cap
    → (bytes : List ℕ) × (encode p cap ≡ ok bytes) × (decode (bytes ++ rest) ≡ ok p)
decode-encode p cap rest w room = (image p, encode-image p cap w room, decode-image p w rest)

-- A packet that `decode` accepts has all its fields in range.
pub decode-IsWellFormed :
    (buf : List ℕ) {p : SpacePacket} → AllBytes buf → decode buf ≡ ok p → IsWellFormed p
unfolding decode
decode-IsWellFormed [] b h = ground arith
decode-IsWellFormed (a ∷ []) b h = ground arith
decode-IsWellFormed (a ∷ a1 ∷ []) b h = ground arith
decode-IsWellFormed (a ∷ a1 ∷ a2 ∷ []) b h = ground arith
decode-IsWellFormed (a ∷ a1 ∷ a2 ∷ a3 ∷ []) b h = ground arith
decode-IsWellFormed (a ∷ a1 ∷ a2 ∷ a3 ∷ a4 ∷ []) b h = ground arith
decode-IsWellFormed (a ∷ a1 ∷ a2 ∷ a3 ∷ a4 ∷ a5 ∷ payload) b h =
    ground (arith, length-take (a4 * 256 + a5 + 1) payload)

-- Encoding a decoded packet gives the bytes that it was read from.
pub encode-decode :
    (buf : List ℕ) {p : SpacePacket} (cap : ℕ)
    → AllBytes buf
    → decode buf ≡ ok p
    → encoded_len (length p.payload) ≤ cap
    → encode p cap ≡ ok (take (encoded_len (length p.payload)) buf)
unfolding decode
encode-decode [] cap b h room = ground arith
encode-decode (a ∷ []) cap b h room = ground arith
encode-decode (a ∷ a1 ∷ []) cap b h room = ground arith
encode-decode (a ∷ a1 ∷ a2 ∷ []) cap b h room = ground arith
encode-decode (a ∷ a1 ∷ a2 ∷ a3 ∷ []) cap b h room = ground arith
encode-decode (a ∷ a1 ∷ a2 ∷ a3 ∷ a4 ∷ []) cap b h room = ground arith
encode-decode (a ∷ a1 ∷ a2 ∷ a3 ∷ a4 ∷ a5 ∷ payload) {p} cap b h room = ground (
  arith,
  encode-image p cap (decode-IsWellFormed (a ∷ a1 ∷ a2 ∷ a3 ∷ a4 ∷ a5 ∷ payload) b h),
  word0-sum p,
  word1-sum p,
  length-take (a4 * 256 + a5 + 1) payload,
)
