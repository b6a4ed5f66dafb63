-- ===== src/SpacePacket/Examples.antt =====
-- A telemetry packet of APID 5 with three bytes of payload, and its bytes.
use akira_ccsds.Base.{ℕ}
use akira_ccsds.Base.{◌≡◌, refl, arith}
use akira_ccsds.Base.{true, List, [], ◌∷◌, ◌++◌}
use akira_ccsds.Base.{take}
use akira_ccsds.Base.{AllBytes, all_bytes_sound}
use akira_ccsds.Base.{emsgsize, ok, err}
use akira_ccsds.SpacePacket.{SpacePacket, encoded_len, decode, header_word0, header_word1}
use akira_ccsds.SpacePacket.{encode}
use akira_ccsds.SpacePacket.RoundTrip.{
  IsWellFormed, decode-encode, decode-IsWellFormed, encode-decode,
}

abbrev pub sample : SpacePacket
sample = record {
  version = 0;
  type = 0;
  secondary_header = true;
  apid = 5;
  sequence_flags = 3;
  sequence_count = 300;
  payload = 1 ∷ 2 ∷ 3 ∷ [];
}

pub sample-IsWellFormed : IsWellFormed sample
sample-IsWellFormed = record {
  version_fits = omega arith;
  type_fits = omega arith;
  apid_fits = omega arith;
  flags_fit = omega arith;
  count_fits = omega arith;
  payload_present = omega arith;
  payload_fits = omega arith;
}

abbrev pub sample_bytes : List ℕ
sample_bytes = 0x08 ∷ 5 ∷ 0xc1 ∷ 0x2c ∷ 0 ∷ 2 ∷ 1 ∷ 2 ∷ 3 ∷ []

encode-sample : encode sample 16 ≡ ok sample_bytes
unfolding encode header_word0 header_word1
encode-sample = refl

decode-sample : decode (sample_bytes ++ 7 ∷ []) ≡ ok sample
unfolding decode
decode-sample = refl

decode_short : decode (8 ∷ 5 ∷ 0xc1 ∷ 0x2c ∷ 0 ∷ 3 ∷ 1 ∷ 2 ∷ 3 ∷ []) ≡ err emsgsize
unfolding decode
decode_short = refl

sample_bytes-AllBytes : AllBytes (sample_bytes ++ 7 ∷ [])
sample_bytes-AllBytes = all_bytes_sound (sample_bytes ++ 7 ∷ []) refl

decode-encode_example :
    (bytes : List ℕ) × (encode sample 16 ≡ ok bytes) × (decode (bytes ++ 7 ∷ []) ≡ ok sample)
decode-encode_example = decode-encode sample 16 (7 ∷ []) sample-IsWellFormed (omega arith)

decode-IsWellFormed_example : IsWellFormed sample
decode-IsWellFormed_example =
    decode-IsWellFormed (sample_bytes ++ 7 ∷ []) sample_bytes-AllBytes decode-sample

encode-decode_example : encode sample 16 ≡ ok (take (encoded_len 3) (sample_bytes ++ 7 ∷ []))
encode-decode_example =
    encode-decode (sample_bytes ++ 7 ∷ []) 16 sample_bytes-AllBytes decode-sample (omega arith)
