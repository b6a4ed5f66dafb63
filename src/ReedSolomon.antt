-- ===== src/ReedSolomon.antt =====
-- The Reed-Solomon (255,223) encoder of the TM downlink: connectivity/ccsds/ccsds_rs.c and .h.
use akira_ccsds.Base.{ℕ, zero, suc, ◌+◌, ◌-◌, bit_xor}
use akira_ccsds.Base.{not, List, [], ◌∷◌, ◌++◌}
use akira_ccsds.Base.{leb, ◌==◌, if◌then◌else◌}
use akira_ccsds.Base.{get_or, take, drop, replicate}
use akira_ccsds.Base.{byte_at}

abbrev pub rs_data_len : ℕ
rs_data_len = 223

abbrev pub rs_parity_len : ℕ
rs_parity_len = 32

abbrev pub rs_interleave_depth : ℕ
rs_interleave_depth = 5

-- `GF_LOG`
unfoldable pub gf_log : List ℕ
gf_log =
    0x00 ∷ 0x00 ∷ 0x01 ∷ 0x63 ∷ 0x02 ∷ 0xc6 ∷ 0x64 ∷ 0x6a ∷ 0x03 ∷ 0xcd ∷ 0xc7 ∷ 0xbc ∷ 0x65 ∷ 0x7e
    ∷ 0x6b ∷ 0x2a ∷ 0x04 ∷ 0x8d ∷ 0xce ∷ 0x4e ∷ 0xc8 ∷ 0xd4 ∷ 0xbd ∷ 0xe1 ∷ 0x66 ∷ 0xdd ∷ 0x7f
    ∷ 0x31 ∷ 0x6c ∷ 0x20 ∷ 0x2b ∷ 0xf3 ∷ 0x05 ∷ 0x57 ∷ 0x8e ∷ 0xe8 ∷ 0xcf ∷ 0xac ∷ 0x4f ∷ 0x83
    ∷ 0xc9 ∷ 0xd9 ∷ 0xd5 ∷ 0x41 ∷ 0xbe ∷ 0x94 ∷ 0xe2 ∷ 0xb4 ∷ 0x67 ∷ 0x27 ∷ 0xde ∷ 0xf0 ∷ 0x80
    ∷ 0xb1 ∷ 0x32 ∷ 0x35 ∷ 0x6d ∷ 0x45 ∷ 0x21 ∷ 0x12 ∷ 0x2c ∷ 0x0d ∷ 0xf4 ∷ 0x38 ∷ 0x06 ∷ 0x9b
    ∷ 0x58 ∷ 0x1a ∷ 0x8f ∷ 0x79 ∷ 0xe9 ∷ 0x70 ∷ 0xd0 ∷ 0xc2 ∷ 0xad ∷ 0xa8 ∷ 0x50 ∷ 0x75 ∷ 0x84
    ∷ 0x48 ∷ 0xca ∷ 0xfc ∷ 0xda ∷ 0x8a ∷ 0xd6 ∷ 0x54 ∷ 0x42 ∷ 0x24 ∷ 0xbf ∷ 0x98 ∷ 0x95 ∷ 0xf9
    ∷ 0xe3 ∷ 0x5e ∷ 0xb5 ∷ 0x15 ∷ 0x68 ∷ 0x61 ∷ 0x28 ∷ 0xba ∷ 0xdf ∷ 0x4c ∷ 0xf1 ∷ 0x2f ∷ 0x81
    ∷ 0xe6 ∷ 0xb2 ∷ 0x3f ∷ 0x33 ∷ 0xee ∷ 0x36 ∷ 0x10 ∷ 0x6e ∷ 0x18 ∷ 0x46 ∷ 0xa6 ∷ 0x22 ∷ 0x88
    ∷ 0x13 ∷ 0xf7 ∷ 0x2d ∷ 0xb8 ∷ 0x0e ∷ 0x3d ∷ 0xf5 ∷ 0xa4 ∷ 0x39 ∷ 0x3b ∷ 0x07 ∷ 0x9e ∷ 0x9c
    ∷ 0x9d ∷ 0x59 ∷ 0x9f ∷ 0x1b ∷ 0x08 ∷ 0x90 ∷ 0x09 ∷ 0x7a ∷ 0x1c ∷ 0xea ∷ 0xa0 ∷ 0x71 ∷ 0x5a
    ∷ 0xd1 ∷ 0x1d ∷ 0xc3 ∷ 0x7b ∷ 0xae ∷ 0x0a ∷ 0xa9 ∷ 0x91 ∷ 0x51 ∷ 0x5b ∷ 0x76 ∷ 0x72 ∷ 0x85
    ∷ 0xa1 ∷ 0x49 ∷ 0xeb ∷ 0xcb ∷ 0x7c ∷ 0xfd ∷ 0xc4 ∷ 0xdb ∷ 0x1e ∷ 0x8b ∷ 0xd2 ∷ 0xd7 ∷ 0x92
    ∷ 0x55 ∷ 0xaa ∷ 0x43 ∷ 0x0b ∷ 0x25 ∷ 0xaf ∷ 0xc0 ∷ 0x73 ∷ 0x99 ∷ 0x77 ∷ 0x96 ∷ 0x5c ∷ 0xfa
    ∷ 0x52 ∷ 0xe4 ∷ 0xec ∷ 0x5f ∷ 0x4a ∷ 0xb6 ∷ 0xa2 ∷ 0x16 ∷ 0x86 ∷ 0x69 ∷ 0xc5 ∷ 0x62 ∷ 0xfe
    ∷ 0x29 ∷ 0x7d ∷ 0xbb ∷ 0xcc ∷ 0xe0 ∷ 0xd3 ∷ 0x4d ∷ 0x8c ∷ 0xf2 ∷ 0x1f ∷ 0x30 ∷ 0xdc ∷ 0x82
    ∷ 0xab ∷ 0xe7 ∷ 0x56 ∷ 0xb3 ∷ 0x93 ∷ 0x40 ∷ 0xd8 ∷ 0x34 ∷ 0xb0 ∷ 0xef ∷ 0x26 ∷ 0x37 ∷ 0x0c
    ∷ 0x11 ∷ 0x44 ∷ 0x6f ∷ 0x78 ∷ 0x19 ∷ 0x9a ∷ 0x47 ∷ 0x74 ∷ 0xa7 ∷ 0xc1 ∷ 0x23 ∷ 0x53 ∷ 0x89
    ∷ 0xfb ∷ 0x14 ∷ 0x5d ∷ 0xf8 ∷ 0x97 ∷ 0x2e ∷ 0x4b ∷ 0xb9 ∷ 0x60 ∷ 0x0f ∷ 0xed ∷ 0x3e ∷ 0xe5
    ∷ 0xf6 ∷ 0x87 ∷ 0xa5 ∷ 0x17 ∷ 0x3a ∷ 0xa3 ∷ 0x3c ∷ 0xb7 ∷ []

-- `GF_ILOG`
unfoldable pub gf_ilog : List ℕ
gf_ilog =
    0x01 ∷ 0x02 ∷ 0x04 ∷ 0x08 ∷ 0x10 ∷ 0x20 ∷ 0x40 ∷ 0x80 ∷ 0x87 ∷ 0x89 ∷ 0x95 ∷ 0xad ∷ 0xdd ∷ 0x3d
    ∷ 0x7a ∷ 0xf4 ∷ 0x6f ∷ 0xde ∷ 0x3b ∷ 0x76 ∷ 0xec ∷ 0x5f ∷ 0xbe ∷ 0xfb ∷ 0x71 ∷ 0xe2 ∷ 0x43
    ∷ 0x86 ∷ 0x8b ∷ 0x91 ∷ 0xa5 ∷ 0xcd ∷ 0x1d ∷ 0x3a ∷ 0x74 ∷ 0xe8 ∷ 0x57 ∷ 0xae ∷ 0xdb ∷ 0x31
    ∷ 0x62 ∷ 0xc4 ∷ 0x0f ∷ 0x1e ∷ 0x3c ∷ 0x78 ∷ 0xf0 ∷ 0x67 ∷ 0xce ∷ 0x1b ∷ 0x36 ∷ 0x6c ∷ 0xd8
    ∷ 0x37 ∷ 0x6e ∷ 0xdc ∷ 0x3f ∷ 0x7e ∷ 0xfc ∷ 0x7f ∷ 0xfe ∷ 0x7b ∷ 0xf6 ∷ 0x6b ∷ 0xd6 ∷ 0x2b
    ∷ 0x56 ∷ 0xac ∷ 0xdf ∷ 0x39 ∷ 0x72 ∷ 0xe4 ∷ 0x4f ∷ 0x9e ∷ 0xbb ∷ 0xf1 ∷ 0x65 ∷ 0xca ∷ 0x13
    ∷ 0x26 ∷ 0x4c ∷ 0x98 ∷ 0xb7 ∷ 0xe9 ∷ 0x55 ∷ 0xaa ∷ 0xd3 ∷ 0x21 ∷ 0x42 ∷ 0x84 ∷ 0x8f ∷ 0x99
    ∷ 0xb5 ∷ 0xed ∷ 0x5d ∷ 0xba ∷ 0xf3 ∷ 0x61 ∷ 0xc2 ∷ 0x03 ∷ 0x06 ∷ 0x0c ∷ 0x18 ∷ 0x30 ∷ 0x60
    ∷ 0xc0 ∷ 0x07 ∷ 0x0e ∷ 0x1c ∷ 0x38 ∷ 0x70 ∷ 0xe0 ∷ 0x47 ∷ 0x8e ∷ 0x9b ∷ 0xb1 ∷ 0xe5 ∷ 0x4d
    ∷ 0x9a ∷ 0xb3 ∷ 0xe1 ∷ 0x45 ∷ 0x8a ∷ 0x93 ∷ 0xa1 ∷ 0xc5 ∷ 0x0d ∷ 0x1a ∷ 0x34 ∷ 0x68 ∷ 0xd0
    ∷ 0x27 ∷ 0x4e ∷ 0x9c ∷ 0xbf ∷ 0xf9 ∷ 0x75 ∷ 0xea ∷ 0x53 ∷ 0xa6 ∷ 0xcb ∷ 0x11 ∷ 0x22 ∷ 0x44
    ∷ 0x88 ∷ 0x97 ∷ 0xa9 ∷ 0xd5 ∷ 0x2d ∷ 0x5a ∷ 0xb4 ∷ 0xef ∷ 0x59 ∷ 0xb2 ∷ 0xe3 ∷ 0x41 ∷ 0x82
    ∷ 0x83 ∷ 0x81 ∷ 0x85 ∷ 0x8d ∷ 0x9d ∷ 0xbd ∷ 0xfd ∷ 0x7d ∷ 0xfa ∷ 0x73 ∷ 0xe6 ∷ 0x4b ∷ 0x96
    ∷ 0xab ∷ 0xd1 ∷ 0x25 ∷ 0x4a ∷ 0x94 ∷ 0xaf ∷ 0xd9 ∷ 0x35 ∷ 0x6a ∷ 0xd4 ∷ 0x2f ∷ 0x5e ∷ 0xbc
    ∷ 0xff ∷ 0x79 ∷ 0xf2 ∷ 0x63 ∷ 0xc6 ∷ 0x0b ∷ 0x16 ∷ 0x2c ∷ 0x58 ∷ 0xb0 ∷ 0xe7 ∷ 0x49 ∷ 0x92
    ∷ 0xa3 ∷ 0xc1 ∷ 0x05 ∷ 0x0a ∷ 0x14 ∷ 0x28 ∷ 0x50 ∷ 0xa0 ∷ 0xc7 ∷ 0x09 ∷ 0x12 ∷ 0x24 ∷ 0x48
    ∷ 0x90 ∷ 0xa7 ∷ 0xc9 ∷ 0x15 ∷ 0x2a ∷ 0x54 ∷ 0xa8 ∷ 0xd7 ∷ 0x29 ∷ 0x52 ∷ 0xa4 ∷ 0xcf ∷ 0x19
    ∷ 0x32 ∷ 0x64 ∷ 0xc8 ∷ 0x17 ∷ 0x2e ∷ 0x5c ∷ 0xb8 ∷ 0xf7 ∷ 0x69 ∷ 0xd2 ∷ 0x23 ∷ 0x46 ∷ 0x8c
    ∷ 0x9f ∷ 0xb9 ∷ 0xf5 ∷ 0x6d ∷ 0xda ∷ 0x33 ∷ 0x66 ∷ 0xcc ∷ 0x1f ∷ 0x3e ∷ 0x7c ∷ 0xf8 ∷ 0x77
    ∷ 0xee ∷ 0x5b ∷ 0xb6 ∷ 0xeb ∷ 0x51 ∷ 0xa2 ∷ 0xc3 ∷ []

-- `GG_LOG`
unfoldable pub gg_log : List ℕ
gg_log =
    0x00 ∷ 0x66 ∷ 0xc8 ∷ 0x20 ∷ 0xcf ∷ 0x8d ∷ 0x7f ∷ 0x65 ∷ 0x2b ∷ 0x8e ∷ 0x6a ∷ 0x65 ∷ 0xac ∷ 0x3c
    ∷ 0x61 ∷ 0x4f ∷ 0x97 ∷ 0xbe ∷ 0x0d ∷ 0xd5 ∷ 0xbe ∷ 0x14 ∷ 0xef ∷ 0xfb ∷ 0xc5 ∷ 0x36 ∷ 0xef
    ∷ 0x05 ∷ 0xc9 ∷ 0xbe ∷ 0xc5 ∷ 0xd7 ∷ []

-- `GF_ILOG[idx]` with `idx` the sum of two logarithms, reduced.
unfoldable pub feedback_term : ℕ → ℕ → ℕ
feedback_term feedback_log j =
    let idx = feedback_log + get_or gg_log j 0 in
    get_or gf_ilog (if leb 255 idx then idx - 255 else idx) 0

-- The parity bytes from index `j` on after one round with feedback; `before` is `parity[j - 1]` as
-- it was.
unfoldable pub shift_parity : ℕ → ℕ → ℕ → List ℕ → List ℕ
shift_parity feedback_log j before [] = []
shift_parity feedback_log j before (x ∷ parity) =
    bit_xor before (feedback_term feedback_log j) ∷ shift_parity feedback_log (suc j) x parity

-- One data byte enters the register.
unfoldable pub encode_byte : ℕ → List ℕ → List ℕ
encode_byte b [] = []
encode_byte b (x ∷ parity) =
    let feedback = bit_xor b (byte_at (x ∷ parity) (rs_parity_len - 1)) in
    let feedback_log = get_or gf_log feedback 0 in
    if not (feedback == 0)
    then get_or gf_ilog feedback_log 0
      ∷ shift_parity feedback_log 1 x (take (rs_parity_len - 1) parity)
    else 0 ∷ take (rs_parity_len - 1) (x ∷ parity)

unfoldable pub encode_codeblock : List ℕ → List ℕ → List ℕ
encode_codeblock [] parity = parity
encode_codeblock (b ∷ bytes) parity = encode_codeblock bytes (encode_byte b parity)

-- The codeblocks one after the other, with that many left.
unfoldable pub encode_blocks : ℕ → List ℕ → List ℕ
encode_blocks zero bytes = []
encode_blocks (suc blocks) bytes =
    encode_codeblock (take rs_data_len bytes) (replicate rs_parity_len 0)
    ++ encode_blocks blocks (drop rs_data_len bytes)

unfoldable pub rs_encode : List ℕ → List ℕ
rs_encode bytes = encode_blocks rs_interleave_depth bytes
