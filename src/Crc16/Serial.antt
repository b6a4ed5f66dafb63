-- ===== src/Crc16/Serial.antt =====
-- The table-driven CRC computes the bit-serial one, with the generator x^16 + x^12 + x^5 + 1.
use akira_ccsds.Base.{ℕ, zero, suc, ◌+◌, ◌*◌, ◌/◌, ◌%◌, ◌^◌, ◌<◌, bit_xor}
use akira_ccsds.Base.{◌≡◌, refl, sym, ap, ap₂, ◌∙◌, inl, inr, arith}
use akira_ccsds.Base.{true, List, [], ◌∷◌}
use akira_ccsds.Base.{
  ltb, ◌==◌, if◌then◌else◌, ltb→lt, ==_iff, Bool-cases, all_below, all_below_sound,
}
use akira_ccsds.Base.{get_or}
use akira_ccsds.Base.{IsByte, AllBytes, u16}
use akira_ccsds.Base.Xor.{bit_xor_step, bit_xor-zero, bit_xor_comm, bit_xor-lt}
use akira_ccsds.Base.Xor.{bit_xor_double, bit_xor-shr, bit_xor-shl, bit_xor-mod, bit_xor_swap}
use akira_ccsds.Crc16.{crc16_table, update_byte, update}
use native.Mathlib.Nat.{pow-suc, pow-le-pow_right, le_trans}

-- One step of the shift register: the bit that leaves at the top feeds back 0x1021.
unfoldable pub shift_once : ℕ → ℕ
shift_once c = if c / 2 ^ 15 % 2 == 1 then bit_xor (c * 2 % 2 ^ 16) 0x1021 else c * 2 % 2 ^ 16

unfoldable pub shift_by : ℕ → ℕ → ℕ
shift_by zero c = c
shift_by (suc n) c = shift_by n (shift_once c)

-- The reference: every data byte enters at the top, and the register shifts eight times.
unfoldable pub serial : ℕ → List ℕ → ℕ
serial crc [] = crc
serial crc (b ∷ bytes) = serial (shift_by 8 (bit_xor crc (b * 256))) bytes

-- Entry `i` of the table is the register after eight shifts of `i` at the top.
table_rows : all_below 256 (λ i. get_or crc16_table i 0 == shift_by 8 (i * 256)) ≡ true
unfolding all_below crc16_table shift_by shift_once
table_rows = refl

table_lem : (i : ℕ) → i < 256 → get_or crc16_table i 0 ≡ shift_by 8 (i * 256)
table_lem i h = (==_iff _ _).0 (all_below_sound 256 _ i table_rows h)

doubled : (x y : ℕ) → y < 2 ^ 15 → bit_xor x y * 2 % 2 ^ 16 ≡ bit_xor (x * 2 % 2 ^ 16) (y * 2)
doubled x y h =
    ap (λ t. t % 2 ^ 16) (sym (bit_xor_double x y))
    ∙ bit_xor-mod 16 (x * 2) (y * 2)
    ∙ ap (λ t. bit_xor (x * 2 % 2 ^ 16) t) (omega arith)

same_top : (x y : ℕ) → y < 2 ^ 15 → bit_xor x y / 2 ^ 15 ≡ x / 2 ^ 15
same_top x y h =
    bit_xor-shr 15 x y ∙ ap (λ t. bit_xor (x / 2 ^ 15) t) (omega arith) ∙ bit_xor-zero (x / 2 ^ 15)

-- A value with a clear top bit goes through a shift beside another and is only doubled.
shift_once-xor : (x y : ℕ) → y < 2 ^ 15 → shift_once (bit_xor x y) ≡ bit_xor (shift_once x) (y * 2)
unfolding shift_once
shift_once-xor x y h = elim (Bool-cases (x / 2 ^ 15 % 2 == 1)) [
  | inl top ↦ rw (same_top x y h, doubled x y h, top) (bit_xor_swap (x * 2 % 2 ^ 16) (y * 2) 0x1021)
  | inr clear ↦ rw (same_top x y h, doubled x y h, clear) refl
]

shift_by-xor :
    (n k x y : ℕ)
    → n + k ≡ 16
    → y < 2 ^ k
    → shift_by n (bit_xor x y) ≡ bit_xor (shift_by n x) (y * 2 ^ n)
unfolding shift_by
shift_by-xor zero k x y e h = ap (λ t. bit_xor x t) (omega arith)
shift_by-xor (suc n) k x y e h =
    ap (shift_by n) (
      shift_once-xor x y
        (le_trans h (pow-le-pow_right {n = 2} (omega arith) {i = k} {j = 15} (omega arith))))
    ∙ shift_by-xor n (suc k) (shift_once x) (y * 2) (omega arith) (omega (arith, pow-suc 2 k))
    ∙ ap (λ t. bit_xor (shift_by n (shift_once x)) t)
        (omega (arith, ap (λ (t : ℕ). y * t) (pow-suc 2 n)))

-- The register splits into its bytes as a sum without carries.
split_byte : (k q r : ℕ) → r < 2 ^ k → bit_xor (q * 2 ^ k) r ≡ q * 2 ^ k + r
split_byte zero q r h =
    let none_left : r ≡ 0 = omega arith in rw (none_left, bit_xor-zero) (omega arith)
split_byte (suc k) q r h =
    let double : q * 2 ^ suc k ≡ q * 2 ^ k * 2 =
      omega (arith, ap (λ (t : ℕ). q * t) (pow-suc 2 k)) in
    let halved : q * 2 ^ k * 2 / 2 ≡ q * 2 ^ k = omega arith in
    let rest = split_byte k q (r / 2) (omega (arith, pow-suc 2 k)) in
    rw double (bit_xor_step (q * 2 ^ k * 2) r ∙ rw (halved, rest) (omega arith))

table_fits : all_below 256 (λ i. ltb (get_or crc16_table i 0) 0x10000) ≡ true
unfolding all_below crc16_table
table_fits = refl

-- One round of the table-driven loop shifts the register eight times.
update_byte-serial :
    (crc b : ℕ) → crc < 2 ^ 16 → IsByte b → update_byte crc b ≡ shift_by 8 (bit_xor crc (b * 256))
unfolding update_byte
update_byte-serial crc b h hb =
    ap (λ t. u16 (bit_xor (crc * 256) (get_or crc16_table t 0))) (omega (arith, index_fits))
    ∙ bit_xor-mod 16 (crc * 256) (get_or crc16_table i 0)
    ∙ ap₂ bit_xor low_half entry
    ∙ bit_xor_comm (crc % 256 * 256) (shift_by 8 (i * 256))
    ∙ sym (shift_by-xor 8 8 (i * 256) (crc % 256) refl (omega arith))
    ∙ ap (shift_by 8) (sym aligned)
  where
    i : ℕ
    i = bit_xor (crc / 256) b

    index_fits : i < 256
    index_fits = bit_xor-lt 8 (crc / 256) b (omega arith) hb

    low_half : crc * 256 % 2 ^ 16 ≡ crc % 256 * 256
    low_half = omega arith

    entry : get_or crc16_table i 0 % 2 ^ 16 ≡ shift_by 8 (i * 256)
    entry = omega (
      arith,
      table_lem i index_fits,
      ltb→lt (get_or crc16_table i 0) 0x10000 (all_below_sound 256 _ i table_fits index_fits),
    )

    aligned : bit_xor crc (b * 256) ≡ bit_xor (i * 256) (crc % 256)
    aligned =
        ap (λ t. bit_xor t (b * 256))
          (let parts : crc ≡ crc / 256 * 2 ^ 8 + crc % 256 = omega arith in
            parts ∙ sym (split_byte 8 (crc / 256) (crc % 256) (omega arith)))
        ∙ bit_xor_swap (crc / 256 * 256) (crc % 256) (b * 256)
        ∙ ap (λ t. bit_xor t (crc % 256)) (bit_xor-shl 8 (crc / 256) b)

pub update_byte-lt : (crc b : ℕ) → update_byte crc b < 2 ^ 16
unfolding update_byte
update_byte-lt crc b = omega arith

-- For a 16-bit register and data bytes the table-driven loop gives the bit-serial register.
pub update-serial :
    (crc : ℕ) (bytes : List ℕ) → crc < 2 ^ 16 → AllBytes bytes → update crc bytes ≡ serial crc bytes
unfolding update serial
update-serial crc [] h hb = refl
update-serial crc (b ∷ bytes) h hb = rw (update_byte-serial crc b h hb.0) (
    update-serial (shift_by 8 (bit_xor crc (b * 256))) bytes
      (rw (update_byte-serial crc b h hb.0) at (update_byte-lt crc b)) hb.1)
