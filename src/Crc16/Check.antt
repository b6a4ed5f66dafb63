-- ===== src/Crc16/Check.antt =====
-- `ccsds_crc16_check` accepts exactly the buffers that end in the checksum of what precedes it.
use akira_ccsds.Base.{ℕ, ◌+◌, ◌*◌, ◌/◌, ◌%◌, ◌^◌, ◌<◌, bit_xor}
use akira_ccsds.Base.{◌≡◌, refl, sym, ap, ◌∙◌, ◌↔◌, arith}
use akira_ccsds.Base.{true, ◌||◌, not, List, [], ◌∷◌, ◌++◌}
use akira_ccsds.Base.{◌==◌, all_below, all_below_sound}
use akira_ccsds.Base.{get_or, length-append}
use akira_ccsds.Base.{IsByte}
use akira_ccsds.Base.Xor.{zero-bit_xor, bit_xor-zero, bit_xor_self, bit_xor-lt}
use akira_ccsds.Base.Xor.{bit_xor-mod, eq_of_bit_xor}
use akira_ccsds.Crc16.{crc16_table, crc16_init, update_byte, update, compute, check}
use akira_ccsds.Crc16.Serial.{update_byte-lt}

-- Feeding a buffer in two parts is feeding it whole.
pub update-append : (crc : ℕ) (xs ys : List ℕ) → update crc (xs ++ ys) ≡ update (update crc xs) ys
unfolding update
update-append crc [] ys = refl
update-append crc (x ∷ xs) ys = update-append (update_byte crc x) xs ys

pub update-lt : (crc : ℕ) (bytes : List ℕ) → crc < 2 ^ 16 → update crc bytes < 2 ^ 16
unfolding update
update-lt crc [] h = h
update-lt crc (b ∷ bytes) h = update-lt (update_byte crc b) bytes (update_byte-lt crc b)

-- Entry 0 is the only one whose low byte is 0.
zero_row_rows : all_below 256 (λ i. not (get_or crc16_table i 0 % 256 == 0) || (i == 0)) ≡ true
unfolding all_below crc16_table
zero_row_rows = refl

zero_row : (i : ℕ) → i < 256 → get_or crc16_table i 0 % 256 ≡ 0 → i ≡ 0
zero_row i h e = ground (arith, all_below_sound 256 _ i zero_row_rows h)

-- A byte that equals the high half of the register moves the low half up.
hit : (crc b : ℕ) → crc < 2 ^ 16 → crc / 256 ≡ b → update_byte crc b ≡ crc % 256 * 256
unfolding update_byte crc16_table
hit crc b h e = rw (e, bit_xor_self, bit_xor-zero) (omega arith)

-- The low half of the register is 0 only after such a byte.
hit_of_low_zero :
    (crc b : ℕ) → crc < 2 ^ 16 → IsByte b → update_byte crc b % 256 ≡ 0 → crc / 256 ≡ b
unfolding update_byte
hit_of_low_zero crc b h hb e = eq_of_bit_xor (crc / 256) b (zero_row i fits low_zero)
  where
    i : ℕ
    i = bit_xor (crc / 256) b

    fits : i < 256
    fits = bit_xor-lt 8 (crc / 256) b (omega arith) hb

    t : ℕ
    t = get_or crc16_table (i % 256) 0

    low_zero : get_or crc16_table i 0 % 256 ≡ 0
    low_zero =
        ap (λ k. get_or crc16_table k 0 % 256) (omega (arith, fits))
        ∙ sym (zero-bit_xor (t % 256))
        ∙ ap (λ z. bit_xor z (t % 256)) (omega arith)
        ∙ sym (bit_xor-mod 8 (crc * 256) t)
        ∙ omega (arith, e)

two_bytes :
    (crc hi lo : ℕ)
    → crc < 2 ^ 16
    → IsByte hi
    → IsByte lo
    → (update_byte (update_byte crc hi) lo ≡ 0) ↔ (hi * 256 + lo ≡ crc)
two_bytes crc hi lo h hh hl = (forward, back)
  where
    mid : ℕ
    mid = update_byte crc hi

    forward : update_byte mid lo ≡ 0 → hi * 256 + lo ≡ crc
    forward e =
        let lo_eq = hit_of_low_zero mid lo (update_byte-lt crc hi) hl (omega (arith, e)) in
        let last = hit mid lo (update_byte-lt crc hi) lo_eq in
        let hi_eq = hit_of_low_zero crc hi h hh (omega (arith, e, last)) in
        let first = hit crc hi h hi_eq in omega (arith, lo_eq, hi_eq, first)

    back : hi * 256 + lo ≡ crc → update_byte mid lo ≡ 0
    back e =
        let first = hit crc hi h (omega arith) in
        hit mid lo (update_byte-lt crc hi) (omega (arith, first)) ∙ omega (arith, first)

update_two : (crc hi lo : ℕ) → update crc (hi ∷ lo ∷ []) ≡ update_byte (update_byte crc hi) lo
unfolding update
update_two crc hi lo = refl

-- A buffer of bytes that ends in two bytes passes the check exactly when these are the checksum of
-- what precedes them, high byte first.
pub check_iff :
    (bytes : List ℕ) (hi lo : ℕ)
    → IsByte hi
    → IsByte lo
    → (check (bytes ++ hi ∷ lo ∷ []) ≡ true) ↔ (hi * 256 + lo ≡ compute bytes)
unfolding check compute
check_iff bytes hi lo hh hl = ground (
  arith,
  length-append bytes (hi ∷ lo ∷ []),
  update-append crc16_init bytes (hi ∷ lo ∷ []),
  update_two (update crc16_init bytes) hi lo,
  two_bytes (update crc16_init bytes) hi lo (update-lt crc16_init bytes (omega arith)) hh hl,
)
