-- ===== src/Crc/Table.antt =====
-- The tables of internal/frameparser/crc.go hold what eight shifts of the register do to a byte.
use device_wiresink_go.Prelude.{
  ℕ, ◌+◌, ◌*◌, ◌%◌, ◌^◌, ◌<◌, ◌≡◌, refl, sym, ap, ap₂, ◌∙◌, List, [], ◌∷◌, arith, bit_xor, get_or,
  All, IsByte,
}
use device_wiresink_go.Prelude.Bits.{
  bit_xor_assoc, bit_xor_comm, bit_xor-lt, bit_xor-shift, bit_or-shift, agree_below→eq, agree_below,
}
use device_wiresink_go.Crc.{auch_crc_hi, auch_crc_lo, crc16_loop, crc16}
use device_wiresink_go.Crc.Bitwise.{
  eight_steps, crc_bitwise, eight_steps-bit_xor, eight_steps_high, eight_steps-lt,
}

abbrev entry : ℕ → ℕ
entry i = get_or auch_crc_lo i 0 * 2 ^ 8 + get_or auch_crc_hi i 0

table-eight_steps : (i : ℕ) → i < 256 → eight_steps i ≡ entry i
unfolding eight_steps auch_crc_hi auch_crc_lo agree_below
table-eight_steps i h = agree_below→eq eight_steps entry 256 i refl h

table_hi-lt : (i : ℕ) → i < 256 → get_or auch_crc_hi i 0 < 2 ^ 8
unfolding auch_crc_hi agree_below
table_hi-lt i h =
    let small : get_or auch_crc_hi i 0 ≡ get_or auch_crc_hi i 0 % 2 ^ 8 =
      agree_below→eq (λ i. get_or auch_crc_hi i 0) (λ i. get_or auch_crc_hi i 0 % 2 ^ 8) 256 i refl
        h in
    omega arith

table_lo-lt : (i : ℕ) → i < 256 → get_or auch_crc_lo i 0 < 2 ^ 8
unfolding auch_crc_lo agree_below
table_lo-lt i h =
    let small : get_or auch_crc_lo i 0 ≡ get_or auch_crc_lo i 0 % 2 ^ 8 =
      agree_below→eq (λ i. get_or auch_crc_lo i 0) (λ i. get_or auch_crc_lo i 0 % 2 ^ 8) 256 i refl
        h in
    omega arith

-- `^` acts on the low byte alone when the other number is a byte.
low_byte-bit_xor :
    (hi lo b : ℕ)
    → lo < 256
    → b < 256
    → bit_xor (hi * 2 ^ 8 + lo) b ≡ bit_xor (hi * 2 ^ 8) (bit_xor lo b)
low_byte-bit_xor hi lo b p q =
    ap (λ (t : ℕ). bit_xor t b) (sym (bit_xor-shift 8 hi lo p)) ∙ bit_xor_assoc (hi * 2 ^ 8) lo b

-- One round of the table loop is eight shifts.
round :
    (hi lo b : ℕ)
    → hi < 256
    → lo < 256
    → b < 256
    → eight_steps (bit_xor (hi * 2 ^ 8 + lo) b)
      ≡ get_or auch_crc_lo (bit_xor lo b) 0 * 2 ^ 8
        + bit_xor hi (get_or auch_crc_hi (bit_xor lo b) 0)
round hi lo b h p q =
    let idx : ℕ = bit_xor lo b in
    let hi_entry : ℕ = get_or auch_crc_hi idx 0 in
    let lo_part : ℕ = get_or auch_crc_lo idx 0 * 2 ^ 8 in
    let in_table : idx < 2 ^ 8 = bit_xor-lt 8 lo b p q in
    let hi_fits : hi_entry < 2 ^ 8 = table_hi-lt idx in_table in
    ap eight_steps (low_byte-bit_xor hi lo b p q)
    ∙ eight_steps-bit_xor (hi * 2 ^ 8) idx
    ∙ ap₂ bit_xor (eight_steps_high hi) (table-eight_steps idx in_table)
    ∙ ap (bit_xor hi) (sym (bit_xor-shift 8 (get_or auch_crc_lo idx 0) hi_entry hi_fits))
    ∙ sym (bit_xor_assoc hi lo_part hi_entry)
    ∙ ap (λ (t : ℕ). bit_xor t hi_entry) (bit_xor_comm hi lo_part)
    ∙ bit_xor_assoc lo_part hi hi_entry
    ∙ bit_xor-shift 8 (get_or auch_crc_lo idx 0) (bit_xor hi hi_entry)
        (bit_xor-lt 8 hi hi_entry h hi_fits)

crc16_loop-crc_bitwise :
    (bytes : List ℕ) (hi lo : ℕ)
    → All IsByte bytes
    → hi < 256
    → lo < 256
    → crc16_loop hi lo bytes ≡ crc_bitwise (hi * 2 ^ 8 + lo) bytes
unfolding crc16_loop crc_bitwise
crc16_loop-crc_bitwise [] hi lo all h p = bit_or-shift 8 hi lo p
crc16_loop-crc_bitwise (b ∷ bs) hi lo (q, all) h p =
    let idx : ℕ = bit_xor lo b in
    let in_table : idx < 2 ^ 8 = bit_xor-lt 8 lo b p q in
    crc16_loop-crc_bitwise bs (get_or auch_crc_lo idx 0) (bit_xor hi (get_or auch_crc_hi idx 0)) all
      (table_lo-lt idx in_table) (bit_xor-lt 8 hi _ h (table_hi-lt idx in_table))
    ∙ ap (λ (c : ℕ). crc_bitwise c bs) (sym (round hi lo b h p q))

-- On every sequence of bytes the table-driven checksum is the register of CRC-16/MODBUS, shifted
-- bit by bit with the reflected polynomial 0xA001 from 0xFFFF.
pub crc16-crc_bitwise : (bytes : List ℕ) → All IsByte bytes → crc16 bytes ≡ crc_bitwise 0xFFFF bytes
unfolding crc16
crc16-crc_bitwise bytes all = crc16_loop-crc_bitwise bytes 0xFF 0xFF all (omega arith) (omega arith)

pub crc_bitwise-lt :
    (bytes : List ℕ) (c : ℕ) → All IsByte bytes → c < 2 ^ 16 → crc_bitwise c bytes < 2 ^ 16
unfolding crc_bitwise
crc_bitwise-lt [] c all h = h
crc_bitwise-lt (b ∷ bs) c (q, all) h =
    crc_bitwise-lt bs (eight_steps (bit_xor c b)) all
      (eight_steps-lt (bit_xor c b) (bit_xor-lt 16 c b h (omega arith)))

-- The checksum is a uint16.
pub crc16-lt : (bytes : List ℕ) → All IsByte bytes → crc16 bytes < 2 ^ 16
crc16-lt bytes all =
    rw (crc16-crc_bitwise bytes all) (crc_bitwise-lt bytes 0xFFFF all (omega arith))
