-- ===== src/Crc/Detect.antt =====
-- What the checksum of internal/frameparser/crc.go detects: the register forgets nothing, so an
-- error within two neighbouring bytes always changes it.
use device_wiresink_go.Prelude.{
  ℕ, zero, suc, ◌+◌, ◌*◌, ◌/◌, ◌^◌, ◌≤◌, ◌<◌, ◌≡◌, refl, sym, ap, ◌∙◌, List, [], ◌∷◌, ◌++◌, arith,
  bit_xor, All, All-append, IsByte,
}
use device_wiresink_go.Prelude.Bits.{
  bit_xor_assoc, bit_xor_comm, bit_xor-lt, bit_xor-shift, bit_xor-cancel,
}
use device_wiresink_go.Crc.{crc16}
use device_wiresink_go.Crc.Bitwise.{
  bit_step, eight_steps, crc_bitwise, eight_steps-bit_xor, eight_steps_high, bit_step-lt,
  eight_steps-lt,
}
use device_wiresink_go.Crc.Table.{crc16-crc_bitwise, crc_bitwise-lt}

-- An odd register has its top bit set by the shift.
fed_back : (h : ℕ) → h < 2 ^ 15 → 2 ^ 15 ≤ bit_xor h 0xA001
fed_back h p = rw top (omega arith)
  where
    low : ℕ
    low = bit_xor h 0x2001

    top : bit_xor h 0xA001 ≡ 2 ^ 15 + bit_xor h 0x2001
    top =
        bit_xor_comm h 0xA001
        ∙ bit_xor_assoc (1 * 2 ^ 15) 0x2001 h
        ∙ ap (bit_xor (1 * 2 ^ 15)) (bit_xor_comm 0x2001 h)
        ∙ bit_xor-shift 15 1 (bit_xor h 0x2001) (bit_xor-lt 15 h 0x2001 p (omega arith))
        ∙ omega arith

bit_step-injective : (a b : ℕ) → a < 2 ^ 16 → b < 2 ^ 16 → bit_step a ≡ bit_step b → a ≡ b
unfolding bit_step
bit_step-injective a b p q e =
    ground (arith, fed_back (a / 2) (omega arith), fed_back (b / 2) (omega arith), same)
  where
    same : bit_xor (a / 2) 0xA001 ≡ bit_xor (b / 2) 0xA001 → a / 2 ≡ b / 2
    same h =
        bit_xor-cancel 0xA001 (a / 2) (b / 2)
          (bit_xor_comm 0xA001 (a / 2) ∙ h ∙ bit_xor_comm (b / 2) 0xA001)

-- Two registers that fit 16 bits and are still equal after `n` shifts.
shifts : ℕ → ℕ → ℕ
shifts zero c = c
shifts (suc n) c = shifts n (bit_step c)

shifts-injective : (n a b : ℕ) → a < 2 ^ 16 → b < 2 ^ 16 → shifts n a ≡ shifts n b → a ≡ b
unfolding shifts
shifts-injective zero a b p q e = e
shifts-injective (suc n) a b p q e =
    bit_step-injective a b p q
      (shifts-injective n (bit_step a) (bit_step b) (bit_step-lt a p) (bit_step-lt b q) e)

eight_steps-injective : (a b : ℕ) → a < 2 ^ 16 → b < 2 ^ 16 → eight_steps a ≡ eight_steps b → a ≡ b
unfolding eight_steps shifts
eight_steps-injective a b p q e = shifts-injective 8 a b p q e

crc_bitwise-append :
    (xs ys : List ℕ) (c : ℕ) → crc_bitwise c (xs ++ ys) ≡ crc_bitwise (crc_bitwise c xs) ys
unfolding crc_bitwise
crc_bitwise-append [] ys c = refl
crc_bitwise-append (x ∷ xs) ys c = crc_bitwise-append xs ys (eight_steps (bit_xor c x))

next-lt : (c b : ℕ) → c < 2 ^ 16 → b < 256 → eight_steps (bit_xor c b) < 2 ^ 16
next-lt c b p q = eight_steps-lt (bit_xor c b) (bit_xor-lt 16 c b p (omega arith))

crc_bitwise-injective :
    (bytes : List ℕ) (c d : ℕ)
    → All IsByte bytes
    → c < 2 ^ 16
    → d < 2 ^ 16
    → crc_bitwise c bytes ≡ crc_bitwise d bytes
    → c ≡ d
unfolding crc_bitwise
crc_bitwise-injective [] c d all p q e = e
crc_bitwise-injective (b ∷ bs) c d (byte, all) p q e = bit_xor-cancel b c d (
    bit_xor_comm b c
    ∙ eight_steps-injective (bit_xor c b) (bit_xor d b) (bit_xor-lt 16 c b p (omega arith))
        (bit_xor-lt 16 d b q (omega arith))
        (crc_bitwise-injective bs _ _ all (next-lt c b p byte) (next-lt d b q byte) e)
    ∙ bit_xor_comm d b)

-- Two bytes go into the register as one number of 16 bits.
crc_bitwise_pair :
    (c a b : ℕ) (ys : List ℕ)
    → crc_bitwise c (a ∷ b ∷ ys)
      ≡ crc_bitwise (eight_steps (eight_steps (bit_xor (bit_xor c a) (b * 256)))) ys
unfolding crc_bitwise
crc_bitwise_pair c a b ys =
    ap (λ (t : ℕ). crc_bitwise (eight_steps t) ys)
      (ap (bit_xor (eight_steps (bit_xor c a))) (sym (eight_steps_high b))
        ∙ sym (eight_steps-bit_xor (bit_xor c a) (b * 256)))

pair : (a b : ℕ) → a < 256 → bit_xor a (b * 256) ≡ b * 2 ^ 8 + a
pair a b p = bit_xor_comm a (b * 256) ∙ bit_xor-shift 8 b a p

-- A register that took in two bytes shows which bytes they were.
crc_bitwise_pair-injective :
    (c a b a' b' : ℕ) (ys : List ℕ)
    → c < 2 ^ 16
    → All IsByte (a ∷ b ∷ a' ∷ b' ∷ ys)
    → crc_bitwise c (a ∷ b ∷ ys) ≡ crc_bitwise c (a' ∷ b' ∷ ys)
    → (a ≡ a') × (b ≡ b')
crc_bitwise_pair-injective c a b a' b' ys hc (ha, (hb, (ha', (hb', hys)))) e =
    let mixed : ℕ → ℕ → ℕ = λ x y. bit_xor (bit_xor c x) (y * 256) in
    let mixed-lt : (x y : ℕ) → x < 256 → y < 256 → mixed x y < 2 ^ 16 =
      λ x y p q. bit_xor-lt 16 _ _ (bit_xor-lt 16 c x hc (omega arith)) (omega arith) in
    let states : mixed a b ≡ mixed a' b' =
      eight_steps-injective _ _ (mixed-lt a b ha hb) (mixed-lt a' b' ha' hb') (
        eight_steps-injective _ _ (eight_steps-lt _ (mixed-lt a b ha hb))
          (eight_steps-lt _ (mixed-lt a' b' ha' hb'))
          (crc_bitwise-injective ys _ _ hys
            (eight_steps-lt _ (eight_steps-lt _ (mixed-lt a b ha hb)))
            (eight_steps-lt _ (eight_steps-lt _ (mixed-lt a' b' ha' hb')))
            (sym (crc_bitwise_pair c a b ys) ∙ e ∙ crc_bitwise_pair c a' b' ys))) in
    let read : bit_xor a (b * 256) ≡ bit_xor a' (b' * 256) =
      bit_xor-cancel c _ _
        (sym (bit_xor_assoc c a (b * 256)) ∙ states ∙ bit_xor_assoc c a' (b' * 256)) in
    let sums : b * 2 ^ 8 + a ≡ b' * 2 ^ 8 + a' = sym (pair a b ha) ∙ read ∙ pair a' b' ha' in
    (omega arith, omega arith)

-- Two messages of bytes that differ at most in two neighbouring bytes have the same checksum only
-- if they are the same: every error burst of up to 16 bits that lies within two bytes changes it.
pub crc16_burst :
    (xs ys : List ℕ) (a b a' b' : ℕ)
    → All IsByte xs
    → All IsByte (a ∷ b ∷ a' ∷ b' ∷ ys)
    → crc16 (xs ++ a ∷ b ∷ ys) ≡ crc16 (xs ++ a' ∷ b' ∷ ys)
    → (a ≡ a') × (b ≡ b')
crc16_burst xs ys a b a' b' hxs (ha, (hb, (ha', (hb', hys)))) e =
    crc_bitwise_pair-injective (crc_bitwise 0xFFFF xs) a b a' b' ys
      (crc_bitwise-lt xs 0xFFFF hxs (omega arith)) (ha, (hb, (ha', (hb', hys))))
      (sym (read a b ha hb) ∙ e ∙ read a' b' ha' hb')
  where
    read :
        (x y : ℕ)
        → x < 256
        → y < 256
        → crc16 (xs ++ x ∷ y ∷ ys) ≡ crc_bitwise (crc_bitwise 0xFFFF xs) (x ∷ y ∷ ys)
    read x y p q =
        crc16-crc_bitwise (xs ++ x ∷ y ∷ ys) (All-append IsByte xs (x ∷ y ∷ ys) hxs (p, (q, hys)))
        ∙ crc_bitwise-append xs (x ∷ y ∷ ys) 0xFFFF
