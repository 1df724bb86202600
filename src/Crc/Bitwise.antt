-- ===== src/Crc/Bitwise.antt =====
-- The register of CRC-16/MODBUS, shifted bit by bit: the description that the tables of
-- internal/frameparser/crc.go stand for, and its linearity.
use device_wiresink_go.Prelude.{
  ℕ, zero, suc, ◌+◌, ◌*◌, ◌/◌, ◌%◌, ◌^◌, ◌<◌, ◌≡◌, refl, sym, ap, ap₂, ◌∙◌, List, [], ◌∷◌, arith,
  bit_xor, ◌==◌, if◌then◌else◌,
}
use device_wiresink_go.Prelude.Bits.{
  bit_xor-div-two, bit_xor-mod-two, bit_xor_assoc, bit_xor_comm, bit_xor-lt, bit_xor-zero,
}

-- One shift of the reflected polynomial 0xA001.
unfoldable pub bit_step : ℕ → ℕ
bit_step c = if c % 2 == 1 then bit_xor (c / 2) 0xA001 else c / 2

unfoldable pub eight_steps : ℕ → ℕ
unfolding bit_step
eight_steps c =
    bit_step (bit_step (bit_step (bit_step (bit_step (bit_step (bit_step (bit_step c)))))))

unfoldable pub crc_bitwise : ℕ → List ℕ → ℕ
unfolding eight_steps
crc_bitwise c [] = c
crc_bitwise c (b ∷ bs) = crc_bitwise (eight_steps (bit_xor c b)) bs

-- What a shift feeds back, by the bit that falls out.
feedback : ℕ → ℕ
feedback zero = 0
feedback (suc n) = 0xA001

bit_step-feedback : (c : ℕ) → bit_step c ≡ bit_xor (c / 2) (feedback (c % 2))
unfolding bit_step feedback
bit_step-feedback c = by_parity (c % 2) (c / 2) (omega arith)
  where
    by_parity :
        (r h : ℕ) → r < 2 → (if r == 1 then bit_xor h 0xA001 else h) ≡ bit_xor h (feedback r)
    by_parity zero h p = sym (bit_xor-zero h)
    by_parity (suc zero) h p = refl
    by_parity (suc (suc r)) h p = absurd (omega arith)

feedback-add : (a b : ℕ) → feedback ((a + b) % 2) ≡ bit_xor (feedback (a % 2)) (feedback (b % 2))
unfolding feedback
feedback-add a b = ap feedback sums ∙ by_parity (a % 2) (b % 2) (omega arith) (omega arith)
  where
    sums : (a + b) % 2 ≡ (a % 2 + b % 2) % 2
    sums = omega arith

    by_parity :
        (x y : ℕ) → x < 2 → y < 2 → feedback ((x + y) % 2) ≡ bit_xor (feedback x) (feedback y)
    by_parity zero zero p q = refl
    by_parity zero (suc zero) p q = refl
    by_parity (suc zero) zero p q = refl
    by_parity (suc zero) (suc zero) p q = refl
    by_parity zero (suc (suc y)) p q = absurd (omega arith)
    by_parity (suc zero) (suc (suc y)) p q = absurd (omega arith)
    by_parity (suc (suc x)) y p q = absurd (omega arith)

bit_xor-interchange :
    (a b c d : ℕ) → bit_xor (bit_xor a b) (bit_xor c d) ≡ bit_xor (bit_xor a c) (bit_xor b d)
bit_xor-interchange a b c d =
    bit_xor_assoc a b (bit_xor c d)
    ∙ ap (bit_xor a) (
        sym (bit_xor_assoc b c d)
        ∙ ap (λ (t : ℕ). bit_xor t d) (bit_xor_comm b c)
        ∙ bit_xor_assoc c b d)
    ∙ sym (bit_xor_assoc a c (bit_xor b d))

pub bit_step-bit_xor : (a b : ℕ) → bit_step (bit_xor a b) ≡ bit_xor (bit_step a) (bit_step b)
bit_step-bit_xor a b =
    bit_step-feedback (bit_xor a b)
    ∙ ap₂ bit_xor (bit_xor-div-two a b) (ap feedback (bit_xor-mod-two a b) ∙ feedback-add a b)
    ∙ bit_xor-interchange (a / 2) (b / 2) (feedback (a % 2)) (feedback (b % 2))
    ∙ sym (ap₂ bit_xor (bit_step-feedback a) (bit_step-feedback b))

-- Shifting in a `^` is the `^` of what is shifted.
pub eight_steps-bit_xor :
    (a b : ℕ) → eight_steps (bit_xor a b) ≡ bit_xor (eight_steps a) (eight_steps b)
eight_steps-bit_xor a b = unfold eight_steps in simp bit_step-bit_xor

bit_step_even : (q : ℕ) → bit_step (2 * q) ≡ q
unfolding bit_step
bit_step_even q = ground arith

-- Eight shifts of a register whose low byte is zero move the high byte down.
pub eight_steps_high : (q : ℕ) → eight_steps (q * 256) ≡ q
eight_steps_high q = ap eight_steps (spread q) ∙ unfold eight_steps in simp bit_step_even
  where
    spread : (q : ℕ) → q * 256 ≡ 2 * (2 * (2 * (2 * (2 * (2 * (2 * (2 * q)))))))
    spread q = omega arith

-- The register stays in 16 bits.
pub bit_step-lt : (c : ℕ) → c < 2 ^ 16 → bit_step c < 2 ^ 16
unfolding bit_step
bit_step-lt c h = ground (arith, bit_xor-lt 16 (c / 2) 0xA001)

pub eight_steps-lt : (c : ℕ) → c < 2 ^ 16 → eight_steps c < 2 ^ 16
eight_steps-lt c h =
    unfold eight_steps in
    let once = bit_step-lt in
    once _ (once _ (once _ (once _ (once _ (once _ (once _ (once c h)))))))
