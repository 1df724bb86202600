-- ===== src/Strconv/Numbers.antt =====
-- The decimal text of a number is parsed to the number.
use device_wiresink_go.Prelude.{
  ℕ, zero, suc, ◌+◌, ◌*◌, ◌/◌, ◌%◌, ◌^◌, ◌<◌, ◌≤◌, ◌≡◌, ◌-◌, ap, refl, ◌∙◌, arith, [], ◌∷◌, none,
  some, ltb, if◌then◌else◌, Bool-cases, false, inl, inr, Text,
}
use device_wiresink_go.Hex.{itoa_loop, itoa}
use device_wiresink_go.Strconv.{parse_digits, parse_uint, parse_int, with_sign}

parse_digits-digit :
    (bits acc d : ℕ) (s : Text)
    → d < 10
    → acc * 10 + d < 2 ^ bits
    → parse_digits bits acc ((b'0' + d) ∷ s) ≡ parse_digits bits (acc * 10 + d) s
unfolding parse_digits
parse_digits-digit bits acc d s small fits =
    let back : b'0' + d - b'0' ≡ d = omega arith in rw back (ground arith)

parse_digits-itoa_loop :
    (bits fuel n : ℕ) (s : Text)
    → n < fuel
    → n < 2 ^ bits
    → parse_digits bits 0 (itoa_loop fuel n s) ≡ parse_digits bits n s
unfolding itoa_loop
parse_digits-itoa_loop bits zero n s h fits = absurd (omega arith)
parse_digits-itoa_loop bits (suc fuel) n s h fits = elim (Bool-cases (ltb n 10)) [
  | inl small ↦
      let whole : 0 * 10 + n % 10 ≡ n = ground arith in
      rw (small) (
        parse_digits-digit bits 0 (n % 10) s (omega arith) (omega arith)
        ∙ ap (λ (t : ℕ). parse_digits bits t s) whole)
  | inr large ↦
      let whole : n / 10 * 10 + n % 10 ≡ n = omega arith in
      let shorter : n / 10 < fuel = ground arith in
      rw large (
        parse_digits-itoa_loop bits fuel (n / 10) ((b'0' + n % 10) ∷ s) shorter (omega arith)
        ∙ parse_digits-digit bits (n / 10) (n % 10) s (omega arith) (omega arith)
        ∙ ap (λ (t : ℕ). parse_digits bits t s) whole)
]

-- A text that begins with a digit.
abbrev Begins : Text → Type 0
Begins [] = ⊥
Begins (c ∷ s) = b'0' ≤ c

itoa_loop-Begins : (fuel n c : ℕ) (s : Text) → b'0' ≤ c → Begins (itoa_loop fuel n (c ∷ s))
unfolding itoa_loop
itoa_loop-Begins zero n c s h = h
itoa_loop-Begins (suc fuel) n c s h = elim (Bool-cases (ltb n 10)) [
  | inl small ↦ rw small (omega arith)
  | inr large ↦ rw large (itoa_loop-Begins fuel (n / 10) (b'0' + n % 10) (c ∷ s) (omega arith))
]

itoa-Begins : (n : ℕ) → Begins (itoa n)
unfolding itoa
itoa-Begins n = elim (Bool-cases (ltb n 10)) [
  | inl small ↦ rw small (omega arith)
  | inr large ↦ rw large (itoa_loop-Begins n (n / 10) (b'0' + n % 10) [] (omega arith))
]

parse_uint-Begins : (bits : ℕ) (s : Text) → Begins s → parse_uint bits s ≡ parse_digits bits 0 s
unfolding parse_uint
parse_uint-Begins bits [] h = elim h [ ]
parse_uint-Begins bits (c ∷ s) h = refl

parse_int-Begins : (s : Text) → Begins s → parse_int s ≡ with_sign false (parse_uint 64 s)
unfolding parse_int
parse_int-Begins [] h = elim h [ ]
parse_int-Begins (c ∷ s) h = ground arith

pub parse_uint-itoa : (bits n : ℕ) → n < 2 ^ bits → parse_uint bits (itoa n) ≡ some n
parse_uint-itoa bits n h =
    parse_uint-Begins bits (itoa n) (itoa-Begins n)
    ∙ unfold itoa in
      parse_digits-itoa_loop bits (suc n) n [] (omega arith) h ∙ unfold parse_digits in refl

pub parse_int-itoa :
    (n : ℕ) → n < 2 ^ 64 → parse_int (itoa n) ≡ (if ltb n (2 ^ 63) then some n else none)
parse_int-itoa n h =
    parse_int-Begins (itoa n) (itoa-Begins n)
    ∙ ap (with_sign false) (parse_uint-itoa 64 n h)
    ∙ unfold with_sign in refl
