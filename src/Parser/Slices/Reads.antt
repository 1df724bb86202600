-- ===== src/Parser/Slices/Reads.antt =====
-- What the reads of a slice give where the slice is known in pieces: `F` is the slice, `pre` what
-- stands before the read.
use device_wiresink_go.Prelude.{
  ℕ, zero, suc, ◌+◌, ◌-◌, ◌*◌, ◌/◌, ◌%◌, ◌^◌, ◌<◌, ◌≤◌, ◌≡◌, refl, sym, ap, ap₂, ◌∙◌, arith, [],
  ◌∷◌, ◌++◌, append_assoc, length, length-append, bit_or, take, drop, take-append, drop-append,
  get_elem?, some, Bytes,
}
use device_wiresink_go.Prelude.Bits.{bit_or-shift}
use device_wiresink_go.Prelude.Outcome.{done}
use device_wiresink_go.Wire.{uint16_le, put_uint16_le}
use device_wiresink_go.Parser.Slices.{byte_at, slice, uint16_at, data_len_at}

pub slice-pieces :
    (pre mid post spare : Bytes) (lo hi : ℕ)
    → lo ≡ length pre
    → hi ≡ lo + length mid
    → slice (pre ++ (mid ++ post)) spare lo hi ≡ done mid
unfolding slice
slice-pieces pre mid post spare lo hi p q =
    let behind : drop lo ((pre ++ (mid ++ post)) ++ spare) ≡ (mid ++ post) ++ spare =
      ap (drop lo) (append_assoc pre (mid ++ post) spare)
      ∙ drop-append lo pre ((mid ++ post) ++ spare) (sym p) in
    let read : take (hi - lo) (drop lo ((pre ++ (mid ++ post)) ++ spare)) ≡ mid =
      ap (take (hi - lo)) (behind ∙ append_assoc mid post spare)
      ∙ take-append (hi - lo) mid (post ++ spare) (omega arith) in
    let sizes : hi ≤ length (pre ++ (mid ++ post)) =
      omega (arith, length-append pre (mid ++ post), length-append mid post) in
    rw read (ground arith)

get_elem?-append :
    (pre post : Bytes) (b i : ℕ) → i ≡ length pre → get_elem? (pre ++ b ∷ post) i ≡ some b
get_elem?-append [] post b zero e = refl
get_elem?-append [] post b (suc i) e = absurd (omega arith)
get_elem?-append (x ∷ pre) post b zero e = absurd (omega arith)
get_elem?-append (x ∷ pre) post b (suc i) e = get_elem?-append pre post b i (omega arith)

byte_at-pieces :
    (pre post : Bytes) (b i : ℕ) → i ≡ length pre → byte_at (pre ++ b ∷ post) i ≡ done b
unfolding byte_at
byte_at-pieces pre post b i e = rw (byte_at, get_elem?-append pre post b i e) refl

byte_at-behind :
    (pre front post : Bytes) (b i : ℕ)
    → i ≡ length pre + length front
    → byte_at (pre ++ (front ++ b ∷ post)) i ≡ done b
byte_at-behind pre front post b i e =
    ap (λ (s : Bytes). byte_at s i) (sym (append_assoc pre front (b ∷ post)))
    ∙ byte_at-pieces (pre ++ front) post b i (e ∙ sym (length-append pre front))

-- The bytes of a length field.
abbrev pub len_bytes : ℕ → ℕ → Bytes
len_bytes zero n = []
len_bytes (suc zero) n = n % 2 ^ 8 ∷ []
len_bytes (suc (suc zero)) n = put_uint16_le (n % 2 ^ 16)
len_bytes (suc (suc (suc flag))) n = n / 2 ^ 16 % 2 ^ 8 ∷ n / 2 ^ 8 % 2 ^ 8 ∷ n % 2 ^ 8 ∷ []

-- The lengths that a length flag can carry.
abbrev pub FitsFlag : ℕ → ℕ → Type 0
FitsFlag zero n = n ≡ 4
FitsFlag (suc zero) n = n < 2 ^ 8
FitsFlag (suc (suc zero)) n = n < 2 ^ 16
FitsFlag (suc (suc (suc zero))) n = n < 2 ^ 24
FitsFlag _ n = ⊥

pub uint16_at-pieces :
    (pre post spare : Bytes) (v i : ℕ)
    → i ≡ length pre
    → v < 2 ^ 16
    → uint16_at uint16_le (pre ++ (put_uint16_le v ++ post)) spare i ≡ done v
unfolding uint16_at put_uint16_le
uint16_at-pieces pre post spare v i e small =
    rw (slice-pieces pre (put_uint16_le v) post spare i (i + 2) e refl) (ap done (omega arith))

pub data_len_at-pieces :
    (flag n : ℕ) (pre post spare : Bytes) (i : ℕ)
    → FitsFlag flag n
    → i ≡ length pre
    → data_len_at uint16_le (pre ++ (len_bytes flag n ++ post)) spare flag i
      ≡ done (n, i + length (len_bytes flag n))
unfolding data_len_at put_uint16_le
data_len_at-pieces zero n pre post spare i fits e =
    ap₂ (λ (k j : ℕ). done (k, j)) (omega arith) (omega arith)
data_len_at-pieces (suc zero) n pre post spare i fits e =
    rw (byte_at-pieces pre post (n % 2 ^ 8) i e) (ap (λ (k : ℕ). done (k, i + 1)) (ground arith))
data_len_at-pieces (suc (suc zero)) n pre post spare i fits e =
    rw (uint16_at-pieces pre post spare (n % 2 ^ 16) i e (omega arith))
      (ap (λ (k : ℕ). done (k, i + 2)) (ground arith))
data_len_at-pieces (suc (suc (suc zero))) n pre post spare i fits e =
    let high = n / 2 ^ 16 % 2 ^ 8 in
    let middle = n / 2 ^ 8 % 2 ^ 8 in
    let low = n % 2 ^ 8 in
    rw
      (
        byte_at-pieces pre (middle ∷ low ∷ post) high i e,
        byte_at-behind pre (high ∷ []) (low ∷ post) middle (i + 1) (omega arith),
        byte_at-behind pre (high ∷ middle ∷ []) post low (i + 2) (omega arith),
        bit_or-shift 16 high (middle * 2 ^ 8) (omega arith),
      )
      (ap (λ (k : ℕ). done (k, i + 3))
        (ap (λ (top : ℕ). bit_or top low) (omega arith)
          ∙ bit_or-shift 8 (high * 2 ^ 8 + middle) low (omega arith)
          ∙ omega arith))
data_len_at-pieces (suc (suc (suc (suc flag)))) n pre post spare i fits e = absurd fits
