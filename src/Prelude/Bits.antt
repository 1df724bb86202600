-- ===== src/Prelude/Bits.antt =====
-- `^`, `|` and `&` of the native numbers at variables: the law of the lowest digit, and what follows
-- from it at every width.
use Prim.Native.Nat.{
  ℕ, zero, suc, ◌+◌, ◌-◌, ◌*◌, ◌/◌, ◌%◌, ◌^◌, ◌≤◌, ◌<◌, min, max, bit_and, bit_and-bitwise, bit_or,
  bit_xor, digits, bit_or-bitwise, bit_xor-bitwise, differ,
}
use mathlib.Core.Path.{◌≡◌, refl, ap, ap₂, ◌∙◌, sym}
use mathlib.Core.Bool.{Bool, true, ◌&&◌}
use native.Mathlib.Nat.{pow-suc}
use native.Mathlib.Omega.{arith}
use device_wiresink_go.Prelude.Tests.{◌==◌}

-- The native operations recur on a count of digits; a count that is large enough plays no part.
module _ (z : ℕ → ℕ) (f : ℕ → ℕ → ℕ) where
  abbrev pairs : ℕ → ℕ → ℕ → ℕ
  pairs = digits z f

  spare_digit : (n a b : ℕ) → a ≤ n → pairs (suc n) a b ≡ pairs n a b
  spare_digit zero zero b h = refl
  spare_digit zero (suc a) b h = absurd (omega arith)
  spare_digit (suc n) zero b h = refl
  spare_digit (suc n) (suc a) b h =
      ap (λ (t : ℕ). t * 2 + f (suc a % 2) (b % 2))
        (spare_digit n (suc a / 2) (b / 2) (omega arith))

  spare_digits : (k n a b : ℕ) → a ≤ n → pairs (k + n) a b ≡ pairs n a b
  spare_digits zero n a b h = ap (λ (t : ℕ). pairs t a b) (omega arith)
  spare_digits (suc k) n a b h =
      ap (λ (t : ℕ). pairs t a b) (suc_first k n)
      ∙ spare_digit (k + n) a b (omega arith)
      ∙ spare_digits k n a b h
    where
      suc_first : (k n : ℕ) → suc k + n ≡ suc (k + n)
      suc_first k n = omega arith

  pairs-half : (a b : ℕ) → pairs a (suc a / 2) (b / 2) ≡ pairs (suc a / 2) (suc a / 2) (b / 2)
  pairs-half a b =
      ap (λ (t : ℕ). pairs t (suc a / 2) (b / 2)) (split a)
      ∙ spare_digits (a - suc a / 2) (suc a / 2) (suc a / 2) (b / 2) (omega arith)
    where
      split : (a : ℕ) → a ≡ a - suc a / 2 + suc a / 2
      split a = omega arith

-- The lowest digit of a `|`, and the `|` of the halves.
pub bit_or-halves : (x y : ℕ) → 2 * bit_or (x / 2) (y / 2) + max (x % 2) (y % 2) ≡ bit_or x y
bit_or-halves zero y = sym (simp bit_or-bitwise (omega arith))
bit_or-halves (suc x) y =
    let opened : bit_or (suc x) y ≡ bit_or (suc x / 2) (y / 2) * 2 + max (suc x % 2) (y % 2) =
      simp bit_or-bitwise
        (ap (λ (t : ℕ). t * 2 + max (suc x % 2) (y % 2)) (pairs-half (λ y. y) max x y)) in
    omega (arith, opened)

-- The same of a `&`.
pub bit_and-halves : (x y : ℕ) → 2 * bit_and (x / 2) (y / 2) + min (x % 2) (y % 2) ≡ bit_and x y
bit_and-halves zero y = sym (simp bit_and-bitwise (omega arith))
bit_and-halves (suc x) y =
    let opened : bit_and (suc x) y ≡ bit_and (suc x / 2) (y / 2) * 2 + min (suc x % 2) (y % 2) =
      simp bit_and-bitwise
        (ap (λ (t : ℕ). t * 2 + min (suc x % 2) (y % 2)) (pairs-half (λ y. 0) min x y)) in
    omega (arith, opened)

-- A mask of `k` ones keeps a number of `k` digits.
pub bit_and-mask : (k t : ℕ) → t < 2 ^ k → bit_and t (2 ^ k - 1) ≡ t
bit_and-mask zero zero h = refl
bit_and-mask zero (suc t) h = absurd (omega arith)
bit_and-mask (suc k) t h = omega (
  arith,
  bit_and-halves t (2 ^ suc k - 1),
  pow-suc 2 k,
  ap (λ (m : ℕ). bit_and (t / 2) m) halved,
  bit_and-mask k (t / 2) (omega (arith, pow-suc 2 k)),
)
  where
    halved : (2 ^ suc k - 1) / 2 ≡ 2 ^ k - 1
    halved = omega (arith, pow-suc 2 k)

differ-parity : (a b : ℕ) → differ (a % 2) (b % 2) ≡ (a + b) % 2
differ-parity a b = by_digits (a % 2) (b % 2) (omega arith) (omega arith) ∙ omega arith
  where
    by_digits : (x y : ℕ) → x < 2 → y < 2 → differ x y ≡ (x + y) % 2
    by_digits zero y p q = omega arith
    by_digits (suc zero) zero p q = refl
    by_digits (suc zero) (suc zero) p q = refl
    by_digits (suc zero) (suc (suc y)) p q = absurd (omega arith)
    by_digits (suc (suc x)) y p q = absurd (omega arith)

-- The lowest digit of a `^` is the parity of the sum, and the others are the `^` of the halves.
pub bit_xor_step : (a b : ℕ) → bit_xor a b ≡ bit_xor (a / 2) (b / 2) * 2 + (a + b) % 2
bit_xor_step zero b = simp bit_xor-bitwise (omega arith)
bit_xor_step (suc a) b =
    simp bit_xor-bitwise
      (ap₂ (λ (s t : ℕ). s * 2 + t) (pairs-half (λ y. y) differ a b) (differ-parity (suc a) b))

pub bit_xor-div-two : (a b : ℕ) → bit_xor a b / 2 ≡ bit_xor (a / 2) (b / 2)
bit_xor-div-two a b = omega (arith, bit_xor_step a b)

pub bit_xor-mod-two : (a b : ℕ) → bit_xor a b % 2 ≡ (a + b) % 2
bit_xor-mod-two a b = omega (arith, bit_xor_step a b)

-- Induction on a count of digits `k` that bounds the numbers.
by_halves : (a b : ℕ) → a / 2 ≡ b / 2 → a % 2 ≡ b % 2 → a ≡ b
by_halves a b p q = omega arith

zero-bit_xor : (a : ℕ) → bit_xor 0 a ≡ a
zero-bit_xor a = simp bit_xor-bitwise

bit_xor-zero_below : (k a : ℕ) → a ≤ k → bit_xor a 0 ≡ a
bit_xor-zero_below zero zero h = refl
bit_xor-zero_below zero (suc a) h = absurd (omega arith)
bit_xor-zero_below (suc k) zero h = refl
bit_xor-zero_below (suc k) (suc a) h =
    omega (arith, bit_xor_step (suc a) 0, bit_xor-zero_below k (suc a / 2) (omega arith))

pub bit_xor-zero : (a : ℕ) → bit_xor a 0 ≡ a
bit_xor-zero a = bit_xor-zero_below a a (omega arith)

bit_xor-comm_below : (k a b : ℕ) → a ≤ k → b ≤ k → bit_xor a b ≡ bit_xor b a
bit_xor-comm_below zero zero zero p q = refl
bit_xor-comm_below zero zero (suc b) p q = absurd (omega arith)
bit_xor-comm_below zero (suc a) b p q = absurd (omega arith)
bit_xor-comm_below (suc k) a b p q = omega (
  arith,
  bit_xor_step a b,
  bit_xor_step b a,
  bit_xor-comm_below k (a / 2) (b / 2) (omega arith) (omega arith),
)

pub bit_xor_comm : (a b : ℕ) → bit_xor a b ≡ bit_xor b a
bit_xor_comm a b = bit_xor-comm_below (a + b) a b (omega arith) (omega arith)

regroup :
    (a b c : ℕ)
    → bit_xor (bit_xor (a / 2) (b / 2)) (c / 2) ≡ bit_xor (a / 2) (bit_xor (b / 2) (c / 2))
    → bit_xor (bit_xor a b) c ≡ bit_xor a (bit_xor b c)
regroup a b c ih = by_halves _ _ halves parities
  where
    halves : bit_xor (bit_xor a b) c / 2 ≡ bit_xor a (bit_xor b c) / 2
    halves = simp bit_xor-div-two ih

    parities : bit_xor (bit_xor a b) c % 2 ≡ bit_xor a (bit_xor b c) % 2
    parities = omega (
      arith,
      bit_xor-mod-two (bit_xor a b) c,
      bit_xor-mod-two a (bit_xor b c),
      bit_xor-mod-two a b,
      bit_xor-mod-two b c,
    )

bit_xor-assoc_below :
    (k a b c : ℕ) → a ≤ k → b ≤ k → c ≤ k → bit_xor (bit_xor a b) c ≡ bit_xor a (bit_xor b c)
bit_xor-assoc_below zero zero zero zero p q r = refl
bit_xor-assoc_below zero zero zero (suc c) p q r = absurd (omega arith)
bit_xor-assoc_below zero zero (suc b) c p q r = absurd (omega arith)
bit_xor-assoc_below zero (suc a) b c p q r = absurd (omega arith)
bit_xor-assoc_below (suc k) a b c p q r =
    regroup a b c
      (bit_xor-assoc_below k (a / 2) (b / 2) (c / 2) (omega arith) (omega arith) (omega arith))

pub bit_xor_assoc : (a b c : ℕ) → bit_xor (bit_xor a b) c ≡ bit_xor a (bit_xor b c)
bit_xor_assoc a b c =
    bit_xor-assoc_below (a + b + c) a b c (omega arith) (omega arith) (omega arith)

bit_xor-self_below : (k a : ℕ) → a ≤ k → bit_xor a a ≡ 0
bit_xor-self_below zero zero h = refl
bit_xor-self_below zero (suc a) h = absurd (omega arith)
bit_xor-self_below (suc k) a h =
    omega (arith, bit_xor_step a a, bit_xor-self_below k (a / 2) (omega arith))

pub bit_xor_self : (a : ℕ) → bit_xor a a ≡ 0
bit_xor_self a = bit_xor-self_below a a (omega arith)

-- `c ^ _` can be undone.
pub bit_xor-cancel : (c a b : ℕ) → bit_xor c a ≡ bit_xor c b → a ≡ b
bit_xor-cancel c a b h = sym (twice a) ∙ ap (bit_xor c) h ∙ twice b
  where
    twice : (x : ℕ) → bit_xor c (bit_xor c x) ≡ x
    twice x =
        sym (bit_xor_assoc c c x) ∙ ap (λ (t : ℕ). bit_xor t x) (bit_xor_self c) ∙ zero-bit_xor x

-- A `^` of numbers of `k` binary digits has `k` binary digits.
pub bit_xor-lt : (k a b : ℕ) → a < 2 ^ k → b < 2 ^ k → bit_xor a b < 2 ^ k
bit_xor-lt zero zero zero p q = omega arith
bit_xor-lt zero zero (suc b) p q = absurd (omega arith)
bit_xor-lt zero (suc a) b p q = absurd (omega arith)
bit_xor-lt (suc k) a b p q =
    omega (
      arith,
      bit_xor_step a b,
      pow-suc 2 k,
      bit_xor-lt k (a / 2) (b / 2) (halve k a p) (halve k b q),
    )
  where
    halve : (k x : ℕ) → x < 2 ^ suc k → x / 2 < 2 ^ k
    halve k x h = omega (arith, pow-suc 2 k)

-- `(q << k) ^ r` is a sum too.
pub bit_xor-shift : (k q r : ℕ) → r < 2 ^ k → bit_xor (q * 2 ^ k) r ≡ q * 2 ^ k + r
bit_xor-shift zero q zero h = bit_xor-zero (q * 2 ^ 0) ∙ omega arith
bit_xor-shift zero q (suc r) h = absurd (omega arith)
bit_xor-shift (suc k) q r h = omega (
  arith,
  bit_xor_step (q * 2 ^ suc k) r,
  doubled,
  bit_xor-shift k q (r / 2) (omega (arith, pow-suc 2 k)),
  ap (λ (t : ℕ). bit_xor t (r / 2)) halved,
)
  where
    doubled : q * 2 ^ suc k ≡ 2 * (q * 2 ^ k)
    doubled = omega (arith, ap (λ (t : ℕ). q * t) (pow-suc 2 k))

    halved : q * 2 ^ suc k / 2 ≡ q * 2 ^ k
    halved = omega (arith, doubled)

bit_or-zero_below : (k a : ℕ) → a ≤ k → bit_or a 0 ≡ a
bit_or-zero_below zero zero h = refl
bit_or-zero_below zero (suc a) h = absurd (omega arith)
bit_or-zero_below (suc k) zero h = refl
bit_or-zero_below (suc k) (suc a) h =
    omega (arith, bit_or-halves (suc a) 0, bit_or-zero_below k (suc a / 2) (omega arith))

-- `(q << k) | r` is a sum when `r` has at most `k` digits.
pub bit_or-shift : (k q r : ℕ) → r < 2 ^ k → bit_or (q * 2 ^ k) r ≡ q * 2 ^ k + r
bit_or-shift zero q zero h = rw (one q) (bit_or-zero_below q q (omega arith) ∙ omega arith)
  where
    one : (q : ℕ) → q * 2 ^ 0 ≡ q
    one q = omega arith
bit_or-shift zero q (suc r) h = absurd (omega arith)
bit_or-shift (suc k) q r h = omega (
  arith,
  bit_or-halves (q * 2 ^ suc k) r,
  doubled,
  bit_or-shift k q (r / 2) (omega (arith, pow-suc 2 k)),
  ap (λ (t : ℕ). bit_or t (r / 2)) halved,
)
  where
    doubled : q * 2 ^ suc k ≡ 2 * (q * 2 ^ k)
    doubled = omega (arith, ap (λ (t : ℕ). q * t) (pow-suc 2 k))

    halved : q * 2 ^ suc k / 2 ≡ q * 2 ^ k
    halved = omega (arith, doubled)

-- Two functions that agree below a bound, checked value by value by evaluation.
module _ (f g : ℕ → ℕ) where
  unfoldable pub agree_below : ℕ → Bool
  agree_below zero = true
  agree_below (suc n) = f n == g n && agree_below n

  pub agree_below→eq : (n i : ℕ) → agree_below n ≡ true → i < n → f i ≡ g i
  unfolding agree_below
  agree_below→eq zero i e h = absurd (omega arith)
  agree_below→eq (suc n) i e h = ground (arith, agree_below→eq n i)
