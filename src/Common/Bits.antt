-- ===== src/Common/Bits.antt =====
-- Laws of the exclusive and the inclusive or, from the recursion on binary digits.
use Prim.Native.Nat.{
  ℕ, zero, suc, ◌+◌, ◌*◌, ◌/◌, ◌%◌, ◌≤◌, ◌<◌, ◌^◌, max, bit_or, bit_xor, digits, differ,
  bit_or-bitwise, bit_xor-bitwise,
}
use mathlib.Core.Path.{◌≡◌, refl, sym, ◌∙◌}
use native.Mathlib.Nat.{pow-suc}
use native.Mathlib.Omega.{arith}

abbrev or_digits : ℕ → ℕ → ℕ → ℕ
or_digits n a b = digits (λ b. b) max n a b

abbrev xor_digits : ℕ → ℕ → ℕ → ℕ
xor_digits n a b = digits (λ b. b) differ n a b

module _ (f : ℕ → ℕ → ℕ) where
  -- More rounds than there are digits change nothing.
  rounds : (n m a b : ℕ) → a ≤ n → a ≤ m → digits (λ b. b) f n a b ≡ digits (λ b. b) f m a b
  rounds zero zero a b p q = refl
  rounds zero (suc m) zero b p q = refl
  rounds zero (suc m) (suc a) b p q = absurd (omega arith)
  rounds (suc n) zero zero b p q = refl
  rounds (suc n) zero (suc a) b p q = absurd (omega arith)
  rounds (suc n) (suc m) zero b p q = refl
  rounds (suc n) (suc m) (suc a) b p q =
      omega (arith, rounds n m (suc a / 2) (b / 2) (omega arith) (omega arith))

zero-bit_xor : (b : ℕ) → bit_xor 0 b ≡ b
zero-bit_xor b = bit_xor-bitwise 0 b

zero-bit_or : (b : ℕ) → bit_or 0 b ≡ b
zero-bit_or b = bit_or-bitwise 0 b

-- Two digits.
differ_zero : (d : ℕ) → d < 2 → differ 0 d ≡ d
differ_zero zero h = refl
differ_zero (suc zero) h = refl
differ_zero (suc (suc d)) h = absurd (omega arith)

differ_twice : (c d : ℕ) → c < 2 → d < 2 → differ (differ c d) d ≡ c
differ_twice zero zero h k = refl
differ_twice zero (suc zero) h k = refl
differ_twice (suc zero) zero h k = refl
differ_twice (suc zero) (suc zero) h k = refl
differ_twice zero (suc (suc d)) h k = absurd (omega arith)
differ_twice (suc zero) (suc (suc d)) h k = absurd (omega arith)
differ_twice (suc (suc c)) d h k = absurd (omega arith)

differ_bound : (c d : ℕ) → c < 2 → d < 2 → differ c d < 2
differ_bound zero zero h k = omega arith
differ_bound zero (suc zero) h k = omega arith
differ_bound (suc zero) zero h k = omega arith
differ_bound (suc zero) (suc zero) h k = omega arith
differ_bound zero (suc (suc d)) h k = absurd (omega arith)
differ_bound (suc zero) (suc (suc d)) h k = absurd (omega arith)
differ_bound (suc (suc c)) d h k = absurd (omega arith)

bit_xor_step : (a b : ℕ) → bit_xor a b ≡ bit_xor (a / 2) (b / 2) * 2 + differ (a % 2) (b % 2)
bit_xor_step zero b =
    omega (arith, zero-bit_xor b, zero-bit_xor (b / 2), differ_zero (b % 2) (omega arith))
bit_xor_step (suc a) b = omega (
  arith,
  bit_xor-bitwise (suc a) b,
  bit_xor-bitwise (suc a / 2) (b / 2),
  rounds differ a (suc a / 2) (suc a / 2) (b / 2) (omega arith) (omega arith),
)

bit_or_step : (a b : ℕ) → bit_or a b ≡ bit_or (a / 2) (b / 2) * 2 + max (a % 2) (b % 2)
bit_or_step zero b = omega (arith, zero-bit_or b, zero-bit_or (b / 2))
bit_or_step (suc a) b = omega (
  arith,
  bit_or-bitwise (suc a) b,
  bit_or-bitwise (suc a / 2) (b / 2),
  rounds max a (suc a / 2) (suc a / 2) (b / 2) (omega arith) (omega arith),
)

xor_halves :
    (a b : ℕ)
    → (bit_xor a b / 2 ≡ bit_xor (a / 2) (b / 2)) × (bit_xor a b % 2 ≡ differ (a % 2) (b % 2))
xor_halves a b =
    let step = bit_xor_step a b in
    let bound = differ_bound (a % 2) (b % 2) (omega arith) (omega arith) in
    (omega arith, omega arith)

or_halves :
    (a b : ℕ) → (bit_or a b / 2 ≡ bit_or (a / 2) (b / 2)) × (bit_or a b % 2 ≡ max (a % 2) (b % 2))
or_halves a b = let step = bit_or_step a b in (omega arith, omega arith)

differ_self : (d : ℕ) → d < 2 → differ d d ≡ 0
differ_self zero h = refl
differ_self (suc zero) h = refl
differ_self (suc (suc d)) h = absurd (omega arith)

self_below : (n b : ℕ) → b ≤ n → bit_xor b b ≡ 0
self_below n zero h = zero-bit_xor 0
self_below zero (suc b) h = absurd (omega arith)
self_below (suc n) (suc b) h = omega (
  arith,
  bit_xor_step (suc b) (suc b),
  self_below n (suc b / 2) (omega arith),
  differ_self (suc b % 2) (omega arith),
)

pub bit_xor_self : (b : ℕ) → bit_xor b b ≡ 0
bit_xor_self b = self_below b b (omega arith)

cancel_below : (n a b : ℕ) → a ≤ n → bit_xor (bit_xor a b) b ≡ a
cancel_below n zero b h = rw (zero-bit_xor b) (bit_xor_self b)
cancel_below zero (suc a) b h = absurd (omega arith)
cancel_below (suc n) (suc a) b h =
    bit_xor_step (bit_xor (suc a) b) b
    ∙ (rw
        (
          (xor_halves (suc a) b).0,
          (xor_halves (suc a) b).1,
          cancel_below n (suc a / 2) (b / 2) (omega arith),
          differ_twice (suc a % 2) (b % 2) (omega arith) (omega arith),
        )
        (omega arith))

-- The same key twice gives the number back.
pub bit_xor-cancel : (a b : ℕ) → bit_xor (bit_xor a b) b ≡ a
bit_xor-cancel a b = cancel_below a a b (omega arith)

-- Only equal numbers have no differing digit.
pub eq_of_bit_xor : (a b : ℕ) → bit_xor a b ≡ 0 → a ≡ b
eq_of_bit_xor a b h = sym (bit_xor-cancel a b) ∙ (rw h (zero-bit_xor b))

or_zero_below : (n a b : ℕ) → a ≤ n → bit_or a b ≡ 0 → (a ≡ 0) × (b ≡ 0)
or_zero_below n zero b h e = (refl, sym (zero-bit_or b) ∙ e)
or_zero_below zero (suc a) b h e = absurd (omega arith)
or_zero_below (suc n) (suc a) b h e =
    let p = or_halves (suc a) b in
    let ih = or_zero_below n (suc a / 2) (b / 2) (omega arith) (omega (arith, p.0)) in
    (omega (arith, p.1), omega (arith, p.1))

pub bit_or-eq_zero : (a b : ℕ) → bit_or a b ≡ 0 → (a ≡ 0) × (b ≡ 0)
bit_or-eq_zero a b = or_zero_below a a b (omega arith)

-- No digit is set above those of the operands.
bound_below : (k a b : ℕ) → a < 2 ^ k → b < 2 ^ k → bit_xor a b < 2 ^ k
bound_below zero zero zero h l = omega (arith, zero-bit_xor 0)
bound_below zero zero (suc b) h l = absurd (omega arith)
bound_below zero (suc a) b h l = absurd (omega arith)
bound_below (suc k) a b h l =
    let step = bit_xor_step a b in
    let bound = differ_bound (a % 2) (b % 2) (omega arith) (omega arith) in
    let double : 2 ^ suc k ≡ 2 ^ k * 2 = pow-suc 2 k in
    let ih = bound_below k (a / 2) (b / 2) (omega arith) (omega arith) in omega arith

pub bit_xor_lt : (k a b : ℕ) → a < 2 ^ k → b < 2 ^ k → bit_xor a b < 2 ^ k
bit_xor_lt = bound_below
