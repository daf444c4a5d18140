-- ===== src/Common/Bits.antt =====
-- `&` with a mask of low bits is the remainder by a power of two, at every width.
use Prim.Native.Nat.{ℕ, zero, suc, ◌+◌, ◌-◌, ◌*◌, ◌/◌, ◌%◌, ◌^◌, ◌≤◌, ◌<◌}
use Prim.Native.Nat.{min, digits, bit_and, bit_and-bitwise}
use mathlib.Core.Path.{◌≡◌, sym, ap, ◌∙◌}
use native.Mathlib.Nat.{
  pow-suc, one-le-pow, zero-mod, mod-add-div, mod-lt, mod-eq_of_lt, mul-add-mod_self_left,
}
use native.Mathlib.Omega.{arith}

-- Half a mask is the mask with one bit less.
half_mask : (k : ℕ) → ((2 ^ suc k - 1) / 2 ≡ 2 ^ k - 1) × ((2 ^ suc k - 1) % 2 ≡ 1)
half_mask k =
    (omega (arith, pow-suc 2 k, one-le-pow k 2), omega (arith, pow-suc 2 k, one-le-pow k 2))

-- A remainder by 2 ^ suc k, from its lowest bit and the remainder of the half.
mod_half : (k a : ℕ) → a / 2 % 2 ^ k * 2 + a % 2 ≡ a % 2 ^ suc k
mod_half k a =
    let q = a / 2 / 2 ^ k in
    let r = a / 2 % 2 ^ k * 2 + a % 2 in
    let split : a ≡ 2 ^ suc k * q + r =
      omega (arith, mod-add-div (a / 2) (2 ^ k), ap (λ (t : ℕ). t * q) (pow-suc 2 k)) in
    let small : r < 2 ^ suc k =
      omega (arith, pow-suc 2 k, mod-lt (a / 2) (one-le-pow k 2 (omega arith))) in
    sym (mod-eq_of_lt small)
    ∙ sym (mul-add-mod_self_left (2 ^ suc k) q r)
    ∙ ap (λ (t : ℕ). t % 2 ^ suc k) (sym split)

-- The digits of a masked number, given as many rounds as it needs.
masked : (rounds k a : ℕ) → a ≤ rounds → digits (λ b. zero) min rounds a (2 ^ k - 1) ≡ a % 2 ^ k
masked zero k zero h = omega (arith, zero-mod (2 ^ k))
masked zero k (suc a) h = absurd (omega arith)
masked (suc n) k zero h = omega (arith, zero-mod (2 ^ k))
masked (suc n) zero (suc a) h = ground (arith, masked n zero (suc a / 2) (omega arith))
masked (suc n) (suc k) (suc a) h =
    let (half, low) = half_mask k in
    rw (half, low, masked n k (suc a / 2) (omega arith)) (omega (arith, mod_half k (suc a)))

pub bit_and_mask : (k a : ℕ) → bit_and a (2 ^ k - 1) ≡ a % 2 ^ k
bit_and_mask k a = bit_and-bitwise a (2 ^ k - 1) ∙ masked a k a (omega arith)
