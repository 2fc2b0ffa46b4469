-- ===== src/Shm/Ring/Mask.antt =====
-- A mask of low ones is a remainder, so the masked indices of ring.rs stay below the capacity.
use Prim.Native.Nat.{bit_and, digits, bit_and-bitwise, min}
use native.Mathlib.Nat.{
  pow-suc, one-le-pow, mod-lt, zero-mod, mod-one, mod-eq_of_lt, add-mul-mod_self_right,
  div-add-mod',
}
use ratatosk.Prelude.{
  ℕ, zero, suc, ◌+◌, ◌-◌, ◌*◌, ◌/◌, ◌%◌, ◌^◌, ◌≤◌, ◌≡◌, refl, sym, ap, ◌∙◌, arith,
}

mask_digits : ℕ → ℕ → ℕ → ℕ
mask_digits fuel a m = digits (λ b. zero) min fuel a m

mask_digits-zero : (fuel a : ℕ) → mask_digits fuel a 0 ≡ 0
unfolding mask_digits
mask_digits-zero zero a = refl
mask_digits-zero (suc fuel) zero = refl
mask_digits-zero (suc fuel) (suc a) = omega (arith, mask_digits-zero fuel (suc a / 2))

-- One digit and the rest.
double_mod : (k a : ℕ) → a / 2 % 2 ^ k * 2 + a % 2 ≡ a % 2 ^ suc k
double_mod k a = sym (
    ap (λ t. t % 2 ^ suc k) whole
    ∙ add-mul-mod_self_right (r * 2 + a % 2) q (2 ^ suc k)
    ∙ mod-eq_of_lt
        (omega (arith, mod-lt (a / 2) {m = 2 ^ k} (one-le-pow k 2 (omega arith)), pow-suc 2 k)))
  where
    q : ℕ
    q = a / 2 / 2 ^ k

    r : ℕ
    r = a / 2 % 2 ^ k

    whole : a ≡ r * 2 + a % 2 + q * 2 ^ suc k
    whole = omega (arith, div-add-mod' (a / 2) (2 ^ k), ap (λ (t : ℕ). q * t) (pow-suc 2 k))

mask_digits_lem : (fuel k a : ℕ) → a ≤ fuel → mask_digits fuel a (2 ^ k - 1) ≡ a % 2 ^ k
unfolding mask_digits
mask_digits_lem fuel zero a h = rw mod-one (mask_digits-zero fuel a)
mask_digits_lem zero (suc k) zero h = sym (zero-mod (2 ^ suc k))
mask_digits_lem zero (suc k) (suc a) h = absurd (omega arith)
mask_digits_lem (suc fuel) (suc k) zero h = sym (zero-mod (2 ^ suc k))
mask_digits_lem (suc fuel) (suc k) (suc a) h = omega (
  arith,
  mask_digits_lem fuel k (suc a / 2) (omega arith),
  ap (mask_digits fuel (suc a / 2)) halved,
  double_mod k (suc a),
  pow-suc 2 k,
  one-le-pow k 2 (omega arith),
)
  where
    halved : (2 ^ suc k - 1) / 2 ≡ 2 ^ k - 1
    halved = omega (arith, pow-suc 2 k, one-le-pow k 2 (omega arith))

-- `a & (2^k - 1)` is `a % 2^k`.
pub bit_and-mask : (k a : ℕ) → bit_and a (2 ^ k - 1) ≡ a % 2 ^ k
unfolding mask_digits
bit_and-mask k a = bit_and-bitwise a (2 ^ k - 1) ∙ mask_digits_lem a k a (omega arith)
