-- ===== src/Base/Bits.antt =====
-- `|` of two fields that share no binary digit is their sum, at every width.
use mathlib.Core.Path.{◌≡◌, refl, ap, ◌∙◌}
use native.Mathlib.Nat.{pow-suc}
use native.Mathlib.Omega.{arith}
use Prim.Native.Nat.{
  ℕ, zero, suc, ◌+◌, ◌*◌, ◌/◌, ◌%◌, ◌≤◌, ◌<◌, ◌^◌, max, bit_or, digits, bit_or-bitwise,
}

-- Halving a multiple of a power of two.
half-shifted : (q k a : ℕ) → a ≡ q * 2 ^ suc k → (a / 2 ≡ q * 2 ^ k) × (a % 2 ≡ 0)
half-shifted q k a e =
    let twice : q * 2 ^ suc k ≡ q * 2 ^ k * 2 =
      omega (arith, ap (λ (p : ℕ). q * p) (pow-suc 2 k)) in
    (omega arith, omega arith)

-- The recursion on digits that `|` stands for, on an upper and a lower field.
digits-fields :
    (fuel k q a r : ℕ) → a ≡ q * 2 ^ k → a ≤ fuel → r < 2 ^ k → digits (λ y. y) max fuel a r ≡ a + r
digits-fields fuel k q zero r e enough fits = none_left fuel
  where
    none_left : (n : ℕ) → digits (λ y. y) max n zero r ≡ zero + r
    none_left zero = omega arith
    none_left (suc n) = omega arith
digits-fields zero k q (suc a) r e enough fits = absurd (omega arith)
digits-fields (suc fuel) zero q (suc a) r e enough fits =
    let below =
      digits-fields fuel zero (suc a / 2) (suc a / 2) (r / 2) (omega arith) (omega arith)
        (omega arith) in
    omega (arith, below)
digits-fields (suc fuel) (suc k) q (suc a) r e enough fits =
    let half = half-shifted q k (suc a) e in
    let below =
      digits-fields fuel k q (suc a / 2) (r / 2) half.0 (omega arith)
        (omega (arith, pow-suc 2 k)) in
    omega (arith, below, half.1)

-- `q << k | r` is a sum when `r` fits `k` bits.
pub bit_or_fields : (k q r : ℕ) → r < 2 ^ k → bit_or (q * 2 ^ k) r ≡ q * 2 ^ k + r
bit_or_fields k q r fits = omega (
  arith,
  bit_or-bitwise (q * 2 ^ k) r,
  digits-fields (q * 2 ^ k) k q (q * 2 ^ k) r refl (omega arith) fits,
)

-- The digits from `k` on are those of the first number, where the second has none there.
digits-high :
    (fuel k q n a r : ℕ)
    → n ≡ q * 2 ^ k + a
    → a < 2 ^ k
    → n ≤ fuel
    → r < 2 ^ k
    → (s : ℕ) × (s < 2 ^ k) × (digits (λ y. y) max fuel n r ≡ q * 2 ^ k + s)
digits-high fuel zero q n a r e low enough fits =
    (0, omega arith, omega (arith, digits-fields fuel 0 n n r (omega arith) enough fits))
digits-high zero (suc k) q n a r e low enough fits = (r, fits, omega arith)
digits-high (suc fuel) (suc k) q zero a r e low enough fits = (r, fits, omega arith)
digits-high (suc fuel) (suc k) q (suc n) a r e low enough fits =
    let twice : q * 2 ^ suc k ≡ q * 2 ^ k * 2 =
      omega (arith, ap (λ (p : ℕ). q * p) (pow-suc 2 k)) in
    let (s, small, below) =
      digits-high fuel k q (suc n / 2) (a / 2) (r / 2) (omega arith) (omega (arith, pow-suc 2 k))
        (omega arith) (omega (arith, pow-suc 2 k)) in
    (s * 2 + max (suc n % 2) (r % 2), omega (arith, pow-suc 2 k), omega (arith, below))

-- `|` with a number of `k` bits leaves the bits above them.
pub bit_or_high :
    (k q a r : ℕ)
    → a < 2 ^ k
    → r < 2 ^ k
    → (s : ℕ) × (s < 2 ^ k) × (bit_or (q * 2 ^ k + a) r ≡ q * 2 ^ k + s)
bit_or_high k q a r low fits =
    let n = q * 2 ^ k + a in
    let (s, small, e) = digits-high n k q n a r refl low (omega arith) fits in
    (s, small, bit_or-bitwise n r ∙ e)
