-- ===== src/Base/Bits.antt =====
-- `|` of fields that do not overlap, and `&` with a mask of one field, at any width.
use Prim.Native.Nat.{
  ℕ, zero, suc, ◌+◌, ◌*◌, ◌/◌, ◌^◌, ◌≤◌, ◌<◌, min, max, digits, bit_and, bit_or, bit_and-bitwise,
  bit_or-bitwise,
}
use mathlib.Core.Path.{◌≡◌, refl, ap, ◌∙◌}
use native.Mathlib.Nat.{pow-suc}
use native.Mathlib.Omega.{arith}

times_pow-suc : (q k : ℕ) → q * 2 ^ suc k ≡ 2 * (q * 2 ^ k)
times_pow-suc q k = omega (arith, ap (λ (t : ℕ). q * t) (pow-suc 2 k))

-- `bit_or` recurses on the digits of its left argument, on fuel `n`.
or_sum : (n k q r a : ℕ) → a ≡ q * 2 ^ k → a ≤ n → r < 2 ^ k → digits (λ y. y) max n a r ≡ a + r
or_sum zero k q r zero e le lt = omega arith
or_sum zero k q r (suc a) e le lt = absurd (omega arith)
or_sum (suc n) k q r zero e le lt = omega arith
or_sum (suc n) zero q r (suc a) e le lt =
    omega (
      arith,
      or_sum n zero (suc a / 2) (r / 2) (suc a / 2) (omega arith) (omega arith) (omega arith),
    )
or_sum (suc n) (suc k) q r (suc a) e le lt = omega (
  arith,
  times_pow-suc q k,
  or_sum n k q (r / 2) (suc a / 2) (omega (arith, times_pow-suc q k)) (omega arith)
      (omega (arith, pow-suc 2 k)),
)

pub bit_or_fields : (k q r : ℕ) → r < 2 ^ k → bit_or (q * 2 ^ k) r ≡ q * 2 ^ k + r
bit_or_fields k q r h =
    bit_or-bitwise (q * 2 ^ k) r ∙ or_sum (q * 2 ^ k) k q r (q * 2 ^ k) refl (omega arith) h

zero_field : (x f t l : ℕ) → 0 ≡ (x + f) * t + l → 0 ≡ f * t
zero_field x zero t l e = omega arith
zero_field x (suc f) zero l e = omega arith
zero_field x (suc f) (suc t) l e = absurd (omega arith)

-- The field of `f` in `(h * 2 ^ j + f) * 2 ^ k + l`, cut out by a mask of `j` ones at `k`.
and_field :
    (n k j h f l m a b : ℕ)
    → m + 1 ≡ 2 ^ j
    → a ≡ (h * 2 ^ j + f) * 2 ^ k + l
    → b ≡ m * 2 ^ k
    → f < 2 ^ j
    → l < 2 ^ k
    → a ≤ n
    → digits (λ y. 0) min n a b ≡ f * 2 ^ k
and_field zero k j h f l m zero b em ea eb hf hl le = zero_field (h * 2 ^ j) f (2 ^ k) l ea
and_field zero k j h f l m (suc a) b em ea eb hf hl le = absurd (omega arith)
and_field (suc n) k j h f l m zero b em ea eb hf hl le = zero_field (h * 2 ^ j) f (2 ^ k) l ea
and_field (suc n) zero zero h f l m (suc a) b em ea eb hf hl le = omega (
  arith,
  and_field n zero zero (suc a / 2) 0 0 m (suc a / 2) (b / 2) em (omega arith) (omega arith)
      (omega arith) (omega arith) (omega arith),
)
and_field (suc n) zero (suc j) h f l m (suc a) b em ea eb hf hl le = omega (
  arith,
  times_pow-suc h j,
  pow-suc 2 j,
  and_field n zero j h (f / 2) 0 (m / 2) (suc a / 2) (b / 2) (omega (arith, pow-suc 2 j))
      (omega (arith, times_pow-suc h j)) (omega arith) (omega (arith, pow-suc 2 j)) (omega arith)
      (omega arith),
)
and_field (suc n) (suc k) j h f l m (suc a) b em ea eb hf hl le = omega (
  arith,
  times_pow-suc (h * 2 ^ j + f) k,
  times_pow-suc f k,
  times_pow-suc m k,
  pow-suc 2 k,
  and_field n k j h f (l / 2) m (suc a / 2) (b / 2) em
      (omega (arith, times_pow-suc (h * 2 ^ j + f) k)) (omega (arith, times_pow-suc m k)) hf
      (omega (arith, pow-suc 2 k)) (omega arith),
)

-- `&` with a mask of the byte at `k`.
pub bit_and_byte :
    (k h f l : ℕ)
    → f < 256
    → l < 2 ^ k
    → bit_and ((h * 256 + f) * 2 ^ k + l) (255 * 2 ^ k) ≡ f * 2 ^ k
bit_and_byte k h f l hf hl =
    bit_and-bitwise ((h * 256 + f) * 2 ^ k + l) (255 * 2 ^ k)
    ∙ and_field ((h * 256 + f) * 2 ^ k + l) k 8 h f l 255 ((h * 256 + f) * 2 ^ k + l) (255 * 2 ^ k)
        refl refl refl hf hl (omega arith)
