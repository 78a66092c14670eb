-- ===== src/Base/Bytes.antt =====
-- Masks and fields of a byte as arithmetic. Each is a table, checked by evaluation.
use Prim.Native.Nat.{ℕ, zero, suc, ◌+◌, ◌*◌, ◌/◌, ◌%◌, ◌<◌, bit_and, bit_or}
use mathlib.Core.Path.{◌≡◌, refl}
use mathlib.Core.Bool.{Bool, true, ◌&&◌}
use native.Mathlib.Omega.{arith}
use reverse_traceroute_publi.Base.Tests.{◌==◌}

-- `f` and `g` agree on the numbers below `n`.
agree : (f g : ℕ → ℕ) → ℕ → Bool
agree f g zero = true
agree f g (suc n) = (f n == g n) && agree f g n

from_table : (f g : ℕ → ℕ) (n : ℕ) → agree f g n ≡ true → (x : ℕ) → x < n → f x ≡ g x
unfolding agree
from_table f g zero e x h = absurd (omega arith)
from_table f g (suc n) e x h = ground (arith, from_table f g n (ground arith) x)

pub low_two : (x : ℕ) → x < 256 → bit_and x 0x03 ≡ x % 4
unfolding agree
low_two = from_table _ _ 256 refl

pub low_four : (x : ℕ) → x < 256 → bit_and x 0x0f ≡ x % 16
unfolding agree
low_four = from_table _ _ 256 refl

pub low_six : (x : ℕ) → x < 256 → bit_and x 0x3f ≡ x % 64
unfolding agree
low_six = from_table _ _ 256 refl

pub high_six : (x : ℕ) → x < 256 → bit_and x 0xfc ≡ x / 4 * 4
unfolding agree
high_six = from_table _ _ 256 refl

pub high_four : (x : ℕ) → x < 256 → bit_and x 0xf0 ≡ x / 16 * 16
unfolding agree
high_four = from_table _ _ 256 refl

pub high_two : (x : ℕ) → x < 256 → bit_and x 0xc0 ≡ x / 64 * 64
unfolding agree
high_two = from_table _ _ 256 refl

or_fields_4 : (x : ℕ) → x < 256 → bit_or (x / 4 * 4) (x % 4) ≡ x
unfolding agree
or_fields_4 = from_table _ _ 256 refl

or_fields_16 : (x : ℕ) → x < 256 → bit_or (x / 16 * 16) (x % 16) ≡ x
unfolding agree
or_fields_16 = from_table _ _ 256 refl

or_fields_64 : (x : ℕ) → x < 256 → bit_or (x / 64 * 64) (x % 64) ≡ x
unfolding agree
or_fields_64 = from_table _ _ 256 refl

-- `|` of two fields that do not overlap is their sum.
pub or_4 : (q r : ℕ) → q < 64 → r < 4 → bit_or (q * 4) r ≡ q * 4 + r
or_4 q r h k =
    let high : (q * 4 + r) / 4 ≡ q = omega arith in
    let low : (q * 4 + r) % 4 ≡ r = omega arith in
    rw (high, low) at (or_fields_4 (q * 4 + r) (omega arith))

pub or_16 : (q r : ℕ) → q < 16 → r < 16 → bit_or (q * 16) r ≡ q * 16 + r
or_16 q r h k =
    let high : (q * 16 + r) / 16 ≡ q = omega arith in
    let low : (q * 16 + r) % 16 ≡ r = omega arith in
    rw (high, low) at (or_fields_16 (q * 16 + r) (omega arith))

pub or_64 : (q r : ℕ) → q < 4 → r < 64 → bit_or (q * 64) r ≡ q * 64 + r
or_64 q r h k =
    let high : (q * 64 + r) / 64 ≡ q = omega arith in
    let low : (q * 64 + r) % 64 ≡ r = omega arith in
    rw (high, low) at (or_fields_64 (q * 64 + r) (omega arith))
