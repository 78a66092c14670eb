-- ===== src/Base/Text.antt =====
-- Native strings: equality by the text library, and the three-way order of Go's `strings.Compare`.
use Prim.Native.Nat.compare as compare_ℕ
use Prim.Native.Nat.{ℕ, zero, suc, Ordering, compare as compare_ℕ}
use Prim.Native.Char.{code}
use Prim.Native.String.compare as compare_text
use Prim.Native.String.{String, [], ◌∷◌, compare as compare_text, then}
use mathlib.Core.Path.{◌≡◌, refl, sym, ◌∙◌, ap, ap₂}
use mathlib.Core.Logic.{◌⊎◌, inl, inr, ◌≢◌}
use mathlib.Core.Bool.{Bool, true, false}
use native.Mathlib.Omega.{arith}
use text.Mathlib.Text.{◌==◌ as str_eq}
use text.Mathlib.TextEquality.{eq_iff}
use text.Mathlib.TextPositions.{eq_refl}

-- The opposite answer.
abbrev pub flip : Ordering → Ordering
flip Ordering.lt = Ordering.gt
flip Ordering.eq = Ordering.eq
flip Ordering.gt = Ordering.lt

flip-then : (o r : Ordering) → flip (then o r) ≡ then (flip o) (flip r)
flip-then Ordering.lt r = refl
flip-then Ordering.eq r = refl
flip-then Ordering.gt r = refl

flip-compare_ℕ : (m n : ℕ) → flip (compare_ℕ m n) ≡ compare_ℕ n m
flip-compare_ℕ zero zero = ap flip compare_ℕ.zero-zero ∙ sym compare_ℕ.zero-zero
flip-compare_ℕ zero (suc n) = ap flip (compare_ℕ.zero-suc n) ∙ sym (compare_ℕ.suc-zero n)
flip-compare_ℕ (suc m) zero = ap flip (compare_ℕ.suc-zero m) ∙ sym (compare_ℕ.zero-suc m)
flip-compare_ℕ (suc m) (suc n) =
    ap flip (compare_ℕ.suc-suc m n) ∙ flip-compare_ℕ m n ∙ sym (compare_ℕ.suc-suc n m)

pub flip-compare_text : (s t : String) → flip (compare_text s t) ≡ compare_text t s
flip-compare_text [] [] = ap flip compare_text.nil-nil ∙ sym compare_text.nil-nil
flip-compare_text [] (d ∷ t) = ap flip (compare_text.nil-cons d t) ∙ sym (compare_text.cons-nil d t)
flip-compare_text (c ∷ s) [] = ap flip (compare_text.cons-nil c s) ∙ sym (compare_text.nil-cons c s)
flip-compare_text (c ∷ s) (d ∷ t) =
    ap flip (compare_text.cons-cons c d s t)
    ∙ flip-then (compare_ℕ (code c) (code d)) (compare_text s t)
    ∙ ap₂ then (flip-compare_ℕ (code c) (code d)) (flip-compare_text s t)
    ∙ sym (compare_text.cons-cons d c t s)

-- Equality of strings is decided, and its answer keeps the equation.
pub str_cases : (s t : String) → (s ≡ t) ⊎ (str_eq s t ≡ false)
str_cases s t = go (str_eq s t) refl
  where
    go : (b : Bool) → str_eq s t ≡ b → (s ≡ t) ⊎ (str_eq s t ≡ false)
    go true e = inl ((eq_iff s t).0 e)
    go false e = inr e

pub str_eq_comm : (s t : String) → str_eq s t ≡ str_eq t s
str_eq_comm s t = ground (arith, eq_iff s t, eq_iff t s)

pub str_eq→eq : (s t : String) → str_eq s t ≡ true → s ≡ t
str_eq→eq s t = (eq_iff s t).0

pub str_ne : (a b : String) → str_eq a b ≡ false → a ≢ b
str_ne a b h = λ e. cc (h, ap (λ t. str_eq t b) e, eq_refl b)
