-- ===== src/Uuencode/Groups.antt =====
-- A group of three bytes, of uuencode/uuencode.go and uuencode/uudecode.go.
use reverse_traceroute_publi.Base.{
  ℕ, zero, suc, ◌+◌, ◌-◌, ◌*◌, ◌/◌, ◌%◌, ◌≤◌, ◌<◌, ◌≡◌, refl, ap, ap₂, ◌∙◌, false, List, [], ◌∷◌,
  ◌++◌, bit_and, bit_or, arith, low_two, low_four, low_six, high_two, high_four, high_six, or_4,
  or_16, or_64, get_or, drop, take, length,
}
use reverse_traceroute_publi.Uuencode.{
  enc, uuencode_bytes, encode_groups, decoded, is_invalid, six_bits, uudecode_bytes, decode_groups,
}

pub enc-suc : (x : ℕ) → suc x < 64 → enc (suc x) ≡ suc x + 32
unfolding enc
enc-suc x h = ground arith

six_bits-enc : (x : ℕ) → x < 64 → six_bits (enc x) ≡ x
unfolding six_bits
six_bits-enc zero h = unfold enc in refl
six_bits-enc (suc x) h =
    let e : suc x + 32 - 32 ≡ suc x = omega arith in
    rw (enc-suc x h, e) (low_six (suc x) (omega arith) ∙ omega arith)

-- An encoded byte is a printable character, neither a blank nor a newline.
pub enc_bounds : (x : ℕ) → x < 64 → (32 < enc x) × (enc x < 97)
enc_bounds zero h = unfold enc in (omega arith, omega arith)
enc_bounds (suc x) h = (omega (arith, enc-suc x h), omega (arith, enc-suc x h))

pub is_invalid-enc : (x : ℕ) → x < 64 → is_invalid (enc x) ≡ false
unfolding is_invalid
is_invalid-enc x h = ground (arith, enc_bounds x h)

second :
    (b c : ℕ)
    → b < 256
    → c < 256
    → bit_or (bit_and b 0x03 * 16 % 256) (c / 16) ≡ b % 4 * 16 + c / 16
second b c h k =
    let e : bit_and b 3 * 16 % 256 ≡ b % 4 * 16 = omega (arith, low_two b h) in
    rw e (or_16 (b % 4) (c / 16) (omega arith) (omega arith))

third :
    (c d : ℕ) → c < 256 → d < 256 → bit_or (bit_and c 0x0f * 4 % 256) (d / 64) ≡ c % 16 * 4 + d / 64
third c d h k =
    let e : bit_and c 15 * 4 % 256 ≡ c % 16 * 4 = omega (arith, low_four c h) in
    rw e (or_4 (c % 16) (d / 64) (omega arith) (omega arith))

-- The three bytes from their four fields.
first_back :
    (x y : ℕ)
    → x < 64
    → y < 64
    → bit_or (bit_and (x * 4 % 256) 0xfc) (bit_and (y / 16) 0x03) ≡ x * 4 + y / 16
first_back x y h k =
    let e : bit_and (x * 4 % 256) 252 ≡ x * 4 =
      omega (arith, high_six (x * 4 % 256) (omega arith)) in
    let f : bit_and (y / 16) 3 ≡ y / 16 = omega (arith, low_two (y / 16) (omega arith)) in
    rw (e, f) (or_4 x (y / 16) (omega arith) (omega arith))

second_back :
    (y z : ℕ)
    → y < 64
    → z < 64
    → bit_or (bit_and (y * 16 % 256) 0xf0) (bit_and (z / 4) 0x0f) ≡ y % 16 * 16 + z / 4
second_back y z h k =
    let e : bit_and (y * 16 % 256) 240 ≡ y % 16 * 16 =
      omega (arith, high_four (y * 16 % 256) (omega arith)) in
    let f : bit_and (z / 4) 15 ≡ z / 4 = omega (arith, low_four (z / 4) (omega arith)) in
    rw (e, f) (or_16 (y % 16) (z / 4) (omega arith) (omega arith))

third_back : (z w : ℕ) → z < 64 → w < 64 → bit_or (bit_and (z * 64 % 256) 0xc0) w ≡ z % 4 * 64 + w
third_back z w h k =
    let e : bit_and (z * 64 % 256) 192 ≡ z % 4 * 64 =
      omega (arith, high_two (z * 64 % 256) (omega arith)) in
    rw e (or_64 (z % 4) w (omega arith) (omega arith))

decode_fields :
    (x y z w : ℕ)
    → x < 64
    → y < 64
    → z < 64
    → w < 64
    → uudecode_bytes (enc x) (enc y) (enc z) (enc w)
      ≡ decoded ((x * 4 + y / 16) ∷ (y % 16 * 16 + z / 4) ∷ (z % 4 * 64 + w) ∷ [])
unfolding uudecode_bytes
decode_fields x y z w hx hy hz hw =
    rw
      (
        is_invalid-enc x hx,
        is_invalid-enc y hy,
        is_invalid-enc z hz,
        is_invalid-enc w hw,
        six_bits-enc x hx,
        six_bits-enc y hy,
        six_bits-enc z hz,
        six_bits-enc w hw,
        first_back x y hx hy,
        second_back y z hy hz,
        third_back z w hz hw,
      )
      refl

-- The four fields of three bytes.
encode_fields :
    (b c d : ℕ)
    → b < 256
    → c < 256
    → d < 256
    → uuencode_bytes b c d
      ≡ enc (b / 4) ∷ enc (b % 4 * 16 + c / 16) ∷ enc (c % 16 * 4 + d / 64) ∷ enc (d % 64) ∷ []
unfolding uuencode_bytes
encode_fields b c d hb hc hd = rw (second b c hb hc, third c d hc hd, low_six d hd) refl

abbrev pub AllBytes : List ℕ → Type 0
AllBytes [] = Unit {0}
AllBytes (b ∷ p) = (b < 256) × AllBytes p

-- The characters of encoded lines.
abbrev pub AllPrintable : List ℕ → Type 0
AllPrintable [] = Unit {0}
AllPrintable (c ∷ e) = (32 < c) × (c < 97) × AllPrintable e

get_or-AllBytes : (p : List ℕ) (i : ℕ) → AllBytes p → get_or p i 0 < 256
get_or-AllBytes [] i a = omega arith
get_or-AllBytes (b ∷ p) zero a = a.0
get_or-AllBytes (b ∷ p) (suc i) a = get_or-AllBytes p i a.1

pub drop-AllBytes : (n : ℕ) (p : List ℕ) → AllBytes p → AllBytes (drop n p)
drop-AllBytes zero p a = a
drop-AllBytes (suc n) [] a = tt
drop-AllBytes (suc n) (b ∷ p) a = drop-AllBytes n p a.1

-- The first `n` groups of a slice that is followed by zeros.
abbrev pub first_groups : ℕ → List ℕ → List ℕ
first_groups zero p = []
first_groups (suc n) p = get_or p 0 0 ∷ get_or p 1 0 ∷ get_or p 2 0 ∷ first_groups n (drop 3 p)

decode_triple :
    (b c d : ℕ)
    → b < 256
    → c < 256
    → d < 256
    → uudecode_bytes
        (enc (b / 4))
        (enc (b % 4 * 16 + c / 16))
        (enc (c % 16 * 4 + d / 64))
        (enc (d % 64))
      ≡ decoded (b ∷ c ∷ d ∷ [])
decode_triple b c d hb hc hd =
    let x = b / 4 in
    let y = b % 4 * 16 + c / 16 in
    let z = c % 16 * 4 + d / 64 in
    let w = d % 64 in
    let e : x * 4 + y / 16 ≡ b = omega arith in
    let f : y % 16 * 16 + z / 4 ≡ c = omega arith in
    let g : z % 4 * 64 + w ≡ d = omega arith in
    decode_fields x y z w (omega arith) (omega arith) (omega arith) (omega arith)
    ∙ ap decoded (ap₂ ◌∷◌ e (ap₂ ◌∷◌ f (ap₂ ◌∷◌ g refl)))

pub decode-encode_groups :
    (n : ℕ) (p : List ℕ)
    → AllBytes p
    → decode_groups (encode_groups n p) ≡ decoded (first_groups n p)
unfolding encode_groups decode_groups
decode-encode_groups zero p a = refl
decode-encode_groups (suc n) p a =
    let b = get_or-AllBytes p 0 a in
    let c = get_or-AllBytes p 1 a in
    let d = get_or-AllBytes p 2 a in
    rw (encode_fields (get_or p 0 0) (get_or p 1 0) (get_or p 2 0) b c d) (
      rw
        (
          decode_triple (get_or p 0 0) (get_or p 1 0) (get_or p 2 0) b c d,
          decode-encode_groups n (drop 3 p) (drop-AllBytes 3 p a),
        )
        refl)

four_printable :
    (x y z w : ℕ) (e : List ℕ)
    → x < 64
    → y < 64
    → z < 64
    → w < 64
    → AllPrintable e
    → AllPrintable (enc x ∷ enc y ∷ enc z ∷ enc w ∷ e)
four_printable x y z w e hx hy hz hw a =
    let (x_low, x_high) = enc_bounds x hx in
    let (y_low, y_high) = enc_bounds y hy in
    let (z_low, z_high) = enc_bounds z hz in
    let (w_low, w_high) = enc_bounds w hw in
    (x_low, x_high, (y_low, y_high, (z_low, z_high, (w_low, w_high, a))))

pub encode_groups-AllPrintable :
    (n : ℕ) (p : List ℕ) → AllBytes p → AllPrintable (encode_groups n p)
unfolding encode_groups
encode_groups-AllPrintable zero p a = tt
encode_groups-AllPrintable (suc n) p a =
    let b = get_or-AllBytes p 0 a in
    let c = get_or-AllBytes p 1 a in
    let d = get_or-AllBytes p 2 a in
    rw (encode_fields (get_or p 0 0) (get_or p 1 0) (get_or p 2 0) b c d) (
      four_printable (get_or p 0 0 / 4) (get_or p 0 0 % 4 * 16 + get_or p 1 0 / 16)
        (get_or p 1 0 % 16 * 4 + get_or p 2 0 / 64) (get_or p 2 0 % 64) (encode_groups n (drop 3 p))
        (omega arith) (omega arith) (omega arith) (omega arith)
        (encode_groups-AllPrintable n (drop 3 p) (drop-AllBytes 3 p a)))

-- Enough groups hold the whole slice.
pub take-first_groups :
    (n : ℕ) (e rest more : List ℕ)
    → length e ≤ n * 3
    → take (length e) (first_groups n (e ++ rest) ++ more) ≡ e
take-first_groups n [] rest more h = refl
take-first_groups zero (a ∷ e) rest more h = absurd (omega arith)
take-first_groups (suc n) (a ∷ []) rest more h = refl
take-first_groups (suc n) (a ∷ b ∷ []) rest more h = refl
take-first_groups (suc n) (a ∷ b ∷ c ∷ e) rest more h =
    ap (λ t. a ∷ b ∷ c ∷ t) (take-first_groups n e rest more (omega arith))
