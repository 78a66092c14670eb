-- ===== src/Uuencode/Lines.antt =====
-- Lines and whole texts of uuencode/uuencode.go and uuencode/uudecode.go: decoding takes encoding
-- back.
use reverse_traceroute_publi.Base.{
  ℕ, zero, suc, ◌+◌, ◌-◌, ◌*◌, ◌/◌, ◌%◌, ◌≤◌, ◌<◌, ◌≡◌, refl, sym, ap, ◌∙◌, false, List, [], ◌∷◌,
  ◌++◌, ◌==◌, arith, drop, take, replicate, length, append_assoc, append-nil, length-take,
  length-drop, take-append-drop,
}
use reverse_traceroute_publi.Uuencode.{
  enc, encode_groups, use_length, uuencode_line, encode_lines, uu_encode, decoded, is_invalid,
  uudecode_line, split, decode_lines, uu_decode,
}
use reverse_traceroute_publi.Uuencode.Groups.{
  AllBytes, AllPrintable, enc-suc, enc_bounds, is_invalid-enc, drop-AllBytes, decode-encode_groups,
  encode_groups-AllPrintable, take-first_groups,
}

zeros-AllBytes : (p : List ℕ) (k : ℕ) → AllBytes p → AllBytes (p ++ replicate k 0)
zeros-AllBytes [] zero a = tt
zeros-AllBytes [] (suc k) a = (omega arith, zeros-AllBytes [] k tt)
zeros-AllBytes (b ∷ p) k a = (a.0, zeros-AllBytes p k a.1)

take-AllBytes : (n : ℕ) (p : List ℕ) → AllBytes p → AllBytes (take n p)
take-AllBytes zero p a = tt
take-AllBytes (suc n) [] a = tt
take-AllBytes (suc n) (b ∷ p) a = (a.0, take-AllBytes n p a.1)

-- The groups that the encoder writes hold the line.
enough_groups : (n : ℕ) → n ≤ use_length n / 3 * 3
enough_groups n = ground arith

enc_length : (n : ℕ) → 0 < n → n ≤ 45 → enc (n % 256) ≡ n + 32
enc_length zero pos h = absurd (omega arith)
enc_length (suc n) pos h =
    let e : suc n % 256 ≡ suc n = omega arith in rw e (enc-suc n (omega arith))

-- `uudecodeLine` takes `uuencodeLine` back.
pub decode-encode_line :
    (e : List ℕ)
    → AllBytes e
    → 0 < length e
    → length e ≤ 45
    → uudecode_line
        (enc (length e % 256))
        (encode_groups (use_length (length e) / 3) (e ++ replicate (length e % 3) 0))
      ≡ decoded e
unfolding uudecode_line
decode-encode_line e a pos h =
    let n = length e in
    let groups = use_length n / 3 in
    let local = e ++ replicate (n % 3) 0 in
    let not_done : (n + 32 == 0x60) ≡ false = ground arith in
    let len : n + 32 - 32 ≡ n = omega arith in
    rw
      (
        enc_length n pos h,
        not_done,
        len,
        decode-encode_groups groups local (zeros-AllBytes e (n % 3) a),
      )
      (ground
        (arith, take-first_groups groups e (replicate (n % 3) 0) (replicate n 0) (enough_groups n)))

split-line :
    (line rest : List ℕ)
    → AllPrintable line
    → split 0x0a (line ++ (0x0a ∷ rest)) ≡ line ∷ split 0x0a rest
unfolding split
split-line [] rest a = refl
split-line (c ∷ line) rest (low, high, a) =
    let other : (c == 0x0a) ≡ false = ground arith in rw (other, split-line line rest a) refl

uuencode_line-AllPrintable :
    (e : List ℕ) → AllBytes e → length e ≤ 45 → AllPrintable (uuencode_line e)
unfolding uuencode_line
uuencode_line-AllPrintable e a h =
    let (low, high) = enc_bounds (length e % 256) (omega arith) in
    (
      low,
      high,
      encode_groups-AllPrintable (use_length (length e) / 3) (e ++ replicate (length e % 3) 0)
          (zeros-AllBytes e (length e % 3) a),
    )

decode_lines-line :
    (e : List ℕ) (lines : List (List ℕ)) (result : List ℕ)
    → AllBytes e
    → 0 < length e
    → length e ≤ 45
    → decode_lines (uuencode_line e ∷ lines) result ≡ decode_lines lines (result ++ e)
unfolding decode_lines uuencode_line
decode_lines-line e lines result a pos h =
    rw (is_invalid-enc (length e % 256) (omega arith), decode-encode_line e a pos h) refl

decode-encode_lines :
    (fuel : ℕ) (p result : List ℕ)
    → AllBytes p
    → length p < fuel
    → decode_lines (split 0x0a (encode_lines fuel p)) result ≡ decoded (result ++ p)
unfolding encode_lines
decode-encode_lines zero p result a h = absurd (omega arith)
decode-encode_lines (suc fuel) [] result a h =
    unfold split decode_lines is_invalid uudecode_line in ap decoded (sym (append-nil result))
decode-encode_lines (suc fuel) (b ∷ p) result a h =
    let e = take 45 (b ∷ p) in
    let rest = drop 45 (b ∷ p) in
    let most : length e ≤ 45 = omega (arith, length-take 45 (b ∷ p)) in
    let bytes = take-AllBytes 45 (b ∷ p) a in
    rw
      (
        split-line (uuencode_line e) (encode_lines fuel rest)
            (uuencode_line-AllPrintable e bytes most),
        decode_lines-line e (split 0x0a (encode_lines fuel rest)) result bytes (omega arith) most,
      )
      (decode-encode_lines fuel rest (result ++ e) (drop-AllBytes 45 (b ∷ p) a)
          (omega (arith, length-drop 45 (b ∷ p)))
        ∙ ap decoded
            (append_assoc result e rest ∙ ap (λ t. result ++ t) (take-append-drop 45 (b ∷ p))))

-- `UUDecode` takes `UUEncode` back, on every slice of bytes.
pub uu_decode-uu_encode : (p : List ℕ) → AllBytes p → uu_decode (uu_encode p) ≡ decoded p
unfolding uu_decode uu_encode
uu_decode-uu_encode p a = decode-encode_lines (suc (length p)) p [] a (omega arith)
