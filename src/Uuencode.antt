-- ===== src/Uuencode.antt =====
-- uuencode/uuencode.go and uuencode/uudecode.go. A byte is a number below 256, and byte arithmetic
-- is modulo 256.
pub mod Groups
pub mod Lines
use reverse_traceroute_publi.Base.{
  ℕ, zero, suc, ◌+◌, ◌-◌, ◌*◌, ◌/◌, ◌%◌, Bool, true, false, ◌&&◌, ◌||◌, List, [], ◌∷◌, ◌++◌, Option,
  none, some, bit_and, bit_or, length, get_or, take, drop, replicate, ltb, ◌==◌, if◌then◌else◌,
}

-- `enc`.
unfoldable pub enc : ℕ → ℕ
enc b = if b == 0 then 0x60 else (b + 0x20) % 256

unfoldable pub uuencode_bytes : ℕ → ℕ → ℕ → List ℕ
unfolding enc
uuencode_bytes b c d =
    enc (b / 4)
    ∷ enc (bit_or (bit_and b 0x03 * 16 % 256) (c / 16))
    ∷ enc (bit_or (bit_and c 0x0f * 4 % 256) (d / 64))
    ∷ enc (bit_and d 0x3f)
    ∷ []

-- The loop of `uuencodeLine`, for `n` groups. `local[offs : offs+3]` may reach behind the slice's
-- end, into the capacity that `append` gave it, which is zero.
unfoldable pub encode_groups : ℕ → List ℕ → List ℕ
encode_groups zero local = []
encode_groups (suc n) local =
    uuencode_bytes (get_or local 0 0) (get_or local 1 0) (get_or local 2 0)
    ++ encode_groups n (drop 3 local)

-- The length that is used: the next multiple of three.
abbrev pub use_length : ℕ → ℕ
use_length n = if ltb 0 (n % 3) then n + (3 - n % 3) else n

unfoldable pub uuencode_line : List ℕ → List ℕ
unfolding encode_groups
uuencode_line e =
    enc (length e % 256)
    ∷ encode_groups (use_length (length e) / 3) (e ++ replicate (length e % 3) 0)

-- `UUEncode`: each `Read` takes up to 45 bytes, and an empty buffer is the end of file. The fuel
-- bounds the number of lines.
unfoldable pub encode_lines : ℕ → List ℕ → List ℕ
encode_lines zero p = []
encode_lines (suc fuel) [] = 0x60 ∷ 0x0a ∷ []
encode_lines (suc fuel) (b ∷ p) =
    uuencode_line (take 45 (b ∷ p)) ++ (0x0a ∷ encode_lines fuel (drop 45 (b ∷ p)))

unfoldable pub uu_encode : List ℕ → List ℕ
unfolding encode_lines
uu_encode p = encode_lines (suc (length p)) p

-- What decoding comes to: bytes, `errorUUDecDone`, `ErrorInvalidByte`, or a panic.
pub data Decoded : Type 0 where
  decoded : List ℕ → Decoded
  decoding_done invalid_byte panicked : Decoded

unfoldable pub is_invalid : ℕ → Bool
is_invalid b = ltb 0x60 b || ltb b 0x20

-- `(b - 32) & 0x3F`.
unfoldable pub six_bits : ℕ → ℕ
six_bits b = bit_and (b - 0x20) 0x3f

unfoldable pub uudecode_bytes : ℕ → ℕ → ℕ → ℕ → Decoded
unfolding six_bits is_invalid
uudecode_bytes b c d e =
    if is_invalid b || is_invalid c || is_invalid d || is_invalid e
    then invalid_byte
    else decoded (
        bit_or (bit_and (six_bits b * 4 % 256) 0xfc) (bit_and (six_bits c / 16) 0x03)
        ∷ bit_or (bit_and (six_bits c * 16 % 256) 0xf0) (bit_and (six_bits d / 4) 0x0f)
        ∷ bit_or (bit_and (six_bits d * 64 % 256) 0xc0) (six_bits e)
        ∷ [])

abbrev pub then_decoded : Decoded → Decoded → Decoded
then_decoded (decoded s) (decoded rest) = decoded (s ++ rest)
then_decoded (decoded s) failed = failed
then_decoded failed rest = failed

-- The loop of `uudecodeLine`. A slice of fewer than four bytes panics: what may lie behind the bytes of
-- the last line, in the capacity of their array, is taken for none.
unfoldable pub decode_groups : List ℕ → Decoded
decode_groups [] = decoded []
decode_groups (b ∷ c ∷ d ∷ e ∷ rest) = then_decoded (uudecode_bytes b c d e) (decode_groups rest)
decode_groups (b ∷ []) = panicked
decode_groups (b ∷ c ∷ []) = panicked
decode_groups (b ∷ c ∷ d ∷ []) = panicked

-- `result[:lenB]`, which may reach into the capacity `lenB` of the slice, that is zero.
abbrev pub cut_result : ℕ → Decoded → Decoded
cut_result len (decoded r) = decoded (take len (r ++ replicate len 0))
cut_result len failed = failed

-- `uudecodeLine`, of a line that begins with `b`.
unfoldable pub uudecode_line : ℕ → List ℕ → Decoded
unfolding decode_groups
uudecode_line b e =
    if length e == 0 && b == 0x60 then decoding_done else cut_result (b - 0x20) (decode_groups e)

-- `bytes.Split` at one byte.
abbrev pub cons_first : ℕ → List (List ℕ) → List (List ℕ)
cons_first c [] = (c ∷ []) ∷ []
cons_first c (line ∷ lines) = (c ∷ line) ∷ lines

unfoldable pub split : ℕ → List ℕ → List (List ℕ)
split sep [] = [] ∷ []
split sep (c ∷ e) = if c == sep then [] ∷ split sep e else cons_first c (split sep e)

-- The loop of `UUDecode` over the lines.
abbrev pub after_line : Decoded → (List ℕ → Decoded) → List ℕ → Decoded
after_line (decoded ue) go_on result = go_on (result ++ ue)
after_line decoding_done go_on result = go_on result
after_line invalid_byte go_on result = invalid_byte
after_line panicked go_on result = panicked

unfoldable pub decode_lines : List (List ℕ) → List ℕ → Decoded
decode_lines [] result = decoded result
decode_lines ([] ∷ lines) result = decoded result
decode_lines ((b ∷ line) ∷ lines) result =
    let next = after_line (uudecode_line b line) (decode_lines lines) result in
    if is_invalid b then decoded result else next

unfoldable pub uu_decode : List ℕ → Decoded
unfolding split decode_lines
uu_decode e = decode_lines (split 0x0a e) []
