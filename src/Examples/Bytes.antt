-- ===== src/Examples/Bytes.antt =====
-- The theorem on uuencoding at a concrete input.
use reverse_traceroute_publi.Base.{ℕ, List, [], ◌∷◌, ◌≡◌, refl, arith}
use reverse_traceroute_publi.Uuencode.{
  enc, uuencode_bytes, uuencode_line, uu_encode, uu_decode, decoded,
}
use reverse_traceroute_publi.Uuencode.Groups.{AllBytes}
use reverse_traceroute_publi.Uuencode.Lines.{uu_decode-uu_encode}

abbrev cat_bytes : List ℕ
cat_bytes = 67 ∷ 97 ∷ 116 ∷ 0 ∷ []

cat_bytes-AllBytes : AllBytes cat_bytes
cat_bytes-AllBytes = (omega arith, (omega arith, (omega arith, (omega arith, tt))))

uu_decode-uu_encode_example : uu_decode (uu_encode cat_bytes) ≡ decoded cat_bytes
uu_decode-uu_encode_example = uu_decode-uu_encode cat_bytes cat_bytes-AllBytes

uu_encode_run : uu_encode cat_bytes ≡ 36 ∷ 48 ∷ 86 ∷ 37 ∷ 84 ∷ 96 ∷ 96 ∷ 96 ∷ 96 ∷ 10 ∷ 96 ∷ 10 ∷ []
unfolding uu_encode uuencode_line enc uuencode_bytes
uu_encode_run = refl
