-- ===== src/Addresses/RoundTrip.antt =====
-- Addresses of util/util.go to text and back.
use reverse_traceroute_publi.Base.{
  ℕ, ◌+◌, ◌*◌, ◌/◌, ◌%◌, ◌^◌, ◌<◌, ◌≡◌, refl, ap, bit_and, bit_or, bit_or_fields, bit_and_byte,
  false, [], ◌∷◌, String, some, ltb, arith,
}
use reverse_traceroute_publi.Addresses.{
  IpNet, int32_to_ip_string, four_bytes, bytes_to_int32, ip_string_to_int32, ip_to_int32,
  int32_to_ip,
}

pub four_bytes-sum :
    (a b c d : ℕ)
    → a < 256
    → b < 256
    → c < 256
    → d < 256
    → four_bytes a b c d ≡ a * 2 ^ 24 + b * 2 ^ 16 + c * 2 ^ 8 + d
unfolding four_bytes
four_bytes-sum a b c d ha hb hc hd =
    let none_yet : bit_or 0 (a * 2 ^ 24 % 2 ^ 32) ≡ a * 2 ^ 24 =
      omega (arith, bit_or_fields 32 0 (a * 2 ^ 24 % 2 ^ 32) (omega arith)) in
    let second : b * 2 ^ 16 % 2 ^ 32 ≡ b * 2 ^ 16 = omega arith in
    let third : c * 2 ^ 8 % 2 ^ 32 ≡ c * 2 ^ 8 = omega arith in
    let two : a * 2 ^ 24 + b * 2 ^ 16 ≡ (a * 256 + b) * 2 ^ 16 = omega arith in
    let three : (a * 256 + b) * 2 ^ 16 + c * 2 ^ 8 ≡ ((a * 256 + b) * 256 + c) * 2 ^ 8 =
      omega arith in
    rw
      (
        none_yet,
        second,
        third,
        bit_or_fields 24 a (b * 2 ^ 16) (omega arith),
        two,
        bit_or_fields 16 (a * 256 + b) (c * 2 ^ 8) (omega arith),
        three,
        bit_or_fields 8 ((a * 256 + b) * 256 + c) d (omega arith),
      )
      (omega arith)

-- `&` with a mask and the shift cut out one byte.
byte_0 : (ip : ℕ) → bit_and ip 0x000000ff % 256 ≡ ip % 256
byte_0 ip =
    let e : (ip / 256 * 256 + ip % 256) * 2 ^ 0 + 0 ≡ ip = omega arith in
    omega (
      arith,
      ap (λ t. bit_and t 255) e,
      bit_and_byte 0 (ip / 256) (ip % 256) 0 (omega arith) (omega arith),
    )

byte_1 : (ip : ℕ) → bit_and ip 0x0000ff00 / 2 ^ 8 % 256 ≡ ip / 2 ^ 8 % 256
byte_1 ip =
    let e : (ip / 65536 * 256 + ip / 256 % 256) * 2 ^ 8 + ip % 256 ≡ ip = omega arith in
    omega (
      arith,
      ap (λ t. bit_and t 65280) e,
      bit_and_byte 8 (ip / 65536) (ip / 256 % 256) (ip % 256) (omega arith) (omega arith),
    )

byte_2 : (ip : ℕ) → bit_and ip 0x00ff0000 / 2 ^ 16 % 256 ≡ ip / 2 ^ 16 % 256
byte_2 ip =
    let e : (ip / 16777216 * 256 + ip / 65536 % 256) * 2 ^ 16 + ip % 65536 ≡ ip = omega arith in
    omega (
      arith,
      ap (λ t. bit_and t 16711680) e,
      bit_and_byte 16 (ip / 16777216) (ip / 65536 % 256) (ip % 65536) (omega arith) (omega arith),
    )

byte_3 : (ip : ℕ) → bit_and ip 0xff000000 / 2 ^ 24 % 256 ≡ ip / 2 ^ 24 % 256
byte_3 ip =
    let e : (ip / 4294967296 * 256 + ip / 16777216 % 256) * 2 ^ 24 + ip % 16777216 ≡ ip =
      omega arith in
    omega (
      arith,
      ap (λ t. bit_and t 4278190080) e,
      bit_and_byte 24 (ip / 4294967296) (ip / 16777216 % 256) (ip % 16777216) (omega arith)
          (omega arith),
    )

-- `ParseIP` reads what `String` writes of an `IPv4` address, and `To4` answers its four bytes.
abbrev pub ReadsBack : IpNet → Type 0
ReadsBack net =
    (a b c d : ℕ)
    → a < 256
    → b < 256
    → c < 256
    → d < 256
    → (net.parse_ip (net.to_string (net.ipv4 a b c d)) ≡ some (net.ipv4 a b c d))
      × (net.to4 (net.ipv4 a b c d) ≡ some (a ∷ b ∷ c ∷ d ∷ []))

-- `Int32ToIPString` succeeds on every `uint32`, and `IPStringToInt32` reads the text back.
pub ip_string_to_int32-int32_to_ip_string :
    (net : IpNet) (ip : ℕ)
    → ReadsBack net
    → ip < 2 ^ 32
    → (s : String) × (int32_to_ip_string net ip ≡ some s) × (ip_string_to_int32 net s ≡ some ip)
unfolding int32_to_ip_string ip_string_to_int32 bytes_to_int32
ip_string_to_int32-int32_to_ip_string net ip reads h =
    let a = ip / 2 ^ 24 % 256 in
    let b = ip / 2 ^ 16 % 256 in
    let c = ip / 2 ^ 8 % 256 in
    let d = ip % 256 in
    let in_range : ltb 4294967295 ip ≡ false = ground arith in
    let (parsed, four) = reads a b c d (omega arith) (omega arith) (omega arith) (omega arith) in
    let sum = four_bytes-sum a b c d (omega arith) (omega arith) (omega arith) (omega arith) in
    (
      net.to_string (net.ipv4 a b c d),
      rw (in_range, byte_0 ip, byte_1 ip, byte_2 ip, byte_3 ip) refl,
      rw (parsed, four) (ap some (omega arith)),
    )

int32_to_ip-ipv4 :
    (net : IpNet) (ip a b c d : ℕ)
    → ip % 256 ≡ d
    → ip / 2 ^ 8 % 256 ≡ c
    → ip / 2 ^ 16 % 256 ≡ b
    → ip / 2 ^ 24 % 256 ≡ a
    → int32_to_ip net ip ≡ net.ipv4 d c b a
unfolding int32_to_ip
int32_to_ip-ipv4 net ip a b c d e0 e1 e2 e3 = cc

-- `IPtoInt32` does not read back what `Int32ToIP` makes: the four bytes come in the opposite order.
pub ip_to_int32-int32_to_ip :
    (net : IpNet) (a b c d : ℕ)
    → ReadsBack net
    → a < 256
    → b < 256
    → c < 256
    → d < 256
    → ip_to_int32 net (int32_to_ip net (a * 2 ^ 24 + b * 2 ^ 16 + c * 2 ^ 8 + d))
      ≡ some (d * 2 ^ 24 + c * 2 ^ 16 + b * 2 ^ 8 + a)
unfolding ip_to_int32 bytes_to_int32
ip_to_int32-int32_to_ip net a b c d reads ha hb hc hd =
    let ip = a * 2 ^ 24 + b * 2 ^ 16 + c * 2 ^ 8 + d in
    rw
      (
        int32_to_ip-ipv4 net ip a b c d (omega arith) (omega arith) (omega arith) (omega arith),
        (reads d c b a hd hc hb ha).1,
      )
      (ap some (four_bytes-sum d c b a hd hc hb ha))
