-- ===== src/Addresses.antt =====
-- The conversions of addresses in util/util.go: `Int32ToIPString`, `IPStringToInt32`, `IPtoInt32` and
-- `Int32ToIP`. A `uint32` is a number below 2^32, a `net.IP` a slice of bytes.
pub mod RoundTrip
use reverse_traceroute_publi.Base.{
  ℕ, ◌+◌, ◌*◌, ◌/◌, ◌%◌, ◌^◌, ◌<◌, ◌≡◌, bit_and, bit_or, List, [], ◌∷◌, String, Option, none, some,
  ◌>>=◌, get_elem?, ltb, if◌then◌else◌,
}

-- What the source uses of the package `net`: `ParseIP`, `To4` (nil is `none`), `IPv4` and `String`.
pub record IpNet : Type 0 where
  pub parse_ip : String → Option (List ℕ)
  pub to4 : List ℕ → Option (List ℕ)
  pub ipv4 : ℕ → ℕ → ℕ → ℕ → List ℕ
  pub to_string : List ℕ → String

-- `Int32ToIPString`, with `none` for an error.
unfoldable pub int32_to_ip_string : IpNet → ℕ → Option String
int32_to_ip_string net ip =
    let d = bit_and ip 0x000000ff % 256 in
    let c = bit_and ip 0x0000ff00 / 2 ^ 8 % 256 in
    let b = bit_and ip 0x00ff0000 / 2 ^ 16 % 256 in
    let a = bit_and ip 0xff000000 / 2 ^ 24 % 256 in
    if ltb 4294967295 ip then none else some (net.to_string (net.ipv4 a b c d))

-- `res |= uint32(ip[0]) << 24`, and so on for the four bytes. A shorter slice panics, which is
-- `none`.
unfoldable pub four_bytes : ℕ → ℕ → ℕ → ℕ → ℕ
four_bytes a b c d =
    bit_or
      (bit_or (bit_or (bit_or 0 (a * 2 ^ 24 % 2 ^ 32)) (b * 2 ^ 16 % 2 ^ 32)) (c * 2 ^ 8 % 2 ^ 32))
      d

unfoldable pub bytes_to_int32 : List ℕ → Option ℕ
unfolding four_bytes
bytes_to_int32 ip = do
  a ← get_elem? ip 0
  b ← get_elem? ip 1
  c ← get_elem? ip 2
  d ← get_elem? ip 3
  some (four_bytes a b c d)

-- `IPStringToInt32`. `none` is an error; what `To4` answers has four bytes, so there is no panic.
unfoldable pub ip_string_to_int32 : IpNet → String → Option ℕ
unfolding bytes_to_int32
ip_string_to_int32 net ips = do ip ← net.parse_ip ips; ip4 ← net.to4 ip; bytes_to_int32 ip4

-- `IPtoInt32`. `To4` answers nil for what is no IPv4 address, and an index into that panics.
unfoldable pub ip_to_int32 : IpNet → List ℕ → Option ℕ
unfolding bytes_to_int32
ip_to_int32 net ip = do ip4 ← net.to4 ip; bytes_to_int32 ip4

-- `Int32ToIP`.
unfoldable pub int32_to_ip : IpNet → ℕ → List ℕ
int32_to_ip net ip = net.ipv4 (ip % 256) (ip / 2 ^ 8 % 256) (ip / 2 ^ 16 % 256) (ip / 2 ^ 24 % 256)
