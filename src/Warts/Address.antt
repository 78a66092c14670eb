-- ===== src/Warts/Address.antt =====
-- warts/address.go: addresses, and the references to the addresses read before.
pub mod References
use reverse_traceroute_publi.Base.{
  ℕ, zero, suc, ◌%◌, ◌^◌, ◌+◌, List, Option, String, [], ◌∷◌, or_zero, fetch_at, store_at, ◌==◌,
  if◌then◌else◌, pos,
}
use reverse_traceroute_publi.Addresses.{IpNet, int32_to_ip_string}
use reverse_traceroute_publi.Warts.Reader.{
  Address, AddressRefs, Stream, Result, ok, err, Reader, pure, ◌>>=◌, read_uint8, read_uint32,
  read_bytes, slice_to_uint64, Timeval, new_address_refs,
}

-- `Address{}`.
abbrev pub zero_address : Address
zero_address = record { type = 0; address = 0 }

-- `Address.String`.
unfoldable pub address_string : IpNet → Address → String
unfolding int32_to_ip_string
address_string net a =
    if a.type == 1 then or_zero "" (int32_to_ip_string net (a.address % 2 ^ 32)) else ""

-- `AddressRefs.Add`.
unfoldable pub add_address : AddressRefs → Address → AddressRefs
unfolding store_at
add_address ar addr = record { id = (ar.id + 1) % 2 ^ 32; addrs = store_at ar.addrs ar.id addr }

-- `AddressRefs.Get`.
unfoldable pub get_address : AddressRefs → ℕ → Address
unfolding fetch_at
get_address ar id = or_zero zero_address (fetch_at ar.addrs id)

-- `addrs.Get(id)`, of the references beside the buffer.
unfoldable pub lookup_address : ℕ → Reader Address
unfolding get_address
lookup_address id s = ok (get_address s.refs id) s

-- `addrs.Add(a)`.
unfoldable pub note_address : Address → Reader Address
unfolding add_address
note_address a s = ok a (record s { refs = add_address s.refs a })

-- `readReferencedAddress`.
unfoldable pub read_referenced_address : Reader Address
unfolding ◌>>=◌
read_referenced_address = do id ← read_uint32; lookup_address id

-- What `readAddress` does with the length.
unfoldable pub address_of_length : ℕ → Reader Address
unfolding ◌>>=◌ read_referenced_address
address_of_length zero = read_referenced_address
address_of_length (suc n) = do
  t ← read_uint8
  res ← read_bytes (suc n)
  note_address (record { type = t; address = slice_to_uint64 res })

-- `readAddress`.
unfoldable pub read_address : Reader Address
unfolding ◌>>=◌ address_of_length
read_address = do length ← read_uint8; address_of_length length

-- `syscall.Timeval{}`.
abbrev pub zero_time : Timeval
zero_time = record { sec = 0; usec = pos 0 }

-- A reader of one record, which begins with `NewAddressRefs()`.
unfoldable pub with_new_refs {ℓ} : {A : Type ℓ} → Reader A → Reader A
with_new_refs r s = r (record s { refs = new_address_refs })
