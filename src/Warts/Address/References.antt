-- ===== src/Warts/Address/References.antt =====
-- The references of warts/address.go: an address that is written once, and then by its number.
use reverse_traceroute_publi.Base.{
  ℕ, zero, suc, ◌+◌, ◌^◌, ◌<◌, ◌≡◌, refl, sym, ap, ap₂, ◌∙◌, List, [], ◌∷◌, ◌++◌, length,
  length-append, get_or, or_zero, fetch_at, fetch_at-store_at, ◌==◌, if◌then◌else◌, arith,
}
use reverse_traceroute_publi.Warts.Reader.{
  Address, AddressRefs, new_address_refs, Stream, ok, Reader, pure, wrap, read_full, read_uint8,
  get_uint8, read_uint32, read_bytes, slice_to_uint64,
}
use reverse_traceroute_publi.Warts.Reader.Encode.{
  uint32_bytes, stream, read_full-append, read_uint32-bytes, >>=-ok, wrap-ok,
}
use reverse_traceroute_publi.Warts.Address.{
  zero_address, add_address, get_address, lookup_address, note_address, read_referenced_address,
  address_of_length, read_address,
}
use reverse_traceroute_publi.Warts.Flags.{repeat_reader}

read_uint8-byte :
    (b : ℕ) (rest : List ℕ) (refs : AddressRefs)
    → read_uint8 (stream (b ∷ rest) refs) ≡ ok b (stream rest refs)
unfolding read_uint8
read_uint8-byte b rest refs =
    >>=-ok (wrap (read_full 1)) (λ bytes. pure (get_uint8 bytes)) (stream (b ∷ rest) refs)
      (wrap-ok (read_full 1) (stream (b ∷ rest) refs) (read_full-append (b ∷ []) rest refs))

-- An address in full: its length, its type and its bytes.
abbrev pub address_bytes : ℕ → List ℕ → List ℕ → List ℕ
address_bytes type bytes rest = length bytes ∷ type ∷ (bytes ++ rest)

-- An address as a reference.
abbrev pub reference_bytes : ℕ → List ℕ → List ℕ
reference_bytes id rest = 0 ∷ uint32_bytes id ++ rest

-- An address as it is written: in full, or as the number of an earlier one.
pub data Item : Type 0 where
  full : (type first_byte : ℕ) → List ℕ → Item
  reference : ℕ → Item

abbrev pub items_bytes : List Item → List ℕ → List ℕ
items_bytes [] rest = rest
items_bytes (full type b bytes ∷ items) rest =
    address_bytes type (b ∷ bytes) (items_bytes items rest)
items_bytes (reference id ∷ items) rest = reference_bytes id (items_bytes items rest)

abbrev pub full_address : ℕ → ℕ → List ℕ → Address
full_address type b bytes = record { type = type; address = slice_to_uint64 (b ∷ bytes) }

-- What the items stand for, beside the array of the addresses written in full before.
abbrev pub resolve : List Address → List Item → List Address
resolve table [] = []
resolve table (full type b bytes ∷ items) =
    let a = full_address type b bytes in a ∷ resolve (table ++ (a ∷ [])) items
resolve table (reference id ∷ items) = get_or table id zero_address ∷ resolve table items

abbrev pub add_all : AddressRefs → List Item → AddressRefs
add_all refs [] = refs
add_all refs (full type b bytes ∷ items) =
    add_all (add_address refs (full_address type b bytes)) items
add_all refs (reference id ∷ items) = add_all refs items

abbrev pub HasSmallIds : List Item → Type 0
HasSmallIds [] = Unit
HasSmallIds (full type b bytes ∷ items) = HasSmallIds items
HasSmallIds (reference id ∷ items) = (id < 2 ^ 32) × HasSmallIds items

-- The map holds what the array does, and the next number is the array's length.
abbrev pub Represents : AddressRefs → List Address → Type 0
Represents refs table =
    (refs.id ≡ length table) × ((i : ℕ) → get_address refs i ≡ get_or table i zero_address)

pub new_address_refs-Represents : Represents new_address_refs []
unfolding get_address fetch_at
new_address_refs-Represents = (refl, λ i. refl)

get_or-append_end :
    (table : List Address) (a : Address) (i : ℕ)
    → get_or (table ++ (a ∷ [])) i zero_address
      ≡ (if length table == i then a else get_or table i zero_address)
get_or-append_end [] a zero = refl
get_or-append_end [] a (suc i) = ground arith
get_or-append_end (x ∷ table) a zero = ground arith
get_or-append_end (x ∷ table) a (suc i) = ground (arith, get_or-append_end table a i)

get_address-add_address :
    (refs : AddressRefs) (a : Address) (i : ℕ)
    → get_address (add_address refs a) i ≡ (if refs.id == i then a else get_address refs i)
unfolding get_address add_address
get_address-add_address refs a i =
    ap (or_zero zero_address) (fetch_at-store_at refs.addrs refs.id i a) ∙ ground arith

add_address-Represents :
    (refs : AddressRefs) (table : List Address) (a : Address)
    → Represents refs table
    → suc (length table) < 2 ^ 32
    → Represents (add_address refs a) (table ++ (a ∷ []))
unfolding add_address get_address
add_address-Represents refs table a (next, same) lt = (
  omega (arith, next, length-append table (a ∷ [])),
  λ i.
      get_address-add_address refs a i
      ∙ ap₂ (λ n b. if n == i then a else b) next (same i)
      ∙ sym (get_or-append_end table a i),
)

read_address-full :
    (type b : ℕ) (bytes rest : List ℕ) (refs : AddressRefs)
    → read_address (stream (address_bytes type (b ∷ bytes) rest) refs)
      ≡ ok (full_address type b bytes) (stream rest (add_address refs (full_address type b bytes)))
unfolding read_address address_of_length read_bytes note_address
read_address-full type b bytes rest refs =
    let body : List ℕ = (b ∷ bytes) ++ rest in
    >>=-ok read_uint8 address_of_length (stream (address_bytes type (b ∷ bytes) rest) refs)
      (read_uint8-byte (length (b ∷ bytes)) (type ∷ body) refs)
    ∙ >>=-ok read_uint8 _ (stream (type ∷ body) refs) (read_uint8-byte type body refs)
    ∙ >>=-ok (read_bytes (length (b ∷ bytes))) _ (stream body refs)
        (read_full-append (b ∷ bytes) rest refs)

read_address-reference :
    (id : ℕ) (rest : List ℕ) (refs : AddressRefs)
    → id < 2 ^ 32
    → read_address (stream (reference_bytes id rest) refs)
      ≡ ok (get_address refs id) (stream rest refs)
unfolding read_address address_of_length read_referenced_address lookup_address
read_address-reference id rest refs h =
    >>=-ok read_uint8 address_of_length (stream (reference_bytes id rest) refs)
      (read_uint8-byte 0 (uint32_bytes id ++ rest) refs)
    ∙ >>=-ok read_uint32 lookup_address (stream (uint32_bytes id ++ rest) refs)
        (read_uint32-bytes id rest refs h)

repeat_reader-ok :
    (n : ℕ) (r : Reader Address) (s : Stream) {a : Address} {xs : List Address} {s' s'' : Stream}
    → r s ≡ ok a s'
    → repeat_reader n r s' ≡ ok xs s''
    → repeat_reader (suc n) r s ≡ ok (a ∷ xs) s''
unfolding repeat_reader
repeat_reader-ok n r s {s' = t} h k = >>=-ok r _ s h ∙ >>=-ok (repeat_reader n r) _ t k

-- What is read of a row of addresses, some in full and some as references, is what they stand for,
-- where `AddressRefs` holds the addresses read before: the map implements an array that grows by one
-- with each address in full. There are fewer than 2^32 addresses.
pub read_addresses-resolve :
    (items : List Item) (table : List Address) (rest : List ℕ) (refs : AddressRefs)
    → Represents refs table
    → HasSmallIds items
    → length table + length items < 2 ^ 32
    → repeat_reader (length items) read_address (stream (items_bytes items rest) refs)
      ≡ ok (resolve table items) (stream rest (add_all refs items))
unfolding repeat_reader
read_addresses-resolve [] table rest refs rep small lt = refl
read_addresses-resolve (full type b bytes ∷ items) table rest refs rep small lt =
    let a : Address = full_address type b bytes in
    repeat_reader-ok (length items) read_address _
      (read_address-full type b bytes (items_bytes items rest) refs)
      (read_addresses-resolve items (table ++ (a ∷ [])) rest (add_address refs a)
        (add_address-Represents refs table a rep (omega arith)) small
        (omega (arith, length-append table (a ∷ []))))
read_addresses-resolve (reference id ∷ items) table rest refs rep (h, small) lt =
    repeat_reader-ok (length items) read_address _
      (read_address-reference id (items_bytes items rest) refs h
        ∙ ap (λ a. ok a (stream (items_bytes items rest) refs)) (rep.1 id))
      (read_addresses-resolve items table rest refs rep small (omega arith))
