-- ===== src/Warts/Reader.antt =====
-- warts/utils.go: readers of a `bytes.Buffer`, with the address references of warts/address.go
-- beside it, which the readers of one record share.
pub mod Bounds
pub mod Encode
use reverse_traceroute_publi.Base.{
  ℕ, zero, suc, ◌+◌, ◌-◌, ◌*◌, ◌/◌, ◌%◌, ◌^◌, Bool, List, [], ◌∷◌, bit_or, bit_and, not, length,
  get_or, take, drop, ltb, ◌==◌, if◌then◌else◌, NatDict, ℤ, pos, negsuc,
}
use reverse_traceroute_publi.Addresses.{four_bytes}

-- `Address`.
pub record Address : Type 0 where
  pub type : ℕ
  pub address : ℕ

-- `AddressRefs`, without its mutex.
pub record AddressRefs : Type 0 where
  pub id : ℕ
  pub addrs : NatDict Address

-- `NewAddressRefs`.
abbrev pub new_address_refs : AddressRefs
new_address_refs = record { id = 0; addrs = [] }

-- What is left of the buffer, and the references.
pub record Stream : Type 0 where
  pub buffer : List ℕ
  pub refs : AddressRefs

-- `io.EOF`, any other error, and a loop that has used up its fuel.
pub data Fault : Type 0 where
  end_of_file bad_input out_of_fuel : Fault

-- The stream is there after an error too.
pub data Result {ℓ} (A : Type ℓ) : Type ℓ where
  ok : A → Stream → Result A
  err : Fault → Stream → Result A

abbrev pub Reader {ℓ} : Type ℓ → Type ℓ
Reader A = Stream → Result A

module _ {ℓ} {A : Type ℓ} where
  abbrev pub pure : A → Reader A
  pure a s = ok a s

  abbrev pub raise : Fault → Reader A
  raise f s = err f s

  -- Another error in place of the one that is passed on.
  unfoldable pub wrap : Reader A → Reader A
  wrap r s = elim (r s) [
    | ok a s' ↦ ok a s'
    | err out_of_fuel s' ↦ err out_of_fuel s'
    | err _ s' ↦ err bad_input s'
  ]

infixl 5 ◌>>=◌
unfoldable pub ◌>>=◌ {ℓ κ} : {A : Type ℓ} {B : Type κ} → Reader A → (A → Reader B) → Reader B
◌>>=◌ r f s = elim (r s) [ ok a s' ↦ f a s' | err e s' ↦ err e s' ]

-- What follows a value, and what follows an error, which is dropped.
unfoldable pub or_else {ℓ κ} :
    {A : Type ℓ} {B : Type κ} → Reader A → (A → Reader B) → Reader B → Reader B
or_else r f other s = elim (r s) [ ok a s' ↦ f a s' | err _ s' ↦ other s' ]

-- `f.Read(in)` with `n` bytes of room: an empty buffer is the end of file, unless there is no room.
unfoldable pub read : ℕ → Reader (List ℕ)
read n s = elim s.buffer [
  | [] ↦ elim n [ zero ↦ ok [] s | suc _ ↦ err end_of_file s ]
  | b ∷ bs ↦ ok (take n (b ∷ bs)) (record s { buffer = drop n (b ∷ bs) })
]

-- A read and the test of the number of bytes that it gave.
unfoldable pub read_full : ℕ → Reader (List ℕ)
unfolding ◌>>=◌ read
read_full n = do bytes ← read n; if length bytes == n then pure bytes else raise bad_input

-- `isset`.
abbrev pub isset : ℕ → ℕ → Bool
isset val position = not (bit_and val (2 ^ (position - 1) % 256) == 0)

-- `getUint32`, of four bytes; the shifts and the `|` are those of `IPtoInt32`.
unfoldable pub get_uint32 : List ℕ → ℕ
unfolding four_bytes
get_uint32 bytes =
    four_bytes (get_or bytes 0 0) (get_or bytes 1 0) (get_or bytes 2 0) (get_or bytes 3 0)

-- `getUint16`, of two bytes.
unfoldable pub get_uint16 : List ℕ → ℕ
get_uint16 bytes = bit_or (bit_or 0 (get_or bytes 0 0 * 2 ^ 8 % 2 ^ 16)) (get_or bytes 1 0)

-- `getUint8`, of one byte.
abbrev pub get_uint8 : List ℕ → ℕ
get_uint8 bytes = get_or bytes 0 0

-- `readBytes`.
unfoldable pub read_bytes : ℕ → Reader (List ℕ)
unfolding read_full
read_bytes n = read_full n

-- `readOne`.
unfoldable pub read_one : Reader ℕ
unfolding ◌>>=◌ read_full
read_one = do bytes ← read_full 1; pure (get_uint8 bytes)

-- `readUint8`, `readUint16` and `readUint32` wrap the error of the read, so that it is no `io.EOF`.
unfoldable pub read_uint8 : Reader ℕ
unfolding ◌>>=◌ read_full wrap
read_uint8 = do bytes ← wrap (read_full 1); pure (get_uint8 bytes)

unfoldable pub read_uint16 : Reader ℕ
unfolding ◌>>=◌ read_full wrap get_uint16
read_uint16 = do bytes ← wrap (read_full 2); pure (get_uint16 bytes)

unfoldable pub read_uint32 : Reader ℕ
unfolding ◌>>=◌ read_full wrap get_uint32
read_uint32 = do bytes ← wrap (read_full 4); pure (get_uint32 bytes)

-- `syscall.Timeval`.
pub record Timeval : Type 0 where
  pub sec : ℕ
  pub usec : ℤ

-- `int32(val)`.
abbrev pub to_int32 : ℕ → ℤ
to_int32 val = if ltb val (2 ^ 31) then pos val else negsuc (2 ^ 32 - 1 - val)

-- `readTimeVal`, with `setSecond` and `setUSecond`.
unfoldable pub read_time_val : Reader Timeval
unfolding ◌>>=◌
read_time_val = do
  sec ← read_uint32
  usec ← read_uint32
  pure (record { sec = sec; usec = to_int32 usec })

-- `convertTimeval`.
unfoldable pub convert_timeval : ℕ → Timeval
convert_timeval val = record { sec = val / 1000000; usec = to_int32 (val % 1000000) }

-- `getString`: the bytes up to a zero byte.
unfoldable pub string_end : List ℕ → AddressRefs → Result (List ℕ)
string_end [] refs = err end_of_file (record { buffer = []; refs = refs })
string_end (b ∷ bs) refs =
    let rest = string_end bs refs in
    if b == 0
    then ok [] (record { buffer = bs; refs = refs })
    else elim rest [ ok text s ↦ ok (b ∷ text) s | err f s ↦ err f s ]

unfoldable pub get_string : Reader (List ℕ)
unfolding string_end
get_string s = string_end s.buffer s.refs

-- The bytes of `sliceToUint64` behind the first ones, of which `acc` is the value.
unfoldable pub slice_bytes : List ℕ → ℕ → ℕ
slice_bytes [] acc = acc
slice_bytes (b ∷ bs) acc = slice_bytes bs (bit_or acc (b * 2 ^ (8 * length bs) % 2 ^ 64))

-- `sliceToUint64`.
unfoldable pub slice_to_uint64 : List ℕ → ℕ
unfolding slice_bytes
slice_to_uint64 bytes = if ltb 8 (length bytes) then 0 else slice_bytes bytes 0
