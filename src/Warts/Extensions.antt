-- ===== src/Warts/Extensions.antt =====
-- `readICMPExtension` and `readICMPExtensionList` of warts/traceroute.go.
use reverse_traceroute_publi.Base.{
  ℕ, zero, suc, ◌+◌, ◌%◌, ◌^◌, List, [], ◌∷◌, length, ltb, if◌then◌else◌,
}
use reverse_traceroute_publi.Warts.Reader.{
  out_of_fuel, Reader, pure, raise, ◌>>=◌, read_uint8, read_uint16, read_bytes,
}

-- `ICMPExtension`.
pub record IcmpExtension : Type 0 where
  pub ext_length : ℕ
  pub class_number : ℕ
  pub type_number : ℕ
  pub ext_data : List ℕ

-- `ICMPExtensionList`.
pub record IcmpExtensionList : Type 0 where
  pub list_length : ℕ
  pub extensions : List IcmpExtension

abbrev pub no_extensions : IcmpExtensionList
no_extensions = record { list_length = 0; extensions = [] }

-- `readICMPExtension`.
unfoldable pub read_icmp_extension : Reader IcmpExtension
unfolding ◌>>=◌
read_icmp_extension = do
  len ← read_uint16
  class ← read_uint8
  typen ← read_uint8
  bytes ← read_bytes len
  pure (record { ext_length = len; class_number = class; type_number = typen; ext_data = bytes })

-- The loop of `readICMPExtensionList`. The counter `i` is a `uint16` and may wrap around, so the loop
-- ends for the buffer that it uses up, on fuel.
unfoldable pub extensions_from : ℕ → ℕ → ℕ → Reader (List IcmpExtension)
unfolding ◌>>=◌
extensions_from zero i len = raise out_of_fuel
extensions_from (suc fuel) i len =
    if ltb i len
    then (read_icmp_extension >>= λ ext.
        extensions_from fuel ((i + (ext.ext_length + 4) % 2 ^ 16) % 2 ^ 16) len >>= λ rest.
        pure (ext ∷ rest))
    else pure []

-- The fuel is one more than the bytes that are left.
unfoldable pub all_extensions : ℕ → Reader (List IcmpExtension)
unfolding extensions_from
all_extensions len s = extensions_from (suc (length s.buffer)) 0 len s

-- `readICMPExtensionList`.
unfoldable pub read_icmp_extension_list : Reader IcmpExtensionList
unfolding ◌>>=◌ all_extensions
read_icmp_extension_list = do
  len ← read_uint16
  exts ← all_extensions len
  pure (record { list_length = len; extensions = exts })
