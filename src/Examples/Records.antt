-- ===== src/Examples/Records.antt =====
-- The theorems on warts files at concrete inputs.
use reverse_traceroute_publi.Base.{ℕ, List, [], ◌∷◌, ◌≡◌, arith}
use reverse_traceroute_publi.Warts.Reader.{new_address_refs, ok}
use reverse_traceroute_publi.Warts.Reader.Encode.{stream}
use reverse_traceroute_publi.Warts.Address.{read_address}
use reverse_traceroute_publi.Warts.Address.References.{
  Item, full, reference, items_bytes, resolve, add_all, new_address_refs-Represents,
  read_addresses-resolve,
}
use reverse_traceroute_publi.Warts.Flags.{repeat_reader}
use reverse_traceroute_publi.Warts.Lists.{ListRecord}
use reverse_traceroute_publi.Warts.Lists.RoundTrip.{IsListRecord}
use reverse_traceroute_publi.Warts.Parse.{a_list, wanted, parsed, parse}
use reverse_traceroute_publi.Warts.Parse.RoundTrip.{file_bytes, parse-file_bytes}
use reverse_traceroute_publi.Warts.Parse.Ends.{Ends, parse-Ends}

-- A list record named "ab" with the monitor "m".
abbrev a_record : ListRecord
a_record = record {
  list_id = 1;
  clist_id = 70000;
  list_name = 97 ∷ 98 ∷ [];
  plength = 4;
  description = [];
  monitor_name = 109 ∷ [];
}

a_record-IsListRecord : IsListRecord a_record
a_record-IsListRecord = (
  omega arith,
  omega arith,
  omega arith,
  (λ e. omega arith, (λ e. omega arith, tt)),
  tt,
  (λ e. omega arith, tt),
)

abbrev two_records : List (ℕ × ListRecord)
two_records = (17, a_record) ∷ (17, a_record) ∷ []

parse-file_bytes_example :
    parse (file_bytes two_records) (0x01 ∷ []) ≡ parsed (a_list a_record ∷ a_list a_record ∷ [])
unfolding wanted
parse-file_bytes_example =
    parse-file_bytes two_records (0x01 ∷ []) (a_record-IsListRecord, (a_record-IsListRecord, tt))

-- A traceroute that ends behind its header.
abbrev cut_traceroute : List ℕ
cut_traceroute = 0x12 ∷ 0x05 ∷ 0 ∷ 6 ∷ 0 ∷ 0 ∷ 0 ∷ 9 ∷ 1 ∷ []

parse-Ends_example : Ends (parse cut_traceroute (0x06 ∷ []))
parse-Ends_example = parse-Ends cut_traceroute (0x06 ∷ [])

-- 1.2.3.4 in full, twice as a reference, with 5.6.7.8 in between.
abbrev four_items : List Item
four_items = full 1 1 (2 ∷ 3 ∷ 4 ∷ []) ∷ reference 0 ∷ full 1 5 (6 ∷ 7 ∷ 8 ∷ []) ∷ reference 0 ∷ []

read_addresses-resolve_example :
    repeat_reader 4 read_address (stream (items_bytes four_items []) new_address_refs)
    ≡ ok (resolve [] four_items) (stream [] (add_all new_address_refs four_items))
read_addresses-resolve_example =
    read_addresses-resolve four_items [] [] new_address_refs new_address_refs-Represents
      (omega arith, (omega arith, tt)) (omega arith)
