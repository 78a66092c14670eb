-- ===== src/Warts/Parse/RoundTrip.antt =====
-- A file of list records, and `Parse` of warts/warts.go, which takes it apart.
use reverse_traceroute_publi.Base.{
  ℕ, zero, suc, ◌≤◌, ◌<◌, ◌≡◌, refl, ap, ◌∙◌, Bool, true, false, List, [], ◌∷◌, ◌++◌, length,
  length-append, if◌then◌else◌, arith,
}
use reverse_traceroute_publi.Warts.Reader.{
  AddressRefs, new_address_refs, Stream, ok, pure, read, read_full, get_uint16,
}
use reverse_traceroute_publi.Warts.Reader.Encode.{uint32_bytes, stream, read_full-append, >>=-ok}
use reverse_traceroute_publi.Warts.Lists.{ListRecord, read_list}
use reverse_traceroute_publi.Warts.Lists.RoundTrip.{
  list_bytes, text_bytes, flag_bytes, is_set, IsListRecord, with_plength, read_list-bytes,
}
use reverse_traceroute_publi.Warts.Parse.{
  header_of, Object, a_list, read_header, parse_body, parse_next, get_warts_t, wanted, parsed,
  then_parsed, parse_loop, parse,
}

-- The header of a list record in front of `rest`; `len` is not looked at.
abbrev pub list_header_bytes : ℕ → List ℕ → List ℕ
list_header_bytes len rest = (0x12 ∷ 0x05 ∷ 0x00 ∷ 0x01 ∷ uint32_bytes len) ++ rest

-- A file of list records, each with the length in its header.
abbrev pub file_bytes : List (ℕ × ListRecord) → List ℕ
file_bytes [] = []
file_bytes ((len, l) ∷ ls) = list_header_bytes len (list_bytes l (file_bytes ls))

abbrev pub AllRecords : List (ℕ × ListRecord) → Type 0
AllRecords [] = Unit
AllRecords ((len, l) ∷ ls) = IsListRecord l × AllRecords ls

-- The objects that the records of a file come to.
abbrev pub list_objects : List (ℕ × ListRecord) → List Object
list_objects [] = []
list_objects ((len, l) ∷ ls) = a_list (with_plength l) ∷ list_objects ls

read_header-bytes :
    (len : ℕ) (rest : List ℕ) (refs : AddressRefs)
    → read_header (stream (list_header_bytes len rest) refs)
      ≡ ok (header_of (0x12 ∷ 0x05 ∷ 0x00 ∷ 0x01 ∷ uint32_bytes len)) (stream rest refs)
unfolding read_header get_uint16
read_header-bytes len rest refs =
    >>=-ok (read_full 8) _ (stream (list_header_bytes len rest) refs)
      (read_full-append (0x12 ∷ 0x05 ∷ 0x00 ∷ 0x01 ∷ uint32_bytes len) rest refs)

parse_next-bytes :
    (len : ℕ) (l : ListRecord) (rest : List ℕ) (refs : AddressRefs)
    → IsListRecord l
    → parse_next (stream (list_header_bytes len (list_bytes l rest)) refs)
      ≡ ok (a_list (with_plength l)) (stream rest refs)
unfolding parse_next parse_body get_uint16
parse_next-bytes len l rest refs h =
    >>=-ok read_header _ (stream (list_header_bytes len (list_bytes l rest)) refs)
      (read_header-bytes len (list_bytes l rest) refs)
    ∙ >>=-ok read_list (λ r. pure (a_list r)) (stream (list_bytes l rest) refs)
        (read_list-bytes l rest refs h)

parse_loop-ok :
    (fuel : ℕ) (objs : List ℕ) (s : Stream) {obj : Object} {s' : Stream}
    → parse_next s ≡ ok obj s'
    → parse_loop (suc fuel) objs s
      ≡ then_parsed (wanted objs (get_warts_t obj)) obj (parse_loop fuel objs s')
unfolding parse_loop
parse_loop-ok fuel objs s h = rw (parse_loop, h)

parse_loop-end :
    (fuel : ℕ) (objs : List ℕ) (refs : AddressRefs)
    → parse_loop (suc fuel) objs (stream [] refs) ≡ parsed []
unfolding parse_loop read_full read
parse_loop-end fuel objs refs = refl

-- Objects that are all kept, or all left out.
then_parsed-if :
    (keep : Bool) (obj : Object) (objs : List Object)
    → then_parsed keep obj (parsed (if keep then objs else []))
      ≡ parsed (if keep then obj ∷ objs else [])
then_parsed-if true obj objs = refl
then_parsed-if false obj objs = refl

if_none : (keep : Bool) → [] ≡ (if◌then◌else◌ {A = List Object} keep [] [])
if_none true = refl
if_none false = refl

parse_loop-bytes :
    (fuel : ℕ) (objs : List ℕ) (ls : List (ℕ × ListRecord)) (refs : AddressRefs)
    → AllRecords ls
    → length ls < fuel
    → parse_loop fuel objs (stream (file_bytes ls) refs)
      ≡ parsed (if wanted objs 0x01 then list_objects ls else [])
unfolding get_warts_t
parse_loop-bytes zero objs ls refs h lt = absurd (omega arith)
parse_loop-bytes (suc fuel) objs [] refs h lt =
    parse_loop-end fuel objs refs ∙ ap parsed (if_none (wanted objs 0x01))
parse_loop-bytes (suc fuel) objs ((len, l) ∷ ls) refs h lt =
    let rest : List ℕ = file_bytes ls in
    parse_loop-ok fuel objs (stream (list_header_bytes len (list_bytes l rest)) refs)
      (parse_next-bytes len l rest refs h.0)
    ∙ ap (then_parsed (wanted objs 0x01) (a_list (with_plength l)))
        (parse_loop-bytes fuel objs ls refs h.1 (omega arith))
    ∙ then_parsed-if (wanted objs 0x01) (a_list (with_plength l)) (list_objects ls)

length-text_bytes : (text rest : List ℕ) → length rest ≤ length (text_bytes text rest)
length-text_bytes [] rest = omega arith
length-text_bytes (b ∷ text) rest = omega (arith, length-append text (0 ∷ rest))

length-flag_bytes :
    (dsc mon : Bool) (n : ℕ) (rest : List ℕ) → length rest ≤ length (flag_bytes dsc mon n rest)
length-flag_bytes false false n rest = omega arith
length-flag_bytes true false n rest = omega arith
length-flag_bytes false true n rest = omega arith
length-flag_bytes true true n rest = omega arith

length-list_bytes : (l : ListRecord) (rest : List ℕ) → length rest ≤ length (list_bytes l rest)
length-list_bytes l rest =
    let texts : List ℕ = text_bytes l.description (text_bytes l.monitor_name rest) in
    let flags : List ℕ =
      flag_bytes (is_set l.description) (is_set l.monitor_name) l.plength texts in
    omega (
      arith,
      length-append l.list_name (0 ∷ flags),
      length-flag_bytes (is_set l.description) (is_set l.monitor_name) l.plength texts,
      length-text_bytes l.description (text_bytes l.monitor_name rest),
      length-text_bytes l.monitor_name rest,
    )

length-file_bytes : (ls : List (ℕ × ListRecord)) → length ls ≤ length (file_bytes ls)
length-file_bytes [] = omega arith
length-file_bytes ((len, l) ∷ ls) =
    omega (arith, length-file_bytes ls, length-list_bytes l (file_bytes ls))

-- `Parse` takes a file of list records apart: it returns them in their order where lists are asked
-- for, and nothing where they are not.
pub parse-file_bytes :
    (ls : List (ℕ × ListRecord)) (objs : List ℕ)
    → AllRecords ls
    → parse (file_bytes ls) objs ≡ parsed (if wanted objs 0x01 then list_objects ls else [])
unfolding parse
parse-file_bytes ls objs h =
    parse_loop-bytes (suc (length (file_bytes ls))) objs ls new_address_refs h
      (omega (arith, length-file_bytes ls))
