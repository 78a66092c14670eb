-- ===== src/Warts/Lists/RoundTrip.antt =====
-- The format of a list record, and `readList` of warts/list.go, which takes it apart.
use reverse_traceroute_publi.Base.{
  ℕ, ◌<◌, ◌^◌, ◌≡◌, refl, ap, ap₂, ◌∙◌, Bool, true, false, ◌||◌, List, [], ◌∷◌, ◌++◌, if◌then◌else◌,
}
use reverse_traceroute_publi.Warts.Reader.{
  AddressRefs, Stream, Result, ok, ◌>>=◌, wrap, read_full, read_uint16, get_string, or_else,
  get_uint8,
}
use reverse_traceroute_publi.Warts.Reader.Encode.{
  uint16_bytes, uint32_bytes, IsText, stream, get_uint32-bytes, read_full-append, >>=-ok, wrap-ok,
  read_uint16-bytes, get_string-append,
}
use reverse_traceroute_publi.Warts.Lists.{
  ListRecord, ListFlags, no_list_flags, read_monitor, list_strings, list_flags_of, read_list_flags,
  read_list,
}

-- A text that is there, with its zero byte, in front of `rest`.
abbrev pub text_bytes : List ℕ → List ℕ → List ℕ
text_bytes [] rest = rest
text_bytes (b ∷ text) rest = (b ∷ text) ++ (0 ∷ rest)

abbrev pub is_set : List ℕ → Bool
is_set [] = false
is_set (b ∷ text) = true

-- The flags, with a length behind them where one is set.
abbrev pub flag_bytes : Bool → Bool → ℕ → List ℕ → List ℕ
flag_bytes false false plength rest = 0 ∷ rest
flag_bytes true false plength rest = 1 ∷ uint16_bytes plength ++ rest
flag_bytes false true plength rest = 2 ∷ uint16_bytes plength ++ rest
flag_bytes true true plength rest = 3 ∷ uint16_bytes plength ++ rest

-- A list record in front of `rest`.
abbrev pub list_bytes : ListRecord → List ℕ → List ℕ
list_bytes l rest =
    (uint32_bytes l.list_id ++ uint32_bytes l.clist_id)
    ++ (l.list_name
        ++ (0
            ∷ flag_bytes (is_set l.description) (is_set l.monitor_name) l.plength
                (text_bytes l.description (text_bytes l.monitor_name rest))))

-- The record with no length where no flag is set.
abbrev pub with_plength : ListRecord → ListRecord
with_plength l = record l {
  plength = if is_set l.description || is_set l.monitor_name then l.plength else 0;
}

or_else-ok {ℓ κ} :
    {A : Type ℓ} {B : Type κ} (m : Stream → Result A) (f : A → Stream → Result B)
    (t : Stream → Result B) (s : Stream) {a : A} {s' : Stream}
    → m s ≡ ok a s'
    → or_else m f t s ≡ f a s'
unfolding or_else
or_else-ok m f t s h = rw (h, or_else)

read_monitor-bytes :
    (mon rest : List ℕ) (refs : AddressRefs) (lf : ListFlags)
    → IsText mon
    → lf.monitor_name ≡ []
    → read_monitor (is_set mon) lf (stream (text_bytes mon rest) refs)
      ≡ ok (record lf { monitor_name = mon }) (stream rest refs)
unfolding read_monitor
read_monitor-bytes [] rest refs lf h e = rw (← e)
read_monitor-bytes (b ∷ mon) rest refs lf h e =
    or_else-ok get_string _ _ (stream ((b ∷ mon) ++ (0 ∷ rest)) refs)
      (get_string-append (b ∷ mon) rest refs h)

list_strings-bytes :
    (desc mon rest : List ℕ) (refs : AddressRefs) (n : ℕ)
    → IsText desc
    → IsText mon
    → list_strings
        (is_set desc)
        (is_set mon)
        (record no_list_flags { length = n })
        (stream (text_bytes desc (text_bytes mon rest)) refs)
      ≡ ok (record { length = n; description = desc; monitor_name = mon }) (stream rest refs)
unfolding list_strings
list_strings-bytes [] mon rest refs n hd hm = read_monitor-bytes mon rest refs _ hm refl
list_strings-bytes (b ∷ desc) mon rest refs n hd hm =
    or_else-ok get_string _ _ (stream ((b ∷ desc) ++ (0 ∷ text_bytes mon rest)) refs)
      (get_string-append (b ∷ desc) (text_bytes mon rest) refs hd)
    ∙ read_monitor-bytes mon rest refs _ hm refl

-- The flags as they are read, with a length where one is set.
abbrev flags_of : List ℕ → List ℕ → ℕ → ListFlags
flags_of desc mon n = record {
  length = if is_set desc || is_set mon then n else 0;
  description = desc;
  monitor_name = mon;
}

set_flags-bytes :
    (flag : ℕ) (desc mon rest : List ℕ) (refs : AddressRefs) (n : ℕ)
    → IsText desc
    → IsText mon
    → n < 2 ^ 16
    → list_flags_of flag
      ≡ read_uint16
        >>= (λ l. list_strings (is_set desc) (is_set mon) (record no_list_flags { length = l }))
    → read_list_flags (stream (flag ∷ uint16_bytes n ++ text_bytes desc (text_bytes mon rest)) refs)
      ≡ ok (record { length = n; description = desc; monitor_name = mon }) (stream rest refs)
unfolding read_list_flags
set_flags-bytes flag desc mon rest refs n hd hm hn e =
    let texts : List ℕ = text_bytes desc (text_bytes mon rest) in
    let s : Stream = stream (flag ∷ uint16_bytes n ++ texts) refs in
    >>=-ok (wrap (read_full 1)) (λ first. list_flags_of (get_uint8 first)) s
      (wrap-ok (read_full 1) s (read_full-append (flag ∷ []) (uint16_bytes n ++ texts) refs))
    ∙ ap (λ r. r (stream (uint16_bytes n ++ texts) refs)) e
    ∙ >>=-ok read_uint16
        (λ l. list_strings (is_set desc) (is_set mon) (record no_list_flags { length = l }))
        (stream (uint16_bytes n ++ texts) refs) (read_uint16-bytes n texts refs hn)
    ∙ list_strings-bytes desc mon rest refs n hd hm

read_list_flags-bytes :
    (desc mon rest : List ℕ) (refs : AddressRefs) (n : ℕ)
    → IsText desc
    → IsText mon
    → n < 2 ^ 16
    → read_list_flags (
        stream
          (flag_bytes (is_set desc) (is_set mon) n (text_bytes desc (text_bytes mon rest)))
          refs)
      ≡ ok (flags_of desc mon n) (stream rest refs)
unfolding list_flags_of
read_list_flags-bytes [] [] rest refs n hd hm hn =
    unfold read_list_flags in
    >>=-ok (wrap (read_full 1)) (λ first. list_flags_of (get_uint8 first)) (stream (0 ∷ rest) refs)
      (wrap-ok (read_full 1) (stream (0 ∷ rest) refs) (read_full-append (0 ∷ []) rest refs))
read_list_flags-bytes (d ∷ desc) [] rest refs n hd hm hn =
    set_flags-bytes 1 (d ∷ desc) [] rest refs n hd hm hn refl
read_list_flags-bytes [] (m ∷ mon) rest refs n hd hm hn =
    set_flags-bytes 2 [] (m ∷ mon) rest refs n hd hm hn refl
read_list_flags-bytes (d ∷ desc) (m ∷ mon) rest refs n hd hm hn =
    set_flags-bytes 3 (d ∷ desc) (m ∷ mon) rest refs n hd hm hn refl

-- Ids of four bytes, a length of two, and texts with no zero byte.
abbrev pub IsListRecord : ListRecord → Type 0
IsListRecord l =
    (l.list_id < 2 ^ 32)
    × (l.clist_id < 2 ^ 32)
    × (l.plength < 2 ^ 16)
    × IsText l.list_name
    × IsText l.description
    × IsText l.monitor_name

-- What a list record is written to is read back, and what follows it is left.
pub read_list-bytes :
    (l : ListRecord) (rest : List ℕ) (refs : AddressRefs)
    → IsListRecord l
    → read_list (stream (list_bytes l rest) refs) ≡ ok (with_plength l) (stream rest refs)
unfolding read_list
read_list-bytes l rest refs (h1, h2, h3, h4, h5, h6) =
    let ids : List ℕ = uint32_bytes l.list_id ++ uint32_bytes l.clist_id in
    let flags : List ℕ =
      flag_bytes (is_set l.description) (is_set l.monitor_name) l.plength
        (text_bytes l.description (text_bytes l.monitor_name rest)) in
    >>=-ok (read_full 8) _ (stream (list_bytes l rest) refs)
      (read_full-append ids (l.list_name ++ (0 ∷ flags)) refs)
    ∙ >>=-ok get_string _ (stream (l.list_name ++ (0 ∷ flags)) refs)
        (get_string-append l.list_name flags refs h4)
    ∙ >>=-ok read_list_flags _ (stream flags refs)
        (read_list_flags-bytes l.description l.monitor_name rest refs l.plength h5 h6 h3)
    ∙ ap₂ (λ i c. ok (record (with_plength l) { list_id = i; clist_id = c }) (stream rest refs))
        (get_uint32-bytes l.list_id h1) (get_uint32-bytes l.clist_id h2)
