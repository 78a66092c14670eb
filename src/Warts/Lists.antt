-- ===== src/Warts/Lists.antt =====
-- warts/list.go, and `readListFlags` of warts/flags.go.
pub mod RoundTrip
use reverse_traceroute_publi.Base.{ℕ, Bool, ◌||◌, not, List, [], ◌∷◌, take, drop, if◌then◌else◌}
use reverse_traceroute_publi.Warts.Reader.{
  Reader, pure, ◌>>=◌, wrap, or_else, read_full, get_uint8, get_uint32, read_uint16, get_string,
  isset,
}

-- `List`, a list record.
pub record ListRecord : Type 0 where
  pub list_id : ℕ
  pub clist_id : ℕ
  pub list_name : List ℕ
  pub plength : ℕ
  pub description : List ℕ
  pub monitor_name : List ℕ

-- `ListFlags`.
pub record ListFlags : Type 0 where
  pub length : ℕ
  pub description : List ℕ
  pub monitor_name : List ℕ

-- `ListFlags{}`.
abbrev pub no_list_flags : ListFlags
no_list_flags = record { length = 0; description = []; monitor_name = [] }

-- The end of `readListFlags`; an error of `getString` returns what there is, with no error.
unfoldable pub read_monitor : Bool → ListFlags → Reader ListFlags
unfolding or_else
read_monitor mon_is_set lf =
    if mon_is_set
    then or_else get_string (λ mon. pure (record lf { monitor_name = mon })) (pure lf)
    else pure lf

-- The strings of `readListFlags`, the description first; an error of its `getString` returns at
-- once, with no error.
unfoldable pub list_strings : Bool → Bool → ListFlags → Reader ListFlags
unfolding or_else read_monitor
list_strings dsc_is_set mon_is_set lf =
    if dsc_is_set
    then or_else get_string (λ desc. read_monitor mon_is_set (record lf { description = desc }))
        (pure lf)
    else read_monitor mon_is_set lf

-- What `readListFlags` does with the flag.
unfoldable pub list_flags_of : ℕ → Reader ListFlags
unfolding ◌>>=◌ list_strings
list_flags_of flag = if not (isset flag 1 || isset flag 2) then pure no_list_flags else do
  l ← read_uint16
  list_strings (isset flag 1) (isset flag 2) (record no_list_flags { length = l })

-- `readListFlags`.
unfoldable pub read_list_flags : Reader ListFlags
unfolding ◌>>=◌ list_flags_of
read_list_flags = do first ← wrap (read_full 1); list_flags_of (get_uint8 first)

-- `readList`.
unfoldable pub read_list : Reader ListRecord
unfolding ◌>>=◌ read_list_flags
read_list = do
  ids ← read_full 8
  name ← get_string
  flags ← read_list_flags
  pure (record {
    list_id = get_uint32 (take 4 ids);
    clist_id = get_uint32 (drop 4 ids);
    list_name = name;
    plength = flags.length;
    description = flags.description;
    monitor_name = flags.monitor_name;
  })
