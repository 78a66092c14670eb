-- ===== src/Warts/Parse/Ends.antt =====
-- The parser of warts/ ends: with the fuel that `parse` gives, it is never used up.
use reverse_traceroute_publi.Base.{
  refl, ℕ, zero, suc, ◌+◌, ◌≤◌, ◌<◌, ◌≢◌, Bool, List, [], length, ltb, arith,
}
use reverse_traceroute_publi.Warts.Reader.{
  Stream, end_of_file, bad_input, out_of_fuel, Result, ok, err,
}
use reverse_traceroute_publi.Warts.Reader.Bounds.{
  Within, Eats, Within-weaken, >>=-Within, >>=-Eats, read_full-Eats, read_uint16-Eats_2, eats,
  Within-zero, if-Within_at,
}
use reverse_traceroute_publi.Warts.Extensions.{
  read_icmp_extension, extensions_from, all_extensions, read_icmp_extension_list,
}
use reverse_traceroute_publi.Warts.Traceroute.{
  hop_flags, trace_flags, read_traceroute_hop, trace_flags_of, read_traceroute_flags,
  read_traceroute_hops, read_traceroute,
}
use reverse_traceroute_publi.Warts.Ping.{
  read_ts_reply, read_v4ts, read_v4rr, read_counted_addresses, reply_flags, ping_flags,
  read_ping_reply_flags, read_ping_replies, read_ping_flags, read_ping,
}
use reverse_traceroute_publi.Warts.Parse.{
  Header, Object, read_header, parse_body, parse_next, Parsed, parsed, parse_failed, then_parsed,
  parse_loop, parse, wanted, get_warts_t,
}
use reverse_traceroute_publi.Warts.Parse.Readers.{
  read_referenced_address-Eats, read_address-Eats, with_new_refs-Eats, get_flags-Eats,
  skip_length-Eats, into-Eats, AllEat, each_flag-Eats, repeat_reader-Eats, read_list-Eats,
  read_cycle-Eats, read_cycle_stop-Eats,
}

read_icmp_extension-Eats : Eats 2 read_icmp_extension
unfolding read_icmp_extension
read_icmp_extension-Eats = >>=-Eats 2 _ _ read_uint16-Eats_2 (search (eats))

extensions_from-Within :
    (fuel i len : ℕ) (s : Stream)
    → length s.buffer < fuel
    → Within 0 (length s.buffer) (extensions_from fuel i len s)
unfolding extensions_from
extensions_from-Within zero i len s h = absurd (omega arith)
extensions_from-Within (suc fuel) i len s h =
    if-Within_at 0 (length s.buffer) (ltb i len) _ _ s
      (Within-zero 2 (length s.buffer) _ (
        >>=-Within 2 (length s.buffer) read_icmp_extension _ s (read_icmp_extension-Eats s)
          (λ ext s' le.
            Within-weaken 2 (length s'.buffer) (length s.buffer) _
              (>>=-Within 0 (length s'.buffer) (extensions_from fuel _ len) _ s'
                (extensions_from-Within fuel _ len s' (omega arith)) (λ rest t le'. omega arith))
              le)))
      (omega arith)

all_extensions-Eats : (len : ℕ) → Eats 0 (all_extensions len)
unfolding all_extensions
all_extensions-Eats len s = extensions_from-Within (suc (length s.buffer)) 0 len s (omega arith)

read_icmp_extension_list-Eats : Eats 0 read_icmp_extension_list
unfolding read_icmp_extension_list
read_icmp_extension_list-Eats = search (eats, all_extensions-Eats)

ruleset fields = (
  eats, into-Eats, read_referenced_address-Eats, read_address-Eats, read_icmp_extension_list-Eats,
  get_flags-Eats, skip_length-Eats, repeat_reader-Eats,
)

hop_flags-AllEat : AllEat hop_flags
unfolding hop_flags
hop_flags-AllEat = search (fields)

trace_flags-AllEat : AllEat trace_flags
unfolding trace_flags
trace_flags-AllEat = search (fields)

read_traceroute_hop-Eats : Eats 0 read_traceroute_hop
unfolding read_traceroute_hop
read_traceroute_hop-Eats = search (fields, each_flag-Eats, hop_flags-AllEat)

trace_flags_of-Eats : (first : ℕ) → Eats 0 (trace_flags_of first)
unfolding trace_flags_of
trace_flags_of-Eats first = search (fields, each_flag-Eats, trace_flags-AllEat)

read_traceroute_flags-Eats : Eats 0 read_traceroute_flags
unfolding read_traceroute_flags
read_traceroute_flags-Eats = search (eats, trace_flags_of-Eats)

read_traceroute_hops-Eats : (count : ℕ) → Eats 0 (read_traceroute_hops count)
unfolding read_traceroute_hops
read_traceroute_hops-Eats count = repeat_reader-Eats count _ read_traceroute_hop-Eats

read_traceroute-Eats : Eats 0 read_traceroute
unfolding read_traceroute
read_traceroute-Eats =
    with_new_refs-Eats 0 _ (search (eats, read_traceroute_flags-Eats, read_traceroute_hops-Eats))

read_ts_reply-Eats : Eats 0 read_ts_reply
unfolding read_ts_reply
read_ts_reply-Eats = search (eats)

read_v4ts-Eats : Eats 0 read_v4ts
unfolding read_v4ts
read_v4ts-Eats = search (fields) depth 8

read_v4rr-Eats : Eats 0 read_v4rr
unfolding read_v4rr
read_v4rr-Eats = search (fields)

read_counted_addresses-Eats : Eats 0 read_counted_addresses
unfolding read_counted_addresses
read_counted_addresses-Eats = search (fields)

reply_flags-AllEat : AllEat reply_flags
unfolding reply_flags
reply_flags-AllEat = search (fields, read_ts_reply-Eats, read_v4ts-Eats, read_v4rr-Eats)

ping_flags-AllEat : AllEat ping_flags
unfolding ping_flags
ping_flags-AllEat = search (fields, read_counted_addresses-Eats)

read_ping_reply_flags-Eats : Eats 0 read_ping_reply_flags
unfolding read_ping_reply_flags
read_ping_reply_flags-Eats = search (fields, each_flag-Eats, reply_flags-AllEat) depth 8

read_ping_replies-Eats : (count : ℕ) → Eats 0 (read_ping_replies count)
unfolding read_ping_replies
read_ping_replies-Eats count = repeat_reader-Eats count _ read_ping_reply_flags-Eats

read_ping_flags-Eats : Eats 0 read_ping_flags
unfolding read_ping_flags
read_ping_flags-Eats = search (fields, each_flag-Eats, ping_flags-AllEat) depth 8

read_ping-Eats : Eats 0 read_ping
unfolding read_ping
read_ping-Eats =
    with_new_refs-Eats 0 _ (search (eats, read_ping_flags-Eats, read_ping_replies-Eats))

read_header-Eats : Eats 8 read_header
unfolding read_header
read_header-Eats = >>=-Eats 8 _ _ (read_full-Eats 8) (search (eats))

parse_body-Eats : (type : ℕ) (head : Header) → Eats 0 (parse_body type head)
unfolding parse_body
parse_body-Eats type head =
    search
      (
        eats, read_list-Eats, read_cycle-Eats, read_cycle_stop-Eats, read_traceroute-Eats,
        read_ping-Eats,
      )
      depth 10

-- Whatever `parseNext` reads, it takes at least the eight bytes of a header.
parse_next-Eats : Eats 8 parse_next
unfolding parse_next
parse_next-Eats = >>=-Eats 8 _ _ read_header-Eats (λ head. parse_body-Eats head.type head)

-- The loop did not run out of fuel.
abbrev pub Ends : Parsed → Type 0
Ends p = p ≢ parse_failed out_of_fuel

then_parsed-Ends :
    (keep : Bool) (obj : Object) (p : Parsed) → Ends p → Ends (then_parsed keep obj p)
then_parsed-Ends keep obj (parsed objs) h = λ e. cc
then_parsed-Ends keep obj (parse_failed f) h = h

parse_loop-Ends :
    (fuel : ℕ) (objs : List ℕ) (s : Stream) → length s.buffer < fuel → Ends (parse_loop fuel objs s)
unfolding parse_loop
parse_loop-Ends zero objs s h = absurd (omega arith)
parse_loop-Ends (suc fuel) objs s h =
    go (parse_next s) (parse_next-Eats s) (λ s' le. parse_loop-Ends fuel objs s' (omega arith))
  where
    go :
        (r : Result Object)
        → Within 8 (length s.buffer) r
        → ((s' : Stream) → length s'.buffer + 8 ≤ length s.buffer → Ends (parse_loop fuel objs s'))
        → Ends (elim r [
          | ok obj s' ↦ then_parsed (wanted objs (get_warts_t obj)) obj (parse_loop fuel objs s')
          | err end_of_file _ ↦ parsed []
          | err f _ ↦ parse_failed f
        ])
    go (ok obj s') h' next = then_parsed-Ends _ obj (parse_loop fuel objs s') (next s' h')
    go (err end_of_file s') h' next = λ e. cc
    go (err bad_input s') h' next = λ e. cc
    go (err out_of_fuel s') h' next = absurd (h'.0 refl)

-- `Parse` ends on every input, whatever types are asked for: the loop over the records and the loop
-- over the ICMP extensions, whose counter may wrap around, come to their end within the fuel.
pub parse-Ends : (bytes objs : List ℕ) → Ends (parse bytes objs)
unfolding parse
parse-Ends bytes objs = parse_loop-Ends (suc (length bytes)) objs _ (omega arith)
