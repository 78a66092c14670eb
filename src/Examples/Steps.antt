-- ===== src/Examples/Steps.antt =====
-- The theorems on the runner and on the spoof map at concrete inputs.
use reverse_traceroute_publi.Base.{
  ℕ, ◌≡◌, refl, true, false, Bool, List, [], ◌∷◌, map, String, Option, some, none, get_or, ◌==◌,
  if◌then◌else◌, pos, or_zero, fetch_at, store_at, ℤ,
}
use mathlib.Core.List.{Memᴰ}
use reverse_traceroute_publi.StringUtil.{in_array}
use reverse_traceroute_publi.Addresses.{IpNet, int32_to_ip_string}
use reverse_traceroute_publi.Runner.ProcessRr.{
  process_rr, process_texts, find_cluster_below, hops_behind, skip_loops, string_slice_r_index,
  last_index_loop,
}
use reverse_traceroute_publi.Runner.ProcessRr.Loops.{NoRepeat, end_or}
use reverse_traceroute_publi.Runner.ProcessRr.Clean.{process_rr-NoRepeat}
use reverse_traceroute_publi.Runner.Symmetric.{TracerouteHops, assume_symmetric}
use reverse_traceroute_publi.Runner.Symmetric.Stops.{Stops, assume_symmetric-Stops}
use reverse_traceroute_publi.SpoofMap.{Probe, SpoofRequest, Spoofs, register, receive, send_spoofs}
use reverse_traceroute_publi.SpoofMap.Tick.{pending, send_spoofs-pending}
use reverse_traceroute_publi.SpoofMap.Reach.{Trace, started, registered, received, Trace-pending}
use reverse_traceroute_publi.Examples.Sample.{
  own_order, own_cluster, as_it_is, sample_net, fresh, two_segs,
}

-- The addresses are told apart by their last byte.
abbrev last_byte_net : IpNet
last_byte_net = record {
  parse_ip = λ s. none;
  to4 = λ ip. none;
  ipv4 = λ a b c d. a ∷ b ∷ c ∷ d ∷ [];
  to_string = λ ip.
      if get_or ip 3 0 == 1
      then "0.0.0.1"
      else if get_or ip 3 0 == 2
      then "2.2.2.2"
      else if get_or ip 3 0 == 3
      then "0.0.0.3"
      else "0.0.0.4";
}

-- Past the destination the answer goes through 0.0.0.3 twice.
abbrev answered_hops : List ℕ
answered_hops = 1 ∷ 2 ∷ 3 ∷ 4 ∷ 3 ∷ []

process_rr-NoRepeat_example :
    (out : List String) × (process_rr own_cluster last_byte_net "2.2.2.2" "10.1.1.1" true
        (1 ∷ 2 ∷ 3 ∷ 4 ∷ 3 ∷ 1 ∷ [])
        fresh
      ≡ some (fresh, out))
    × NoRepeat (map own_cluster out)
    × (in_array (map own_cluster out) "2.2.2.2" ≡ false)
    × (end_or "" out ≡ "0.0.0.1")
unfolding in_array int32_to_ip_string
process_rr-NoRepeat_example =
    process_rr-NoRepeat own_cluster last_byte_net "2.2.2.2" "10.1.1.1" answered_hops 1 fresh refl
      refl

process_rr_run :
    process_rr own_cluster last_byte_net "2.2.2.2" "10.1.1.1" true
      (1 ∷ 2 ∷ 3 ∷ 4 ∷ 3 ∷ 1 ∷ [])
      fresh
    ≡ some (fresh, "0.0.0.3" ∷ "0.0.0.1" ∷ [])
unfolding process_rr process_texts int32_to_ip_string find_cluster_below hops_behind skip_loops
    string_slice_r_index last_index_loop
process_rr_run = refl

-- The controller answers a traceroute of three hops.
abbrev some_trace : String → String → Option TracerouteHops
some_trace src dst = some (record {
  trace_hops = "1.1.1.1" ∷ "9.9.9.9" ∷ dst ∷ [];
  measurement_id = pos 12;
  from_cache = false;
})

-- Every address is in the same autonomous system.
abbrev one_asn : String → ℤ
one_asn s = pos 64500

assume_symmetric-Stops_example :
    Stops (
      assume_symmetric sample_net own_order own_cluster as_it_is one_asn some_trace false 5
        two_segs)
assume_symmetric-Stops_example =
    assume_symmetric-Stops sample_net own_order own_cluster as_it_is one_asn some_trace false 5
      two_segs

-- A spoofed probe that is registered and answered.
abbrev a_request : SpoofRequest
a_request = record { id = 7; dst = 3 }

abbrev a_probe : Probe
a_probe = record { probe_id = 7; sender_ip = 40; answer = 1 ∷ 2 ∷ [] }

abbrev waiting : Spoofs
waiting = (7, record { probe = some a_probe; t = 100; spoof = a_request }) ∷ []

abbrev any_order : Spoofs → Spoofs
any_order spoofs = spoofs

abbrev never_sent : ℕ → List Probe → Bool
never_sent ip probes = false

send_spoofs-pending_example :
    (or_zero [] (fetch_at (send_spoofs any_order never_sent waiting).1.0 40) ≡ a_probe ∷ [])
    × (pending (send_spoofs any_order never_sent waiting).0 ≡ [])
send_spoofs-pending_example = send_spoofs-pending any_order never_sent waiting 40

waiting-Trace : Trace (7 ∷ []) waiting
unfolding register receive fetch_at store_at
waiting-Trace = received a_probe (registered 100 a_request started)

Trace-pending_example : Memᴰ a_probe.probe_id (7 ∷ [])
Trace-pending_example = Trace-pending (7 ∷ []) waiting a_probe waiting-Trace (Memᴰ.head refl)
