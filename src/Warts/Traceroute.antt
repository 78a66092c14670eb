-- ===== src/Warts/Traceroute.antt =====
-- warts/traceroute.go: traceroute records.
use reverse_traceroute_publi.Base.{ℕ, List, [], ◌∷◌}
use reverse_traceroute_publi.Warts.Reader.{
  Address, Reader, pure, ◌>>=◌, or_else, get_uint8, read_full, read_uint8, read_uint16, read_uint32,
  read_bytes, Timeval, read_time_val, convert_timeval,
}
use reverse_traceroute_publi.Warts.Address.{
  zero_address, read_address, read_referenced_address, zero_time, with_new_refs,
}
use reverse_traceroute_publi.Warts.Flags.{
  get_flags, skip_length, into, switch, each_flag, repeat_reader,
}
use reverse_traceroute_publi.Warts.Extensions.{
  IcmpExtensionList, no_extensions, read_icmp_extension_list,
}

-- `TracerouteHop`.
pub record TracerouteHop : Type 0 where
  pub plength : ℕ
  pub hop_addr : Address
  pub probe_ttl : ℕ
  pub reply_ttl : ℕ
  pub flags : ℕ
  pub probe_id : ℕ
  pub rtt : Timeval
  pub icmp_type_code : ℕ
  pub probe_size : ℕ
  pub reply_size : ℕ
  pub ipid : ℕ
  pub tos : ℕ
  pub next_hop_mtu : ℕ
  pub quoted_ip_length : ℕ
  pub quoted_ttl : ℕ
  pub tcp_flags : ℕ
  pub quotes_tos : ℕ
  pub icmp_ext : IcmpExtensionList
  pub address : Address

-- `TracerouteFlags`.
pub record TracerouteFlags : Type 0 where
  pub list_id : ℕ
  pub cycle_id : ℕ
  pub src_id : Address
  pub dst_id : Address
  pub start_time : Timeval
  pub stop_reason : ℕ
  pub stop_data : ℕ
  pub trace_flags : ℕ
  pub attempts : ℕ
  pub hop_limit : ℕ
  pub trace_type : ℕ
  pub probe_size : ℕ
  pub source_port : ℕ
  pub dest_port : ℕ
  pub start_ttl : ℕ
  pub ip_tos : ℕ
  pub timeout_s : ℕ
  pub loops : ℕ
  pub hops_probed : ℕ
  pub gap_limit : ℕ
  pub gap_action : ℕ
  pub loop_action : ℕ
  pub probes_sent : ℕ
  pub min_wait_centi : ℕ
  pub confidence : ℕ
  pub src : Address
  pub dst : Address
  pub user_id : ℕ

-- `Traceroute`.
pub record Traceroute : Type 0 where
  pub flags : TracerouteFlags
  pub plength : ℕ
  pub hop_count : ℕ
  pub hops : List TracerouteHop
  pub end_of_trace : ℕ

abbrev pub no_hop : TracerouteHop
no_hop = record {
  plength = 0;
  hop_addr = zero_address;
  probe_ttl = 0;
  reply_ttl = 0;
  flags = 0;
  probe_id = 0;
  rtt = zero_time;
  icmp_type_code = 0;
  probe_size = 0;
  reply_size = 0;
  ipid = 0;
  tos = 0;
  next_hop_mtu = 0;
  quoted_ip_length = 0;
  quoted_ttl = 0;
  tcp_flags = 0;
  quotes_tos = 0;
  icmp_ext = no_extensions;
  address = zero_address;
}

abbrev pub no_trace_flags : TracerouteFlags
no_trace_flags = record {
  list_id = 0;
  cycle_id = 0;
  src_id = zero_address;
  dst_id = zero_address;
  start_time = zero_time;
  stop_reason = 0;
  stop_data = 0;
  trace_flags = 0;
  attempts = 0;
  hop_limit = 0;
  trace_type = 0;
  probe_size = 0;
  source_port = 0;
  dest_port = 0;
  start_ttl = 0;
  ip_tos = 0;
  timeout_s = 0;
  loops = 0;
  hops_probed = 0;
  gap_limit = 0;
  gap_action = 0;
  loop_action = 0;
  probes_sent = 0;
  min_wait_centi = 0;
  confidence = 0;
  src = zero_address;
  dst = zero_address;
  user_id = 0;
}

-- The cases 1, 2, and so on of the `switch` of `readTracerouteHop`.
unfoldable pub hop_flags : List (TracerouteHop → Reader TracerouteHop)
hop_flags =
    into read_referenced_address (λ v th. record th { hop_addr = v })
    ∷ into read_uint8 (λ v th. record th { probe_ttl = v })
    ∷ into read_uint8 (λ v th. record th { reply_ttl = v })
    ∷ into read_uint8 (λ v th. record th { flags = v })
    ∷ into read_uint8 (λ v th. record th { probe_id = v })
    ∷ into read_uint32 (λ v th. record th { rtt = convert_timeval v })
    ∷ into read_uint16 (λ v th. record th { icmp_type_code = v })
    ∷ into read_uint16 (λ v th. record th { probe_size = v })
    ∷ into read_uint16 (λ v th. record th { reply_size = v })
    ∷ into read_uint16 (λ v th. record th { ipid = v })
    ∷ into read_uint8 (λ v th. record th { tos = v })
    ∷ into read_uint16 (λ v th. record th { next_hop_mtu = v })
    ∷ into read_uint16 (λ v th. record th { quoted_ip_length = v })
    ∷ into read_uint8 (λ v th. record th { quoted_ttl = v })
    ∷ into read_uint8 (λ v th. record th { tcp_flags = v })
    ∷ into read_uint8 (λ v th. record th { quotes_tos = v })
    ∷ into read_icmp_extension_list (λ v th. record th { icmp_ext = v })
    ∷ into read_address (λ v th. record th { address = v })
    ∷ into read_time_val (λ v th. th)
    ∷ []

-- The cases 1, 2, and so on of the `switch` of `readTracerouteFlags`.
unfoldable pub trace_flags : List (TracerouteFlags → Reader TracerouteFlags)
trace_flags =
    into read_uint32 (λ v tf. record tf { list_id = v })
    ∷ into read_uint32 (λ v tf. record tf { cycle_id = v })
    ∷ into read_referenced_address (λ v tf. record tf { src_id = v })
    ∷ into read_referenced_address (λ v tf. record tf { dst_id = v })
    ∷ into read_time_val (λ v tf. record tf { start_time = v })
    ∷ into read_uint8 (λ v tf. record tf { stop_reason = v })
    ∷ into read_uint8 (λ v tf. record tf { stop_data = v })
    ∷ into read_uint8 (λ v tf. record tf { trace_flags = v })
    ∷ into read_uint8 (λ v tf. record tf { attempts = v })
    ∷ into read_uint8 (λ v tf. record tf { hop_limit = v })
    ∷ into read_uint8 (λ v tf. record tf { trace_type = v })
    ∷ into read_uint16 (λ v tf. record tf { probe_size = v })
    ∷ into read_uint16 (λ v tf. record tf { source_port = v })
    ∷ into read_uint16 (λ v tf. record tf { dest_port = v })
    ∷ into read_uint8 (λ v tf. record tf { start_ttl = v })
    ∷ into read_uint8 (λ v tf. record tf { ip_tos = v })
    ∷ into read_uint8 (λ v tf. record tf { timeout_s = v })
    ∷ into read_uint8 (λ v tf. record tf { loops = v })
    ∷ into read_uint16 (λ v tf. record tf { hops_probed = v })
    ∷ into read_uint8 (λ v tf. record tf { gap_limit = v })
    ∷ into read_uint8 (λ v tf. record tf { gap_action = v })
    ∷ into read_uint8 (λ v tf. record tf { loop_action = v })
    ∷ into read_uint16 (λ v tf. record tf { probes_sent = v })
    ∷ into read_uint8 (λ v tf. record tf { min_wait_centi = v })
    ∷ into read_uint8 (λ v tf. record tf { confidence = v })
    ∷ into read_address (λ v tf. record tf { src = v })
    ∷ into read_address (λ v tf. record tf { dst = v })
    ∷ into read_uint32 (λ v tf. record tf { user_id = v })
    ∷ []

-- `readTracerouteHop`.
unfoldable pub read_traceroute_hop : Reader TracerouteHop
unfolding ◌>>=◌
read_traceroute_hop = do
  first ← read_bytes 1
  flags ← get_flags (get_uint8 first)
  skipped ← skip_length flags
  each_flag (switch hop_flags) flags no_hop

-- What `readTracerouteFlags` does behind the read of its first byte.
unfoldable pub trace_flags_of : ℕ → Reader TracerouteFlags
unfolding ◌>>=◌
trace_flags_of first = do
  flags ← get_flags first
  skipped ← skip_length flags
  each_flag (switch trace_flags) flags no_trace_flags

-- `readTracerouteFlags`. An error of the first `Read` is no error of the function.
unfoldable pub read_traceroute_flags : Reader TracerouteFlags
unfolding or_else trace_flags_of
read_traceroute_flags =
    or_else (read_full 1) (λ first. trace_flags_of (get_uint8 first)) (pure no_trace_flags)

-- `readTracerouteHops`.
unfoldable pub read_traceroute_hops : ℕ → Reader (List TracerouteHop)
unfolding repeat_reader
read_traceroute_hops count = repeat_reader count read_traceroute_hop

-- `readTraceroute`. The last number is read and dropped.
unfoldable pub read_traceroute : Reader Traceroute
unfolding ◌>>=◌ read_traceroute_flags read_traceroute_hops
read_traceroute = with_new_refs (do
  flags ← read_traceroute_flags
  hc ← read_uint16
  hops ← read_traceroute_hops hc
  skipped ← read_uint16
  pure (record { flags = flags; plength = 0; hop_count = hc; hops = hops; end_of_trace = 0 }))
