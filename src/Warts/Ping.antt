-- ===== src/Warts/Ping.antt =====
-- warts/ping.go: ping records.
use reverse_traceroute_publi.Base.{ℕ, List, [], ◌∷◌}
use reverse_traceroute_publi.Warts.Reader.{
  Address, Reader, pure, ◌>>=◌, get_uint8, read_full, read_uint8, read_uint16, read_uint32,
  read_bytes, Timeval, read_time_val, convert_timeval,
}
use reverse_traceroute_publi.Warts.Address.{zero_address, read_address, zero_time, with_new_refs}
use reverse_traceroute_publi.Warts.Flags.{
  get_flags, skip_length, into, switch, each_flag, repeat_reader,
}

-- `V4RR`.
pub record V4Rr : Type 0 where
  pub addrs : List Address

-- `V4TS`.
pub record V4Ts : Type 0 where
  pub addrs : List Address
  pub time_stamps : List ℕ

-- `TSReply`.
pub record TsReply : Type 0 where
  pub o_timestamp : ℕ
  pub r_timestamp : ℕ
  pub t_timestamp : ℕ

abbrev pub no_ts_reply : TsReply
no_ts_reply = record { o_timestamp = 0; r_timestamp = 0; t_timestamp = 0 }

-- `PingFlags`.
pub record PingFlags : Type 0 where
  pub list_id : ℕ
  pub cycle_id : ℕ
  pub src_id : ℕ
  pub dst_id : ℕ
  pub start_time : Timeval
  pub stop_reason : ℕ
  pub stop_data : ℕ
  pub data_length : ℕ
  pub data_bytes : List ℕ
  pub probe_count : ℕ
  pub probe_size : ℕ
  pub probe_wait_s : ℕ
  pub probe_ttl : ℕ
  pub reply_count : ℕ
  pub pings_sent : ℕ
  pub ping_method : ℕ
  pub probe_src_port : ℕ
  pub probe_dst_port : ℕ
  pub user_id : ℕ
  pub src : Address
  pub dst : Address
  pub probe_tos : ℕ
  pub ts : List Address
  pub icmp_checksum : ℕ
  pub mtu : ℕ
  pub probe_timeout : ℕ
  pub probe_wait : ℕ
  pub ping_flags : List ℕ
  pub pf : ℕ

-- `PingReplyFlags`.
pub record PingReplyFlags : Type 0 where
  pub dst_id : ℕ
  pub flags : ℕ
  pub reply_ttl : ℕ
  pub reply_size : ℕ
  pub icmp : ℕ
  pub rtt : Timeval
  pub probe_id : ℕ
  pub reply_ipid : ℕ
  pub probe_ipid : ℕ
  pub reply_proto : ℕ
  pub tcp_flags : ℕ
  pub addr : Address
  pub v4rr : V4Rr
  pub v4ts : V4Ts
  pub reply_ipid32 : ℕ
  pub tx : Timeval
  pub ts_reply : TsReply
  pub reply_flags : List ℕ

-- `Ping`, without the constant `Version` and `Type`.
pub record Ping : Type 0 where
  pub flags : PingFlags
  pub plength : ℕ
  pub reply_count : ℕ
  pub ping_replies : List PingReplyFlags

abbrev pub no_ping_flags : PingFlags
no_ping_flags = record {
  list_id = 0;
  cycle_id = 0;
  src_id = 0;
  dst_id = 0;
  start_time = zero_time;
  stop_reason = 0;
  stop_data = 0;
  data_length = 0;
  data_bytes = [];
  probe_count = 0;
  probe_size = 0;
  probe_wait_s = 0;
  probe_ttl = 0;
  reply_count = 0;
  pings_sent = 0;
  ping_method = 0;
  probe_src_port = 0;
  probe_dst_port = 0;
  user_id = 0;
  src = zero_address;
  dst = zero_address;
  probe_tos = 0;
  ts = [];
  icmp_checksum = 0;
  mtu = 0;
  probe_timeout = 0;
  probe_wait = 0;
  ping_flags = [];
  pf = 0;
}

abbrev pub no_reply_flags : PingReplyFlags
no_reply_flags = record {
  dst_id = 0;
  flags = 0;
  reply_ttl = 0;
  reply_size = 0;
  icmp = 0;
  rtt = zero_time;
  probe_id = 0;
  reply_ipid = 0;
  probe_ipid = 0;
  reply_proto = 0;
  tcp_flags = 0;
  addr = zero_address;
  v4rr = record { addrs = [] };
  v4ts = record { addrs = []; time_stamps = [] };
  reply_ipid32 = 0;
  tx = zero_time;
  ts_reply = no_ts_reply;
  reply_flags = [];
}

-- `readTSReply`.
unfoldable pub read_ts_reply : Reader TsReply
unfolding ◌>>=◌
read_ts_reply = do
  o ← read_uint32
  r ← read_uint32
  t ← read_uint32
  pure (record { o_timestamp = o; r_timestamp = r; t_timestamp = t })

-- `readV4TS`.
unfoldable pub read_v4ts : Reader V4Ts
unfolding ◌>>=◌ repeat_reader
read_v4ts = do
  tsc ← read_uint8
  ipc ← read_uint8
  stamps ← repeat_reader tsc read_uint32
  addrs ← repeat_reader ipc read_address
  pure (record { addrs = addrs; time_stamps = stamps })

-- `readV4RR`.
unfoldable pub read_v4rr : Reader V4Rr
unfolding ◌>>=◌ repeat_reader
read_v4rr = do
  count ← read_uint8
  addrs ← repeat_reader count read_address
  pure (record { addrs = addrs })

-- The addresses of the flag 24.
unfoldable pub read_counted_addresses : Reader (List Address)
unfolding ◌>>=◌ repeat_reader
read_counted_addresses = do num ← read_uint8; repeat_reader num read_address

-- The cases 1, 2, and so on of the `switch` of `readPingReplyFlags`.
unfoldable pub reply_flags : List (PingReplyFlags → Reader PingReplyFlags)
reply_flags =
    into read_uint32 (λ v pr. record pr { dst_id = v })
    ∷ into read_uint8 (λ v pr. record pr { flags = v })
    ∷ into read_uint8 (λ v pr. record pr { reply_ttl = v })
    ∷ into read_uint16 (λ v pr. record pr { reply_size = v })
    ∷ into read_uint16 (λ v pr. record pr { icmp = v })
    ∷ into read_uint32 (λ v pr. record pr { rtt = convert_timeval v })
    ∷ into read_uint16 (λ v pr. record pr { probe_id = v })
    ∷ into read_uint16 (λ v pr. record pr { reply_ipid = v })
    ∷ into read_uint16 (λ v pr. record pr { probe_ipid = v })
    ∷ into read_uint8 (λ v pr. record pr { reply_proto = v })
    ∷ into read_uint8 (λ v pr. record pr { tcp_flags = v })
    ∷ into read_address (λ v pr. record pr { addr = v })
    ∷ into read_v4rr (λ v pr. record pr { v4rr = v })
    ∷ into read_v4ts (λ v pr. record pr { v4ts = v })
    ∷ into read_uint32 (λ v pr. record pr { reply_ipid32 = v })
    ∷ into read_time_val (λ v pr. record pr { tx = v })
    ∷ into read_ts_reply (λ v pr. record pr { ts_reply = v })
    ∷ []

-- The cases 1, 2, and so on of the `switch` of `readPingFlags`.
unfoldable pub ping_flags : List (PingFlags → Reader PingFlags)
ping_flags =
    into read_uint32 (λ v pf. record pf { list_id = v })
    ∷ into read_uint32 (λ v pf. record pf { cycle_id = v })
    ∷ into read_uint32 (λ v pf. record pf { src_id = v })
    ∷ into read_uint32 (λ v pf. record pf { dst_id = v })
    ∷ into read_time_val (λ v pf. record pf { start_time = v })
    ∷ into read_uint8 (λ v pf. record pf { stop_reason = v })
    ∷ into read_uint8 (λ v pf. record pf { stop_data = v })
    ∷ into read_uint16 (λ v pf. record pf { data_length = v })
    ∷ (λ pf. into (read_bytes pf.data_length) (λ v pf. record pf { data_bytes = v }) pf)
    ∷ into read_uint16 (λ v pf. record pf { probe_count = v })
    ∷ into read_uint16 (λ v pf. record pf { probe_size = v })
    ∷ into read_uint8 (λ v pf. record pf { probe_wait_s = v })
    ∷ into read_uint8 (λ v pf. record pf { probe_ttl = v })
    ∷ into read_uint16 (λ v pf. record pf { reply_count = v })
    ∷ into read_uint16 (λ v pf. record pf { pings_sent = v })
    ∷ into read_uint8 (λ v pf. record pf { ping_method = v })
    ∷ into read_uint16 (λ v pf. record pf { probe_src_port = v })
    ∷ into read_uint16 (λ v pf. record pf { probe_dst_port = v })
    ∷ into read_uint32 (λ v pf. record pf { user_id = v })
    ∷ into read_address (λ v pf. record pf { src = v })
    ∷ into read_address (λ v pf. record pf { dst = v })
    ∷ into read_uint8 (λ v pf. record pf { pf = v })
    ∷ into read_uint8 (λ v pf. record pf { probe_tos = v })
    ∷ into read_counted_addresses (λ v pf. record pf { ts = v })
    ∷ into read_uint16 (λ v pf. record pf { icmp_checksum = v })
    ∷ into read_uint16 (λ v pf. record pf { mtu = v })
    ∷ into read_uint8 (λ v pf. record pf { probe_timeout = v })
    ∷ into read_uint32 (λ v pf. record pf { probe_wait = v })
    ∷ []

-- `readPingReplyFlags`.
unfoldable pub read_ping_reply_flags : Reader PingReplyFlags
unfolding ◌>>=◌
read_ping_reply_flags = do
  first ← read_bytes 1
  flags ← get_flags (get_uint8 first)
  skipped ← skip_length flags
  pr ← each_flag (switch reply_flags) flags no_reply_flags
  pure (record pr { reply_flags = flags })

-- `readPingReplies`.
unfoldable pub read_ping_replies : ℕ → Reader (List PingReplyFlags)
unfolding repeat_reader
read_ping_replies count = repeat_reader count read_ping_reply_flags

-- `readPingFlags`.
unfoldable pub read_ping_flags : Reader PingFlags
unfolding ◌>>=◌
read_ping_flags = do
  first ← read_full 1
  flags ← get_flags (get_uint8 first)
  skipped ← skip_length flags
  pf ← each_flag (switch ping_flags) flags no_ping_flags
  pure (record pf { ping_flags = flags })

-- `readPing`.
unfoldable pub read_ping : Reader Ping
unfolding ◌>>=◌ read_ping_flags read_ping_replies
read_ping = with_new_refs (do
  flags ← read_ping_flags
  rc ← read_uint16
  replies ← read_ping_replies rc
  pure (record { flags = flags; plength = 0; reply_count = rc; ping_replies = replies }))
