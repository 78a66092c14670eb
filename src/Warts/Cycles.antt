-- ===== src/Warts/Cycles.antt =====
-- warts/cycle.go: the records at the start and at the end of a cycle.
use reverse_traceroute_publi.Base.{ℕ, Bool, ◌||◌, not, List, [], take, drop, if◌then◌else◌}
use reverse_traceroute_publi.Warts.Reader.{
  Reader, pure, ◌>>=◌, wrap, read_full, get_uint8, get_uint32, read_uint16, read_uint32, get_string,
  isset,
}

-- `CycleStart`.
pub record CycleStart : Type 0 where
  pub cycle_id : ℕ
  pub list_id : ℕ
  pub ccycle_id : ℕ
  pub start_time : ℕ
  pub plength : ℕ
  pub stop_time : ℕ
  pub hostname : List ℕ

-- `CycleStartFlags`.
pub record CycleStartFlags : Type 0 where
  pub length : ℕ
  pub stop_time : ℕ
  pub hostname : List ℕ

-- `CycleStop`.
pub record CycleStop : Type 0 where
  pub cycle_id : ℕ
  pub stop_time : ℕ

-- `readCycleStopFlags`, whose answer has no fields.
unfoldable pub read_cycle_stop_flags : Reader (List ℕ)
read_cycle_stop_flags = read_full 1

abbrev pub no_cycle_flags : CycleStartFlags
no_cycle_flags = record { length = 0; stop_time = 0; hostname = [] }

unfoldable pub read_stop_time : Bool → CycleStartFlags → Reader CycleStartFlags
unfolding ◌>>=◌
read_stop_time stop_time csf =
    if stop_time then (do n ← read_uint32; pure (record csf { stop_time = n })) else pure csf

unfoldable pub read_hostname : Bool → CycleStartFlags → Reader CycleStartFlags
unfolding ◌>>=◌
read_hostname hostname csf =
    if hostname then (do hn ← get_string; pure (record csf { hostname = hn })) else pure csf

-- What `readCycleStartFlags` does with the flag.
unfoldable pub cycle_flags_of : ℕ → Reader CycleStartFlags
unfolding ◌>>=◌ read_stop_time read_hostname
cycle_flags_of flag = if not (isset flag 1 || isset flag 2) then pure no_cycle_flags else do
  l ← read_uint16
  csf ← read_stop_time (isset flag 1) (record no_cycle_flags { length = l })
  read_hostname (isset flag 2) csf

-- `readCycleStartFlags`.
unfoldable pub read_cycle_start_flags : Reader CycleStartFlags
unfolding ◌>>=◌ cycle_flags_of
read_cycle_start_flags = do first ← wrap (read_full 1); cycle_flags_of (get_uint8 first)

-- `readCycle`.
unfoldable pub read_cycle : Reader CycleStart
unfolding ◌>>=◌ read_cycle_start_flags
read_cycle = do
  buf ← read_full 16
  fl ← read_cycle_start_flags
  pure (record {
    cycle_id = get_uint32 (take 4 buf);
    list_id = get_uint32 (take 4 (drop 4 buf));
    ccycle_id = get_uint32 (take 4 (drop 8 buf));
    start_time = get_uint32 (drop 12 buf);
    plength = fl.length;
    stop_time = fl.stop_time;
    hostname = fl.hostname;
  })

-- `readCycleStop`.
unfoldable pub read_cycle_stop : Reader CycleStop
unfolding ◌>>=◌ read_cycle_stop_flags
read_cycle_stop = do
  buf ← read_full 8
  flags ← read_cycle_stop_flags
  pure (record { cycle_id = get_uint32 (take 4 buf); stop_time = get_uint32 (drop 4 buf) })
