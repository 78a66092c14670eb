-- ===== src/Runner/Slots.antt =====
-- The probes for timestamps of revtr/runner/revtr_runner.go as data: what is asked, what is answered,
-- the state that the answers change, and what the slots of an answer say.
--
-- `ts_ping n` is what `Recv` returns for the call of `Ping` after `n` others, up to an error, which
-- both callers drop; nothing where the call itself fails. `get_ts_spoofers n` answers
-- `GetTSSpoofers(0)` after `n` others.
use reverse_traceroute_publi.Base.{
  ℕ, ◌+◌, ◌-◌, ◌^◌, ◌%◌, Bool, true, false, not, ◌&&◌, ◌||◌, List, [], ◌∷◌, ◌++◌, String, str_eq,
  Option, none, some, ltb, ◌==◌, if◌then◌else◌, ℤ, Dict, fetch, store, or_zero,
}
use Prim.Native.String.{◌++◌ as text_append}
use reverse_traceroute_publi.Segment.{Segment}
use reverse_traceroute_publi.Runner.Engine.{Engine}

-- `datamodel.TsAndAddr`, and `datamodel.Ping` with the stamps of its responses.
pub record TsAndAddr : Type 0 where
  pub stamp_ip : ℕ
  pub ts : ℕ

pub record TsPing : Type 0 where
  pub ts_src : ℕ
  pub ts_dst : ℕ
  pub ts_spoofed_from : ℕ
  pub stamps : List (List TsAndAddr)
  pub ts_measurement_id : ℤ
  pub ts_from_cache : Bool

pub record TsMeasurement : Type 0 where
  pub from : ℕ
  pub to : ℕ
  pub receiver : Option String
  pub time_stamp : String
  pub is_cached : Bool

-- A probe is the list of the addresses to stamp, its destination first.
abbrev pub Probe : Type 0
Probe = List String

-- `map[string][][]string`, and that by receivers.
abbrev pub Probes : Type 0
Probes = Dict (List Probe)

abbrev pub Receivers : Type 0
Receivers = Dict Probes

-- Maps whose keys are pairs or triplets of texts.
unfoldable pub same_texts : List String → List String → Bool
same_texts [] [] = true
same_texts [] (y ∷ ys) = false
same_texts (x ∷ xs) [] = false
same_texts (x ∷ xs) (y ∷ ys) = str_eq x y && same_texts xs ys

abbrev pub Keyed : Type 0 → Type 0
Keyed V = List (List String × V)

unfoldable pub fetch_keyed : {V : Type 0} → Keyed V → List String → Option V
unfolding same_texts
fetch_keyed [] key = none
fetch_keyed ((k, v) ∷ m) key = if same_texts k key then some v else fetch_keyed m key

unfoldable pub store_keyed : {V : Type 0} → Keyed V → List String → V → Keyed V
unfolding same_texts
store_keyed [] key v = (key, v) ∷ []
store_keyed ((k, w) ∷ m) key v =
    if same_texts k key then (k, v) ∷ m else (k, w) ∷ store_keyed m key v

-- `checkMapMagic`, with the append behind it.
unfoldable pub add_probe : Receivers → String → String → Probe → Receivers
unfolding store fetch
add_probe rs recv spoofer p =
    let of_recv = or_zero [] (fetch rs recv) in
    store rs recv (store of_recv spoofer (or_zero [] (fetch of_recv spoofer) ++ (p ∷ [])))

pub record TsServices : Type 0 where
  pub ts_ping : ℕ → List TsMeasurement → List TsPing
  pub get_ts_spoofers : ℕ → Option (List ℕ)
  pub adjacencies : String → String → Option (List String)
  pub visit_probes : Probes → Probes
  pub visit_receivers : Receivers → Receivers
  pub visit_checks : Keyed (List String) → Keyed (List String)

-- The state of the step: that of the engine, the maps of `Revtr` that only this step uses, its
-- counters in `Stats`, and how often the services were called. From `to_spoof` on these are the
-- variables of the step: `receiverToSpooferToProbe`, `revHopsSrcDstToRevSeg`,
-- `linuxBugToCheckSrcDstVpToRevHops`, `destDoesNotStamp` and
-- `destDoesNotStampToVerifySpooferToProbe`.
pub record Stamping (C : Type 0) : Type 0 where
  pub e : Engine C
  pub stamps_zero : Dict Bool
  pub send_spoofed : Dict (Dict Bool)
  pub ts_round_count : ℕ
  pub ts_probes : ℕ
  pub spoofed_ts_probes : ℕ
  pub ts_pings_asked : ℕ
  pub ts_spoofers_asked : ℕ
  pub to_spoof : Receivers
  pub rev_hops : Keyed (List Segment)
  pub linux_bugs : Keyed (List String)
  pub does_not_stamp : List (String × String × String)
  pub to_verify : Probes

-- What a response says: it shows a hop, one that a bug may have stamped, that the destination does
-- not stamp, with the address of the second slot, or nothing.
pub data Verdict : Type 0 where
  shows may_show does_not : ℕ → Verdict
  shows_nothing : Verdict

abbrev pub no_stamp : TsAndAddr
no_stamp = record { stamp_ip = 0; ts = 0 }

-- The first three slots: those of a response with more than three are left empty.
abbrev pub three_slots : List TsAndAddr → TsAndAddr × TsAndAddr × TsAndAddr
three_slots [] = (no_stamp, no_stamp, no_stamp)
three_slots (a ∷ []) = (a, no_stamp, no_stamp)
three_slots (a ∷ b ∷ []) = (a, b, no_stamp)
three_slots (a ∷ b ∷ c ∷ []) = (a, b, c)
three_slots (a ∷ b ∷ c ∷ d ∷ rest) = (no_stamp, no_stamp, no_stamp)

-- The difference is one of 32 bits.
unfoldable pub judge_slots : TsAndAddr × TsAndAddr × TsAndAddr → Verdict
judge_slots (ts1, ts2, ts3) =
    if not (ts3.ts == 0)
    then shows ts3.stamp_ip
    else if not (ts2.ts == 0)
    then (if ltb 3 ((ts2.ts + 2 ^ 32 - ts1.ts) % 2 ^ 32) || ltb ts2.ts ts1.ts
        then shows ts2.stamp_ip
        else may_show ts2.stamp_ip)
    else if ts1.ts == 0
    then does_not ts2.stamp_ip
    else shows_nothing

-- The same for a destination that does not stamp: `shows` carries the time of the second slot, which
-- the code takes for its address, `may_show` the address of the first.
abbrev pub four_slots : List TsAndAddr → TsAndAddr × TsAndAddr × TsAndAddr
four_slots [] = (no_stamp, no_stamp, no_stamp)
four_slots (a ∷ []) = (a, no_stamp, no_stamp)
four_slots (a ∷ b ∷ []) = (a, b, no_stamp)
four_slots (a ∷ b ∷ c ∷ []) = (a, b, no_stamp)
four_slots (a ∷ b ∷ c ∷ d ∷ []) = (a, b, d)
four_slots (a ∷ b ∷ c ∷ d ∷ x ∷ rest) = (no_stamp, no_stamp, no_stamp)

unfoldable pub judge_zero : TsAndAddr × TsAndAddr × TsAndAddr → Verdict
judge_zero (ts1, ts2, ts4) =
    if not (ts2.ts == 0) && (ts4.ts == 0)
    then shows ts2.ts
    else if not (ts1.ts == 0)
    then may_show ts1.stamp_ip
    else shows_nothing

-- `TimestampAddrToString` of ipoptions/ip_options_utils.go.
unfoldable pub join_addrs : Probe → String
join_addrs [] = ""
join_addrs (p ∷ []) = p
join_addrs (p ∷ q ∷ probe) = text_append p (text_append "," (join_addrs (q ∷ probe)))

unfoldable pub timestamp_addr_to_string : Probe → String
unfolding join_addrs
timestamp_addr_to_string probe = text_append "tsprespec=" (join_addrs probe)
