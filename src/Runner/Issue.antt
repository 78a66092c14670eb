-- ===== src/Runner/Issue.antt =====
-- `issueRR`, `issueSpoofedRRImpl`, `issueSpoofedRR`, `issueTunnelDestinationBasedCheckSpoofedRR` and
-- `randomRecSpoofSources` of revtr/runner/revtr_runner.go: the probes of a record route step, and
-- what becomes of their answers. The outer `none` is a panic, the inner one an error.
use reverse_traceroute_publi.Base.{
  ℕ, suc, Bool, true, false, List, [], ◌∷◌, map, String, Option, none, some, ◌>>=◌, length, take,
  ltb, if◌then◌else◌, negsuc, ◌+ℤ◌, NatDict, store_at, or_zero,
}
use reverse_traceroute_publi.StringUtil.{non_spoofed}
use reverse_traceroute_publi.Addresses.{ip_string_to_int32, int32_to_ip_string}
use reverse_traceroute_publi.Runner.Engine.{
  PingMeasurement, Ping, PingStream, RrHops, SpoofRrHops, SiteVp, World, Engine, is_private,
}
use reverse_traceroute_publi.Runner.ProcessRr.{process_rr}

module _ {C : Type 0} (w : World C) where
  -- `util.IPStringToInt32` and `util.Int32ToIPString` with their errors dropped.
  unfoldable pub number_of : String → ℕ
  number_of s = or_zero 0 (ip_string_to_int32 w.ip_net s)

  unfoldable pub text_of : ℕ → String
  text_of ip = or_zero "" (int32_to_ip_string w.ip_net ip)

  unfoldable pub is_private_text : String → Bool
  unfolding is_private
  is_private_text s = is_private w.net w.contains s

  -- `cl.Ping`.
  unfoldable pub ask : List PingMeasurement → Engine C → Engine C × Option PingStream
  ask pms e = (record e { pings_asked = suc e.pings_asked }, w.ping e.pings_asked pms)

  -- The measurement of `issueRR`.
  unfoldable pub rr_measurement : String → String → Bool → PingMeasurement
  unfolding number_of
  rr_measurement src dst check = record {
    ping_src = number_of src;
    ping_dst = number_of dst;
    spoofer_addr = 0;
    s_addr = "";
    check_cache = check;
    is_spoof = false;
  }

  -- What `issueRR` makes of the first response of the first ping.
  abbrev pub hops_of_ping : Ping → List String → RrHops
  hops_of_ping p hops = record {
    rr_hops = hops;
    rr_measurement_id = p.revtr_measurement_id;
    rr_from_cache = p.from_cache;
  }

  unfoldable pub first_response :
      String → Ping → List (List ℕ) → Engine C → Option (Engine C × Option RrHops)
  unfolding process_rr
  first_response dst p [] e = some (e, none)
  first_response dst p (pr ∷ prs) e =
      process_rr w.cm w.ip_net dst non_spoofed true pr e.rt >>= λ done.
      some (record e { rt = done.0 }, some (hops_of_ping p done.1))

  unfoldable pub first_ping : String → List Ping → Engine C → Option (Engine C × Option RrHops)
  unfolding first_response
  first_ping dst [] e = some (e, none)
  first_ping dst (p ∷ ps) e = first_response dst p p.responses e

  unfoldable pub rr_answer :
      String → Engine C × Option PingStream → Option (Engine C × Option RrHops)
  unfolding first_ping
  rr_answer dst (e, none) = some (e, none)
  rr_answer dst (e, some st) = first_ping dst st.pings e

  -- `issueRR`.
  unfoldable pub issue_rr : String → String → Bool → Engine C → Option (Engine C × Option RrHops)
  unfolding ask rr_measurement rr_answer is_private_text
  issue_rr src dst check e =
      if is_private_text dst
      then some (e, none)
      else rr_answer dst (ask (rr_measurement src dst check ∷ []) e)

  -- A ping in the loop of `issueSpoofedRRImpl`.
  abbrev pub uncount : Ping → Engine C → Engine C
  uncount p e =
      if p.from_cache then record e { spoofed_rr_probes = e.spoofed_rr_probes +ℤ negsuc 0 } else e

  abbrev pub spoof_hops : Ping → List String → SpoofRrHops
  spoof_hops p hops = record { rr = hops_of_ping p hops; vp = text_of p.spoofed_from }

  unfoldable pub receive_one :
      String
      → Ping
      → List (List ℕ)
      → NatDict SpoofRrHops
      → Engine C
      → Option (Engine C × NatDict SpoofRrHops)
  unfolding process_rr text_of
  receive_one dst p [] rrs e = some (e, rrs)
  receive_one dst p (pr ∷ prs) rrs e =
      process_rr w.cm w.ip_net dst (text_of p.spoofed_from) true pr e.rt >>= λ done.
      some (record e { rt = done.0 }, store_at rrs p.spoofed_from (spoof_hops p done.1))

  -- The loop.
  unfoldable pub receive_all :
      String → List Ping → NatDict SpoofRrHops → Engine C → Option (Engine C × NatDict SpoofRrHops)
  unfolding receive_one
  receive_all dst [] rrs e = some (e, rrs)
  receive_all dst (p ∷ ps) rrs e =
      receive_one dst p p.responses rrs (uncount p e) >>= λ got. receive_all dst ps got.1 got.0

  unfoldable pub spoofed_answer :
      String → Engine C × Option PingStream → Option (Engine C × Option (NatDict SpoofRrHops))
  unfolding receive_all
  spoofed_answer dst (e, none) = some (e, none)
  spoofed_answer dst (e, some st) = receive_all dst st.pings [] e >>= λ got.
      some (got.0, if st.is_broken then none else some got.1)

  -- `issueSpoofedRRImpl`; both callers drop the answers where there is an error.
  unfoldable pub issue_spoofed_rr_impl :
      String → List PingMeasurement → Engine C → Option (Engine C × Option (NatDict SpoofRrHops))
  unfolding ask spoofed_answer
  issue_spoofed_rr_impl dst pms e = spoofed_answer dst (ask pms e)

  -- `issueSpoofedRR`.
  unfoldable pub spoofed_measurement : String → String → Bool → String → PingMeasurement
  unfolding number_of
  spoofed_measurement recv dst check spoofer = record {
    ping_src = number_of spoofer;
    ping_dst = number_of dst;
    spoofer_addr = number_of recv;
    s_addr = recv;
    check_cache = check;
    is_spoof = true;
  }

  unfoldable pub issue_spoofed_rr :
      String
      → String
      → List String
      → Bool
      → Engine C
      → Option (Engine C × Option (NatDict SpoofRrHops))
  unfolding issue_spoofed_rr_impl spoofed_measurement is_private_text
  issue_spoofed_rr recv dst spoofers check e =
      if is_private_text dst
      then some (e, none)
      else issue_spoofed_rr_impl dst (map (spoofed_measurement recv dst check) spoofers) e

  -- The measurements of `issueTunnelDestinationBasedCheckSpoofedRR`, which panics where there are
  -- fewer spoofers than sources.
  unfoldable pub tunnel_measurements :
      String → Bool → List String → List String → Option (List PingMeasurement)
  unfolding spoofed_measurement
  tunnel_measurements dst check [] spoofers = some []
  tunnel_measurements dst check (src ∷ srcs) [] = none
  tunnel_measurements dst check (src ∷ srcs) (spoofer ∷ spoofers) =
      tunnel_measurements dst check srcs spoofers >>= λ pms.
      some (record (spoofed_measurement src dst check spoofer) { spoofer_addr = 0 } ∷ pms)

  unfoldable pub issue_tunnel_check :
      List String
      → String
      → List String
      → Bool
      → Engine C
      → Option (Engine C × Option (NatDict SpoofRrHops))
  unfolding tunnel_measurements issue_spoofed_rr_impl
  issue_tunnel_check srcs dst spoofers check e =
      tunnel_measurements dst check srcs spoofers >>= λ pms. issue_spoofed_rr_impl dst pms e

  -- `randomRecSpoofSources`, in the `n`-th round; too few sources are a slice out of range.
  unfoldable pub rec_spoof_sources : List SiteVp → List String
  unfolding text_of
  rec_spoof_sources [] = []
  rec_spoof_sources (vp ∷ vps) =
      let rest = rec_spoof_sources vps in if vp.rec_spoof then text_of vp.site_ip ∷ rest else rest

  unfoldable pub random_rec_spoof_sources : ℕ → Option (List SiteVp) → Option (Option (List String))
  unfolding rec_spoof_sources
  random_rec_spoof_sources n none = some none
  random_rec_spoof_sources n (some vps) =
      let sources = w.shuffle (rec_spoof_sources vps) in
      if ltb (length sources) n then none else some (some (take n sources))
