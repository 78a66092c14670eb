-- ===== src/Runner/Engine.antt =====
-- What the steps of revtr/runner/revtr_runner.go work on: the state of a traceroute beside `Revtr`,
-- the options, and the services around them as a record of parameters.
--
-- `ping n` is what the controller answers to the call of `Ping` after `n` others, `none` for an
-- error. A stream of answers is the list of what `Recv` returns, and whether an error other than
-- `io.EOF` ends it. `contains cidr s` is `Contains` of the block, for `net.ParseIP(s)`.
use reverse_traceroute_publi.Base.{
  ℕ, Bool, false, not, ◌||◌, List, [], ◌∷◌, String, Option, ℤ, Dict, NatDict,
}
use reverse_traceroute_publi.StringUtil.{StringMap}
use reverse_traceroute_publi.Addresses.{IpNet}
use reverse_traceroute_publi.ClusterMap.{Cache}
use reverse_traceroute_publi.Segment.{Net, Segment, IntersectHopType, global_unicast}
use reverse_traceroute_publi.Revtr.{Revtr}
use reverse_traceroute_publi.Revtr.Probes.{Ranking}
use reverse_traceroute_publi.Revtr.Spoofers.{RankedSpoofers}
use reverse_traceroute_publi.Runner.Symmetric.{Step}

-- `datamodel.PingMeasurement`, without what is random or the same for every probe of the engine.
pub record PingMeasurement : Type 0 where
  pub ping_src : ℕ
  pub ping_dst : ℕ
  pub spoofer_addr : ℕ
  pub s_addr : String
  pub check_cache : Bool
  pub is_spoof : Bool

-- `datamodel.Ping`: of each response the addresses of its record route.
pub record Ping : Type 0 where
  pub spoofed_from : ℕ
  pub responses : List (List ℕ)
  pub revtr_measurement_id : ℤ
  pub from_cache : Bool

pub record PingStream : Type 0 where
  pub pings : List Ping
  pub is_broken : Bool

-- `types.RRHops` and `types.SpoofRRHops`.
pub record RrHops : Type 0 where
  pub rr_hops : List String
  pub rr_measurement_id : ℤ
  pub rr_from_cache : Bool

pub record SpoofRrHops : Type 0 where
  pub rr : RrHops
  pub vp : String

-- `types.DestinationBasedRoutingViolation`.
pub data RoutingViolation : Type 0 where
  no_check no_violation tunnel load_balancing : RoutingViolation

-- `apb.IntersectionResponse`, by its type.
pub record IntersectHop : Type 0 where
  pub hop_ip : ℕ
  pub intersect_hop_type : IntersectHopType

pub data IntersectionResponse : Type 0 where
  path : (address : ℕ) (traceroute_id : ℤ) → List IntersectHop → IntersectionResponse
  none_found : IntersectionResponse
  token : ℕ → IntersectionResponse

pub record IntersectionStream : Type 0 where
  pub found : List IntersectionResponse
  pub is_cut : Bool

-- A vantage point of `GetOneVPPerSite`.
pub record SiteVp : Type 0 where
  pub rec_spoof : Bool
  pub site_ip : ℕ

pub record Options : Type 0 where
  pub use_atlas : Bool
  pub check_tunnel : Bool
  pub use_timestamp : Bool
  pub use_cache : Bool

module _ (C : Type 0) where
  pub record World : Type 0 where
    pub net : Net
    pub ip_net : IpNet
    pub contains : String → String → Bool
    pub visit : StringMap → StringMap
    pub visit_rrs : NatDict SpoofRrHops → NatDict SpoofRrHops
    pub cm : String → String
    pub sorted : List Segment → List Segment
    pub rkc : Ranking
    pub ca : Cache C
    pub ping : ℕ → List PingMeasurement → Option PingStream
    pub get_one_vp_per_site : ℕ → Option (List SiteVp)
    pub shuffle : List String → List String
    pub intersecting_path : List ℕ → Option IntersectionStream
    pub now : ℕ

  -- The counters are those of the probes in `Stats`; that of spoofed probes may fall below zero.
  pub record Engine : Type 0 where
    pub rt : Revtr
    pub ranked : NatDict RankedSpoofers
    pub routing : Dict RoutingViolation
    pub cache : C
    pub pings_asked : ℕ
    pub rr_round_count : ℕ
    pub rr_probes : ℕ
    pub spoofed_rr_probes : ℤ
    pub routing_round_count : ℕ
    pub dest_based_rout_rr_probes : ℕ
    pub tr_to_src_round_count : ℕ
    pub tokens : List IntersectionResponse
    pub traceroute_id : ℤ
    pub fail_reason : String

  -- The state after a step, and the next step; `none` is a panic.
  abbrev pub Stepped : Type 0
  Stepped = Option (Engine × Option Step)

-- `privateIPBlocks` and `IsPrivate` of revtr/ip_utils/ip_util.go.
abbrev pub private_ip_blocks : List String
private_ip_blocks =
    "127.0.0.0/8" ∷ "10.0.0.0/8" ∷ "172.16.0.0/12" ∷ "192.168.0.0/16" ∷ "169.254.0.0/16" ∷ []

unfoldable pub is_in_block : (String → String → Bool) → List String → String → Bool
is_in_block contains [] ip = false
is_in_block contains (block ∷ blocks) ip = contains block ip || is_in_block contains blocks ip

unfoldable pub is_private : Net → (String → String → Bool) → String → Bool
unfolding is_in_block
is_private net contains ip =
    not (global_unicast net ip) || is_in_block contains private_ip_blocks ip
