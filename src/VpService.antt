-- ===== src/VpService.antt =====
-- vpservice: the service that knows the vantage points, keeps those that do not work in quarantine
-- and chooses those that send spoofed probes.
pub mod Quarantines
pub mod Filters
pub mod Server
use reverse_traceroute_publi.Base.{ℕ, Bool, true, false, not, ◌&&◌, if◌then◌else◌, String}

-- `pb.VantagePoint`, as far as the service reads it.
pub record VantagePoint : Type 0 where
  pub ip : ℕ
  pub hostname : String
  pub site : String
  pub can_spoof : Bool
  pub can_record_route : Bool
  pub can_timestamp : Bool
  pub can_ping : Bool
  pub can_trace : Bool

-- `shouldQuarantine` of vpservice/server/server.go.
unfoldable pub should_quarantine : VantagePoint → Bool
should_quarantine vp =
    if not vp.can_ping
      && (not vp.can_trace
          && (not vp.can_record_route && (not vp.can_timestamp && not vp.can_spoof)))
    then true
    else false
