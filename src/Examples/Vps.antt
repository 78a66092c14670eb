-- ===== src/Examples/Vps.antt =====
-- The theorems on the quarantines of vantage points at concrete inputs.
use reverse_traceroute_publi.Base.{
  ℕ, ◌-◌, ◌^◌, ◌*◌, ◌<◌, ◌≡◌, refl, false, List, [], ◌∷◌, none, some, arith,
}
use reverse_traceroute_publi.VpService.{VantagePoint}
use reverse_traceroute_publi.VpService.Quarantines.{
  Quarantine, manual_quar, hour, new_default_quarantine, new_manual_quarantine,
  default_next_backoff,
}
use reverse_traceroute_publi.VpService.Quarantines.Backoff.{
  NextBackoff, default_next_backoff-NextBackoff, default_next_backoff_panics,
  new_default_quarantine-CanDouble,
}
use reverse_traceroute_publi.VpService.Server.{Readings, vp_map, try_unquarantine}
use reverse_traceroute_publi.VpService.Server.Released.{Judged, try_unquarantine-Judged}

-- A vantage point that can do nothing.
abbrev broken_vp : VantagePoint
broken_vp = record {
  ip = 1;
  hostname = "a";
  site = "s";
  can_spoof = false;
  can_record_route = false;
  can_timestamp = false;
  can_ping = false;
  can_trace = false;
}

abbrev fresh_quarantine : Quarantine
fresh_quarantine = new_default_quarantine broken_vp none 1 0

abbrev most_drawn : ℕ → ℕ
most_drawn n = n - 1

most_drawn-below : (n : ℕ) → 0 < n → most_drawn n < n
most_drawn-below n h = omega (arith, h)

default_next_backoff-NextBackoff_example :
    (next : Quarantine) × ((default_next_backoff ◌^◌ most_drawn 7 fresh_quarantine ≡ some next)
      × NextBackoff fresh_quarantine 7 next)
default_next_backoff-NextBackoff_example =
    default_next_backoff-NextBackoff ◌^◌ most_drawn (λ n h. refl) most_drawn-below 7
      fresh_quarantine (new_default_quarantine-CanDouble broken_vp 1 0)

-- The seventeenth attempt of a quarantine that began with a day.
abbrev old_quarantine : Quarantine
old_quarantine = record fresh_quarantine { attempt = 16 }

fresh_quarantine-doubles : old_quarantine.multiplier ≡ 2
unfolding new_default_quarantine
fresh_quarantine-doubles = refl

default_next_backoff_panics_example : default_next_backoff ◌^◌ most_drawn 7 old_quarantine ≡ none
unfolding new_default_quarantine
default_next_backoff_panics_example =
    default_next_backoff_panics ◌^◌ most_drawn (λ n h. refl) most_drawn-below 7 old_quarantine
      fresh_quarantine-doubles (omega arith) (omega arith) (omega arith)

abbrev a_day_later : ℕ → Readings
a_day_later i = record {
  at_expired = hour * 25;
  at_elapsed = hour * 25;
  at_backoff = hour * 25;
  drawn = most_drawn;
}

abbrev two_quarantines : List Quarantine
two_quarantines = fresh_quarantine ∷ new_manual_quarantine broken_vp hour ∷ []

manual_type : (new_manual_quarantine broken_vp hour).type ≡ manual_quar
unfolding new_manual_quarantine
manual_type = refl

try_unquarantine-Judged_example :
    Judged
      (vp_map [] (broken_vp ∷ []))
      a_day_later
      0
      two_quarantines
      (try_unquarantine ◌^◌ a_day_later (broken_vp ∷ []) two_quarantines)
try_unquarantine-Judged_example =
    try_unquarantine-Judged ◌^◌ a_day_later (broken_vp ∷ []) two_quarantines (λ n h. refl)
      (λ i. most_drawn-below)
      (
        (λ other. new_default_quarantine-CanDouble broken_vp 1 0),
        ((λ other. absurd (other manual_type)), tt),
      )
