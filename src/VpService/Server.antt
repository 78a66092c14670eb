-- ===== src/VpService/Server.antt =====
-- `tryUnquarantine` and the end of `checkCapabilities` of vpservice/server/server.go: who leaves the
-- quarantine and who enters it.
pub mod Released
use reverse_traceroute_publi.Base.{
  ℕ, zero, suc, Bool, true, false, not, List, [], ◌∷◌, Option, none, some, ◌>>=◌, if◌then◌else◌,
  Dict, fetch, store,
}
use reverse_traceroute_publi.VpService.{VantagePoint, should_quarantine}
use reverse_traceroute_publi.VpService.Quarantines.{
  Quarantine, cant_perform_measurement, expired, elapsed, next_backoff, new_default_quarantine,
}

-- `vpmap`, the vantage points by their host names.
unfoldable pub vp_map : Dict VantagePoint → List VantagePoint → Dict VantagePoint
unfolding store
vp_map m [] = m
vp_map m (vp ∷ vps) = vp_map (store m vp.hostname vp) vps

-- Whether the vantage point of a quarantine is known and up and running.
unfoldable pub is_up : Dict VantagePoint → Quarantine → Bool
unfolding fetch should_quarantine
is_up vpmap q = elim (fetch vpmap q.vp.hostname) [
  | none ↦ false
  | some vp ↦ not (should_quarantine vp)
]

-- The three readings of the clock for one quarantine, and what is drawn for it.
pub record Readings : Type 0 where
  pub at_expired : ℕ
  pub at_elapsed : ℕ
  pub at_backoff : ℕ
  pub drawn : ℕ → ℕ

-- `unquar` and `updateQuar`.
abbrev pub Verdict : Type 0
Verdict = List Quarantine × List Quarantine

abbrev pub release : Quarantine → Verdict → Verdict
release q v = (q ∷ v.0, v.1)

abbrev pub renew : Quarantine → Verdict → Verdict
renew q v = (v.0, q ∷ v.1)

module _ (pow : ℕ → ℕ → ℕ) (vpmap : Dict VantagePoint) (readings : ℕ → Readings) where
  -- What the loop does with the quarantine `q`, the `i`-th; `none` is a panic.
  unfoldable pub judge : ℕ → Quarantine → Option (Verdict → Verdict)
  unfolding expired elapsed next_backoff is_up
  judge i q =
      if expired (readings i).at_expired q
      then some (release q)
      else if elapsed (readings i).at_elapsed q
      then (if is_up vpmap q
          then some (release q)
          else next_backoff pow (readings i).drawn (readings i).at_backoff q >>= λ next.
              some (renew next))
      else some (λ v. v)

  -- The loop of `tryUnquarantine`.
  unfoldable pub judge_all : ℕ → List Quarantine → Option Verdict
  unfolding judge
  judge_all i [] = some ([], [])
  judge_all i (q ∷ qs) = do verdict ← judge i q; rest ← judge_all (suc i) qs; some (verdict rest)

-- A tick of `tryUnquarantine`, with what `GetAllVPs` and `GetQuarantined` answer.
unfoldable pub try_unquarantine :
    (ℕ → ℕ → ℕ) → (ℕ → Readings) → List VantagePoint → List Quarantine → Option Verdict
unfolding vp_map judge_all
try_unquarantine pow readings vps qs = judge_all pow (vp_map [] vps) readings 0 qs

-- The loop of `checkCapabilities` over the tested vantage points: the quarantines of those that can
-- not perform any measurement. `last` is `GetLastQuarantine`, `none` for an error, `now` the clock's
-- reading for a vantage point.
unfoldable pub capability_quarantines :
    (ℕ → Option Quarantine) → (VantagePoint → ℕ) → List VantagePoint → List Quarantine
unfolding should_quarantine new_default_quarantine
capability_quarantines last now [] = []
capability_quarantines last now (vp ∷ vpm) =
    let quarantines = capability_quarantines last now vpm in
    if should_quarantine vp
    then new_default_quarantine vp (last vp.ip) cant_perform_measurement (now vp) ∷ quarantines
    else quarantines
