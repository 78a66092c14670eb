-- ===== src/VpService/Filters.antt =====
-- vpservice/filters: the filters of vantage points, and the methods of vpservice/server/server.go that
-- use them. `visit` is the order in which `range` visits a map.
use reverse_traceroute_publi.Base.{
  ℕ, ◌%◌, ◌^◌, ◌&&◌, List, [], ◌∷◌, map, Option, none, some, length, take, ltb, leb, ◌==◌,
  if◌then◌else◌, Dict, store,
}
use reverse_traceroute_publi.VpService.{VantagePoint}

-- `RRVantagePoint` of vpservice/types/types.go.
pub record RrVantagePoint : Type 0 where
  pub vantage_point : VantagePoint
  pub dist : ℕ
  pub target : ℕ

-- `RRFilter`.
abbrev pub RrFilter : Type 0
RrFilter = List RrVantagePoint → List RrVantagePoint

-- The first loop of `OnePerSiteRR`.
unfoldable pub by_site : Dict RrVantagePoint → List RrVantagePoint → Dict RrVantagePoint
unfolding store
by_site filter [] = filter
by_site filter (vp ∷ rrvps) = by_site (store filter vp.vantage_point.site vp) rrvps

-- `OnePerSiteRR`.
unfoldable pub one_per_site_rr : (Dict RrVantagePoint → Dict RrVantagePoint) → RrFilter
unfolding by_site
one_per_site_rr visit rrvps = map (λ e. e.1) (visit (by_site [] rrvps))

-- `MakeRRDistanceFilter`.
unfoldable pub make_rr_distance_filter : ℕ → ℕ → RrFilter
make_rr_distance_filter min max [] = []
make_rr_distance_filter min max (vp ∷ rrvps) =
    let final = make_rr_distance_filter min max rrvps in
    if leb min vp.dist && leb vp.dist max then final else vp ∷ final

-- `ComposeRRFilter`.
unfoldable pub compose_rr_filter : List RrFilter → RrFilter
compose_rr_filter [] curr = curr
compose_rr_filter (filter ∷ fs) curr = compose_rr_filter fs (filter curr)

-- `makeRRF`.
unfoldable pub make_rrf : Option RrFilter → List RrVantagePoint → List VantagePoint
make_rrf none vps = map (λ vp. vp.vantage_point) vps
make_rrf (some f) vps = map (λ vp. vp.vantage_point) (f vps)

-- `defaultLimit`.
abbrev pub default_limit : ℕ
default_limit = 250

-- The limit of `GetRRSpoofers`.
abbrev pub limit_of : ℕ → ℕ
limit_of max = if max == 0 then default_limit else max

-- `GetRRSpoofers`, with what the provider answers: the limit and the spoofers.
unfoldable pub get_rr_spoofers :
    Option RrFilter → (ℕ → Option (List RrVantagePoint)) → ℕ → ℕ → Option (ℕ × List VantagePoint)
unfolding make_rrf
get_rr_spoofers rrf provider addr max = elim (provider addr) [
  | none ↦ none
  | some vps ↦
      let spoofers = make_rrf rrf vps in
      some (
        limit_of max,
        if ltb (limit_of max) (length spoofers % 2 ^ 32)
            then take (limit_of max) spoofers
            else spoofers,
      )
]
