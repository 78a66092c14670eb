-- ===== src/Revtr/Probes/Adjacents.antt =====
-- `GetTSAdjacents` of revtr/reverse_traceroute/revese_traceroute.go: which adjacencies it hands out.
use reverse_traceroute_publi.Base.{
  ℕ, ◌≡◌, refl, sym, ap, ◌∙◌, List, [], ◌++◌, String, str_eq, eq_refl, str_cases, length,
  length-take, take, drop, take-append-drop, ltb, ◌==◌, if◌then◌else◌, fetch, store, fetch-store,
  or_zero, arith, Bool-cases, inl, inr, min,
}
use reverse_traceroute_publi.Revtr.{Revtr}
use reverse_traceroute_publi.Revtr.Probes.{next_adjacents}

abbrev pub adjs_left : Revtr → String → List String
adjs_left rt hop = or_zero [] (fetch rt.ts_hop_adjs_left hop)

-- The number of adjacencies to probe at a time.
abbrev pub rate_of : Revtr → String → ℕ
rate_of rt hop = or_zero 1 (fetch rt.ts_hop_rate_limit hop)

abbrev stored : String → Revtr → List String → Revtr
stored hop rt adjs = record rt { ts_hop_adjs_left = store rt.ts_hop_adjs_left hop adjs }

adjs_left-stored :
    (hop other : String) (rt : Revtr) (adjs : List String)
    → adjs_left (stored hop rt adjs) other ≡ (if str_eq hop other then adjs else adjs_left rt other)
adjs_left-stored hop other rt adjs = ground (arith, fetch-store rt.ts_hop_adjs_left hop other adjs)

adjs_left-stored_self :
    (hop : String) (rt : Revtr) (adjs : List String) → adjs_left (stored hop rt adjs) hop ≡ adjs
adjs_left-stored_self hop rt adjs = adjs_left-stored hop hop rt adjs ∙ rw (eq_refl hop) refl

same_left :
    (hop other : String) (rt : Revtr)
    → adjs_left rt other ≡ (if str_eq hop other then adjs_left rt hop else adjs_left rt other)
same_left hop other rt = elim (str_cases hop other) [
  | inl e ↦ rw (ap (λ t. str_eq t other) e ∙ eq_refl other) (ap (adjs_left rt) (sym e))
  | inr ne ↦ rw ne refl
]

-- `GetTSAdjacents`, once the adjacencies of the hop are known, hands out those that are left from
-- the front, as many as the hop's rate says or all; those handed out and those then left are those
-- that were left before, and those of another hop stay as they are.
pub next_adjacents-take :
    (hop other : String) (rt : Revtr)
    → let next = next_adjacents hop rt in
      (next.1 ++ adjs_left next.0 hop ≡ adjs_left rt hop)
      × (length next.1 ≡ min (rate_of rt hop) (length (adjs_left rt hop)))
      × (adjs_left next.0 other
          ≡ (if str_eq hop other then adjs_left next.0 hop else adjs_left rt other))
unfolding next_adjacents
next_adjacents-take hop other rt =
    let left = adjs_left rt hop in
    let rate = rate_of rt hop in
    let n = if ltb (length left) rate then length left else rate in
    elim (Bool-cases (length left == 0)) [
      | inl empty ↦ rw empty (refl, ground arith, same_left hop other rt)
      | inr more ↦ rw more (
        ap (λ t. take n left ++ t) (adjs_left-stored_self hop rt (drop n left))
            ∙ take-append-drop n left,
        ground (arith, length-take n left),
        adjs_left-stored hop other rt (drop n left)
            ∙ ap (λ t. if str_eq hop other then t else adjs_left rt other)
                (sym (adjs_left-stored_self hop rt (drop n left))),
      )
    ]
