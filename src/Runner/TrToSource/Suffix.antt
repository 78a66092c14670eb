-- ===== src/Runner/TrToSource/Suffix.antt =====
-- Which hops of a traceroute `intersectingTraceroute` of revtr/runner/revtr_runner.go keeps.
use reverse_traceroute_publi.Base.{
  ℕ, ◌≡◌, ◌≢◌, refl, ap, ◌⊎◌, inl, inr, true, false, List, [], ◌∷◌, ◌++◌, map, String, str_cases,
  eq_refl, str_ne,
}
use reverse_traceroute_publi.Runner.Engine.{IntersectHop}
use reverse_traceroute_publi.Runner.TrToSource.{from_intersection}

module _ (text : ℕ → String) (cm : String → String) (addr : String) where
  abbrev pub IsMet : IntersectHop → Type 0
  IsMet h = cm addr ≡ cm (text h.hop_ip)

  abbrev pub NoneMet : List IntersectHop → Type 0
  NoneMet [] = Unit
  NoneMet (h ∷ hs) = (cm addr ≢ cm (text h.hop_ip)) × NoneMet hs

  from_intersection-found :
      (hs : List IntersectHop)
      → from_intersection text cm addr true hs
        ≡ (map (λ h. text h.hop_ip) hs, map (λ h. h.intersect_hop_type) hs)
  unfolding from_intersection
  from_intersection-found [] = refl
  from_intersection-found (h ∷ hs) = rw (from_intersection-found hs) refl

  -- The hops that are kept of a traceroute: all of them from the first one on that is in the cluster
  -- of the intersection, each with its type, and none where no hop is in the cluster.
  pub from_intersection-Suffix :
      (hs : List IntersectHop)
      → (before : List IntersectHop) × (kept : List IntersectHop) × (hs ≡ before ++ kept)
        × NoneMet before
        × ((kept ≡ [])
            ⊎ ((h : IntersectHop) × (rest : List IntersectHop) × (kept ≡ h ∷ rest) × IsMet h))
        × (from_intersection text cm addr false hs
            ≡ (map (λ h. text h.hop_ip) kept, map (λ h. h.intersect_hop_type) kept))
  unfolding from_intersection
  from_intersection-Suffix [] = ([], [], refl, tt, inl refl, refl)
  from_intersection-Suffix (h ∷ hs) = elim (str_cases (cm addr) (cm (text h.hop_ip))) [
    | inl same ↦ (
      [],
      h ∷ hs,
      refl,
      tt,
      inr (h, hs, refl, same),
      rw (same, eq_refl (cm (text h.hop_ip)), from_intersection-found hs) refl,
    )
    | inr other ↦
        let (before, kept, split, none_met, first, answer) = from_intersection-Suffix hs in
        (
          h ∷ before,
          kept,
          ap (λ hs. h ∷ hs) split,
          (str_ne (cm addr) (cm (text h.hop_ip)) other, none_met),
          first,
          rw (other) answer,
        )
  ]
