-- ===== src/Revtr/Probes/Vps.antt =====
-- `GetRRVPs` of revtr/reverse_traceroute/revese_traceroute.go: which vantage points it hands out,
-- and that no vantage point is handed out twice for a hop.
use reverse_traceroute_publi.Base.{
  true, ℕ, zero, suc, ◌+◌, ◌<◌, ◌≡◌, refl, sym, ap, ◌∙◌, ◌⊎◌, inl, inr, false, List, [], ◌∷◌, ◌++◌,
  map, String, str_eq, eq_refl, some, length, length-append, take, drop, ◌==◌, if◌then◌else◌, Dict,
  fetch, fetch-store, or_zero, arith, Bool-cases, append-nil, append_assoc,
}
use reverse_traceroute_publi.StringUtil.{in_array, non_spoofed}
use reverse_traceroute_publi.Revtr.{Revtr, Source}
use reverse_traceroute_publi.Revtr.Probes.{
  vps_left, has_failed_ingress, choose_vps, batch_size, vps_of, drop_vps, next_vps,
}

-- The addresses of the vantage points whose ingress has not failed.
unfoldable pub usable_vps : Dict ℕ → List Source → List String
usable_vps failed [] = []
usable_vps failed (vp ∷ vps) =
    if has_failed_ingress failed vp then usable_vps failed vps else vp.ip ∷ usable_vps failed vps

-- A batch takes the next `k` vantage points, and uses those whose ingress has not failed: `min` of
-- them, or all that there are.
abbrev pub IsBatch : Dict ℕ → ℕ → List Source → ℕ → List String → Type 0
IsBatch failed min vps k touse =
    (touse ≡ usable_vps failed (take k vps))
    × ((length touse ≡ min) ⊎ (take k vps ≡ vps) × (length touse < min))

abbrev Chooses : Dict ℕ → ℕ → ℕ → List String → List Source → ℕ × List String → Type 0
Chooses failed min i touse vps r =
    (k : ℕ) × (r.0 ≡ i + k)
    × (r.1 ≡ touse ++ usable_vps failed (take k vps))
    × ((length r.1 ≡ min) ⊎ (take k vps ≡ vps) × (length r.1 < min))

one_more :
    (failed : Dict ℕ) (min i : ℕ) (touse : List String) (vp : Source) (vps : List Source)
    (added : List String) (r : ℕ × List String)
    → ((k : ℕ) → usable_vps failed (vp ∷ take k vps) ≡ added ++ usable_vps failed (take k vps))
    → Chooses failed min (suc i) (touse ++ added) vps r
    → Chooses failed min i touse (vp ∷ vps) r
one_more failed min i touse vp vps added r step (k, at, chosen, stop) = (
  suc k,
  omega arith,
  chosen
      ∙ append_assoc touse added (usable_vps failed (take k vps))
      ∙ ap (◌++◌ touse) (sym (step k)),
  later stop,
)
  where
    later :
        (length r.1 ≡ min) ⊎ (take k vps ≡ vps) × (length r.1 < min)
        → (length r.1 ≡ min) ⊎ (vp ∷ take k vps ≡ vp ∷ vps) × (length r.1 < min)
    later (inl e) = inl e
    later (inr (all, few)) = inr (ap (◌∷◌ vp) all, few)

choose_vps-Chooses :
    (failed : Dict ℕ) (min i : ℕ) (touse : List String) (vps : List Source)
    → length touse < min
    → Chooses failed min i touse vps (choose_vps failed min i touse vps)
unfolding choose_vps
choose_vps-Chooses failed min i touse [] h =
    (0, omega arith, unfold usable_vps in sym (append-nil touse), inr (refl, h))
choose_vps-Chooses failed min i touse (vp ∷ vps) h =
    elim (Bool-cases (has_failed_ingress failed vp)) [
      | inl bad ↦ rw bad (
          one_more failed min i touse vp vps [] _ (λ k. unfold usable_vps in rw bad refl)
            (rw (append-nil touse) (choose_vps-Chooses failed min (suc i) touse vps h)))
      | inr good ↦
          let used = touse ++ (vp.ip ∷ []) in
          elim (Bool-cases (length used == min)) [
            | inl full ↦
                rw (good, full)
                  (1, omega arith, ap (◌++◌ touse) (sym (last_one good)), inl (ground arith))
            | inr room ↦
                rw (good, room)
                  (one_more failed min i touse vp vps (vp.ip ∷ []) _
                    (λ k. unfold usable_vps in rw good refl)
                    (choose_vps-Chooses failed min (suc i) used vps (grew room)))
          ]
    ]
  where
    last_one : has_failed_ingress failed vp ≡ false → usable_vps failed (vp ∷ []) ≡ vp.ip ∷ []
    last_one good = unfold usable_vps in rw good refl

    grew : (length (touse ++ (vp.ip ∷ [])) == min) ≡ false → length (touse ++ (vp.ip ∷ [])) < min
    grew room = ground (arith, length-append touse (vp.ip ∷ []))

-- No vantage point is the target itself.
abbrev pub NotTarget : List Source → Type 0
NotTarget left = in_array (map (λ vp. vp.ip) left) non_spoofed ≡ false

vps_left-drop_vps :
    (i : ℕ) (target : String) (rt : Revtr) (left : List Source) (other : String)
    → vps_left (drop_vps i target rt left) other
      ≡ (if str_eq target other then drop i left else vps_left rt other)
vps_left-drop_vps i target rt left other =
    ground (arith, fetch-store rt.rr_hop_vps_left target other (drop i left))

target_dropped :
    (i : ℕ) (target : String) (rt : Revtr) (left : List Source)
    → vps_left (drop_vps i target rt left) target ≡ drop i left
target_dropped i target rt left =
    vps_left-drop_vps i target rt left target ∙ rw (eq_refl target) refl

others_kept :
    (i : ℕ) (target other : String) (rt : Revtr) (left : List Source)
    → vps_left (drop_vps i target rt left) other ≡ (
        if str_eq target other
        then vps_left (drop_vps i target rt left) target
        else vps_left rt other)
others_kept i target other rt left =
    vps_left-drop_vps i target rt left other
    ∙ ap (λ t. if str_eq target other then t else vps_left rt other)
        (sym (target_dropped i target rt left))

-- What becomes of the vantage points of `target`, from `old` to `new`, and those handed out.
abbrev pub HandsOut : Dict ℕ → ℕ → List Source → List Source → List String → Type 0
HandsOut failed rate old new touse =
    ((in_array (map (λ v. v.ip) old) non_spoofed ≡ true)
      × (touse ≡ non_spoofed ∷ [])
      × (new ≡ drop 1 old))
    ⊎ NotTarget old
      × ((k : ℕ) × (0 < k) × (new ≡ drop k old) × IsBatch failed (batch_size rate old) old k touse)

batch_pos :
    (failed : Dict ℕ) (rate : ℕ) (vp : Source) (vps : List Source)
    → 0 < rate
    → 0 < batch_size rate (vp ∷ vps)
batch_pos failed rate vp vps h = ground arith

usable_vps-nil : (failed : Dict ℕ) → usable_vps failed [] ≡ []
unfolding usable_vps
usable_vps-nil failed = refl

some_looked_at :
    (failed : Dict ℕ) (rate : ℕ) (vp : Source) (vps : List Source) (k : ℕ) (touse : List String)
    → 0 < rate
    → IsBatch failed (batch_size rate (vp ∷ vps)) (vp ∷ vps) k touse
    → 0 < k
some_looked_at failed rate vp vps (suc k) touse h b = omega arith
some_looked_at failed rate vp vps zero touse h (used, inl full) =
    absurd (
      omega (arith, ap length (used ∙ usable_vps-nil failed), full, batch_pos failed rate vp vps h))
some_looked_at failed rate vp vps zero touse h (used, inr (none_left, few)) = cc

vps_of-HandsOut :
    (target other : String) (rt : Revtr) (vp : Source) (vps : List Source) (rate : ℕ)
    → fetch rt.rr_hop_rate_limit target ≡ some rate
    → 0 < rate
    → let next = vps_of target rt (vp ∷ vps) in
      (vps_left next.0 other
        ≡ (if str_eq target other then vps_left next.0 target else vps_left rt other))
      × HandsOut
          (or_zero [] (fetch rt.failed_ingress target))
          rate
          (vp ∷ vps)
          (vps_left next.0 target)
          next.1
unfolding vps_of
vps_of-HandsOut target other rt vp vps rate limit h =
    let failed = or_zero [] (fetch rt.failed_ingress target) in
    let left = vp ∷ vps in
    elim (Bool-cases (in_array (map (λ v. v.ip) left) non_spoofed)) [
      | inl direct ↦
          rw direct
            (others_kept 1 target other rt left, inl (refl, refl, target_dropped 1 target rt left))
      | inr spoofed ↦
          let (k, at, chosen, stop) =
            choose_vps-Chooses failed (batch_size rate left) 0 [] left
              (batch_pos failed rate vp vps h) in
          let n = (choose_vps failed (batch_size rate left) 0 [] left).0 in
          let e : n ≡ k = omega arith in
          let batch : IsBatch failed (batch_size rate left) left k
              (choose_vps failed (batch_size rate left) 0 [] left).1 =
            (chosen, stop) in
          rw (spoofed, limit)
            (
              others_kept n target other rt left,
              inr (
                refl,
                (
                  k,
                  some_looked_at failed rate vp vps k _ h batch,
                  target_dropped n target rt left ∙ ap (λ m. drop m left) e,
                  batch,
                ),
              ),
            )
    ]

-- What `GetRRVPs` does with the vantage points `left` of its target, at the hop's rate limit. While
-- the target itself is among them, it alone is probed, and the first of the list is dropped.
-- Otherwise a batch is used: from the front, as many as the rate limit says or all that are left,
-- without those whose ingress has failed. Those looked at are dropped, so a batch is never repeated
-- and fewer are left; no other hop's are touched.
pub next_vps-HandsOut :
    (target other : String) (rt : Revtr) (vp : Source) (vps : List Source) (rate : ℕ)
    → vps_left rt target ≡ vp ∷ vps
    → fetch rt.rr_hop_rate_limit target ≡ some rate
    → 0 < rate
    → let next = next_vps target rt in
      (vps_left next.0 other
        ≡ (if str_eq target other then vps_left next.0 target else vps_left rt other))
      × HandsOut
          (or_zero [] (fetch rt.failed_ingress target))
          rate
          (vp ∷ vps)
          (vps_left next.0 target)
          next.1
unfolding next_vps
next_vps-HandsOut target other rt vp vps rate left limit h =
    rw left (vps_of-HandsOut target other rt vp vps rate limit h)
