-- ===== src/Runner/ProcessRr/Clean.antt =====
-- What `processRR` of revtr/runner/revtr_runner.go answers for a probe that came past the
-- destination.
use reverse_traceroute_publi.Base.{
  ℕ, zero, suc, ◌-◌, ◌≤◌, ◌<◌, ◌≡◌, refl, ap, ◌∙◌, ◌⊎◌, inl, inr, true, false, List, [], ◌∷◌, ◌++◌,
  map, String, str_eq, str_eq_comm, Option, Bool-cases, none, some, ◌>>=◌, length, length-append,
  get_or, drop, ◌==◌, if◌then◌else◌, arith,
}
use reverse_traceroute_publi.StringUtil.{in_array}
use reverse_traceroute_publi.Addresses.{IpNet}
use reverse_traceroute_publi.Revtr.{Revtr}
use reverse_traceroute_publi.Runner.ProcessRr.{
  hop_text, find_cluster_below, skip_loops, hops_behind, process_texts, process_rr,
}
use reverse_traceroute_publi.Runner.ProcessRr.Loops.{NoRepeat, Skipped, end_or, skip_loops-Skipped}

drop-get_or :
    (hopss : List String) (i : ℕ)
    → i < length hopss
    → drop i hopss ≡ get_or hopss i "" ∷ drop (suc i) hopss
drop-get_or [] i lt = elim lt [ ]
drop-get_or (h ∷ hopss) zero lt = refl
drop-get_or (h ∷ hopss) (suc i) lt = drop-get_or hopss i (omega arith)

-- The search, where the cluster is not behind `i`: the cluster is nowhere, or the index is that of
-- its last hop.
find_cluster_below_cases :
    (cm : String → String) (c : String) (hopss : List String) (i : ℕ)
    → i ≤ length hopss
    → in_array (map cm (drop i hopss)) c ≡ false
    → (in_array (map cm hopss) c ≡ false)
      ⊎ ((k : ℕ) × (find_cluster_below cm c hopss i ≡ some k)
          × (k < i)
          × (in_array (map cm (drop (suc k) hopss)) c ≡ false))
unfolding find_cluster_below in_array
find_cluster_below_cases cm c hopss zero le out = inl out
find_cluster_below_cases cm c hopss (suc i) le out =
    elim (Bool-cases (str_eq c (cm (get_or hopss i "")))) [
      | inl same ↦ inr (i, rw (same, if◌then◌else◌), omega arith, out)
      | inr ne ↦
          let out_too : in_array (map cm (drop i hopss)) c ≡ false =
            ap (λ t. in_array (map cm t) c) (drop-get_or hopss i (omega arith))
            ∙ rw (str_eq_comm (cm (get_or hopss i "")) c, ne, if◌then◌else◌) out in
          elim (find_cluster_below_cases cm c hopss i (omega arith) out_too) [
            | inl nowhere ↦ inl nowhere
            | inr (k, found, lt, last) ↦ inr (k, rw (ne, if◌then◌else◌) found, omega arith, last)
          ]
    ]

map-drop :
    (cm : String → String) (hopss : List String) (i : ℕ)
    → map cm (drop i hopss) ≡ drop i (map cm hopss)
map-drop cm hopss zero = refl
map-drop cm [] (suc i) = refl
map-drop cm (h ∷ hopss) (suc i) = map-drop cm hopss i

get_or-end : (front : List String) (s : String) → get_or (front ++ (s ∷ [])) (length front) "" ≡ s
get_or-end [] s = refl
get_or-end (t ∷ front) s = get_or-end front s

drop-end : (front : List String) (s : String) → drop (length front) (front ++ (s ∷ [])) ≡ s ∷ []
drop-end [] s = refl
drop-end (t ∷ front) s = drop-end front s

end_or-drop_end :
    (s d : String) (front : List String) (i : ℕ)
    → i ≤ length front
    → end_or d (drop i (front ++ (s ∷ []))) ≡ s
end_or-drop_end s d [] zero le = refl
end_or-drop_end s d [] (suc i) le = absurd (omega arith)
end_or-drop_end s d (t ∷ front) zero le = end_or-drop_end s t front 0 (omega arith)
end_or-drop_end s d (t ∷ front) (suc i) le = end_or-drop_end s d front i (omega arith)

map-append :
    {A : Type 0} (f : A → String) (xs ys : List A) → map f (xs ++ ys) ≡ map f xs ++ map f ys
map-append f [] ys = refl
map-append f (x ∷ xs) ys = ap (◌∷◌ (f x)) (map-append f xs ys)

unskip :
    (cm : String → String) (c : String) (behind : List String) (o : Option (List String))
    → Skipped cm behind 0 o
    → in_array (map cm behind) c ≡ false
    → (out : List String) × (o ≡ some out)
      × NoRepeat (map cm out)
      × (in_array (map cm out) c ≡ false)
      × (end_or "" out ≡ end_or "" behind)
unskip cm c behind none h missing = absurd h
unskip cm c behind (some out) (distinct, from, end) missing =
    (out, refl, distinct, from c missing, end "")

-- What is answered of the hops behind the index `i`.
hops_behind-Skipped :
    (cm : String → String) (c : String) (hopss : List String) (i : ℕ)
    → suc i < length hopss
    → in_array (map cm (drop (suc i) hopss)) c ≡ false
    → (out : List String) × (hops_behind cm true hopss i ≡ some out)
      × NoRepeat (map cm out)
      × (in_array (map cm out) c ≡ false)
      × (end_or "" out ≡ end_or "" (drop (suc i) hopss))
unfolding hops_behind
hops_behind-Skipped cm c hopss i lt missing =
    let not_end : (suc i == length hopss) ≡ false = ground arith in
    let behind : List String = drop (suc i) hopss in
    rw (not_end, if◌then◌else◌)
      (unskip cm c behind (skip_loops (suc (length behind)) (map cm behind) behind 0)
        (skip_loops-Skipped (suc (length behind)) cm behind 0 (omega arith) (omega arith)) missing)

in_array-front :
    (cm : String → String) (front back : List String) (c : String)
    → in_array (map cm front) c ≡ true
    → in_array (map cm (front ++ back)) c ≡ true
unfolding in_array
in_array-front cm [] back c h = cc
in_array-front cm (t ∷ front) back c h = ground (arith, in_array-front cm front back c)

-- `processRR` where the search finds the index `k`.
process_texts-found :
    (cm : String → String) (dst spoofer : String) (front : List String) (end : String) (rt : Revtr)
    (k : ℕ) (hops : List String)
    → str_eq (cm end) (cm dst) ≡ false
    → find_cluster_below cm (cm dst) (front ++ (end ∷ [])) (length front) ≡ some k
    → hops_behind cm true (front ++ (end ∷ [])) k ≡ some hops
    → process_texts cm dst spoofer true (front ++ (end ∷ [])) rt ≡ some (rt, hops)
unfolding process_texts
process_texts-found cm dst spoofer front end rt k hops other found behind =
    let hopss : List String = front ++ (end ∷ []) in
    let size : length hopss ≡ suc (length front) = omega (arith, length-append front (end ∷ [])) in
    let some_hops : (length hopss == 0) ≡ false = ground arith in
    let last_index : length hopss - 1 ≡ length front = omega arith in
    let last_cluster : cm (get_or hopss (length hopss - 1) "") ≡ cm end =
      ap cm (ap (λ i. get_or hopss i "") last_index ∙ get_or-end front end) in
    rw (some_hops, if◌then◌else◌, last_cluster, other, last_index, found, behind, ◌>>=◌)

process_texts-NoRepeat :
    (cm : String → String) (dst spoofer : String) (front : List String) (end : String) (rt : Revtr)
    → in_array (map cm front) (cm dst) ≡ true
    → str_eq (cm end) (cm dst) ≡ false
    → (out : List String) × (process_texts cm dst spoofer true (front ++ (end ∷ [])) rt
        ≡ some (rt, out))
      × NoRepeat (map cm out)
      × (in_array (map cm out) (cm dst) ≡ false)
      × (end_or "" out ≡ end)
unfolding in_array
process_texts-NoRepeat cm dst spoofer front end rt past other =
    let hopss : List String = front ++ (end ∷ []) in
    let size : length hopss ≡ suc (length front) = omega (arith, length-append front (end ∷ [])) in
    let out : in_array (map cm (drop (length front) hopss)) (cm dst) ≡ false =
      ap (λ t. in_array (map cm t) (cm dst)) (drop-end front end) ∙ ground arith in
    elim (find_cluster_below_cases cm (cm dst) hopss (length front) (omega arith) out) [
      | inl nowhere ↦ absurd (cc (nowhere, in_array-front cm front (end ∷ []) (cm dst) past))
      | inr (k, found, lt, last) ↦
          let (hops, behind, distinct, missing, ends) =
            hops_behind-Skipped cm (cm dst) hopss k (omega arith) last in
          (
            hops,
            process_texts-found cm dst spoofer front end rt k hops other found behind,
            distinct,
            missing,
            ends ∙ end_or-drop_end end "" front (suc k) (omega arith),
          )
    ]

-- Where the answer has a hop of the destination's cluster before its last hop, which is of another
-- cluster, `processRR` succeeds and changes nothing: the hops that it answers end with the last hop,
-- none of them is of the destination's cluster, and no two of them are of the same cluster.
pub process_rr-NoRepeat :
    (cm : String → String) (net : IpNet) (dst spoofer : String) (hops : List ℕ) (end : ℕ)
    (rt : Revtr)
    → in_array (map cm (map (hop_text net) hops)) (cm dst) ≡ true
    → str_eq (cm (hop_text net end)) (cm dst) ≡ false
    → (out : List String) × (process_rr cm net dst spoofer true (hops ++ (end ∷ [])) rt
        ≡ some (rt, out))
      × NoRepeat (map cm out)
      × (in_array (map cm out) (cm dst) ≡ false)
      × (end_or "" out ≡ hop_text net end)
unfolding process_rr
process_rr-NoRepeat cm net dst spoofer hops end rt past other =
    let (out, done, distinct, missing, ends) =
      process_texts-NoRepeat cm dst spoofer (map (hop_text net) hops) (hop_text net end) rt past
        other in
    (
      out,
      ap (λ t. process_texts cm dst spoofer true t rt) (map-append (hop_text net) hops (end ∷ []))
          ∙ done,
      distinct,
      missing,
      ends,
    )
