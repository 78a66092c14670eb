-- ===== src/Revtr/Add/Rest.antt =====
-- One round of `AddSegments` of revtr/reverse_traceroute/revese_traceroute.go: the loop removal,
-- and what becomes of one segment.
use reverse_traceroute_publi.Base.{
  ℕ, ◌<◌, ◌≡◌, ◌≢◌, refl, ap, ◌⊎◌, inl, inr, true, false, List, [], ◌∷◌, String, some, ◌>>=◌,
  length, drop, ◌==◌, Bool-cases, arith, ℕ_discrete, >>=-eq-some, subst,
}
use reverse_traceroute_publi.StringUtil.{StringMap, in_array}
use reverse_traceroute_publi.StringUtil.Sets.{VisitsAll}
use reverse_traceroute_publi.Segment.{
  Segment, RevSegment, base, with_base, hops, type_of, last_hop, remove_hops, rev, dst_rev,
  dst_sym_rev, tr_to_src_rev, rr_rev, spoof_rr_rev, ts_adj_rev, spoof_ts_adj_rev,
  spoof_ts_adj_rev_ts_zero, spoof_ts_adj_rev_ts_zero_double_stamp,
}
use reverse_traceroute_publi.Segment.Removal.{
  trim_hops-drop, remove_hops-disjoint, last_hop-trim_hops,
}
use reverse_traceroute_publi.Segment.Create.{drop_last}
use reverse_traceroute_publi.ReversePath.{ReversePath, path_hops, add}
use reverse_traceroute_publi.ReversePath.Hops.{clone_path_lem}
use reverse_traceroute_publi.Revtr.{Revtr, is_dead_end}
use reverse_traceroute_publi.Revtr.Add.{
  push, Round, continues, returns, grows, add_live, round, without_loops,
}

pub base-with_base : (s : Segment) (rv : RevSegment) → base (with_base s rv) ≡ rv
unfolding base with_base
base-with_base (rev _) rv = refl
base-with_base (dst_rev _) rv = refl
base-with_base (dst_sym_rev _ tr n) rv = refl
base-with_base (tr_to_src_rev _ ts) rv = refl
base-with_base (rr_rev _) rv = refl
base-with_base (spoof_rr_rev _ s) rv = refl
base-with_base (ts_adj_rev _ b) rv = refl
base-with_base (spoof_ts_adj_rev _ b s) rv = refl
base-with_base (spoof_ts_adj_rev_ts_zero _ b s) rv = refl
base-with_base (spoof_ts_adj_rev_ts_zero_double_stamp _ b s) rv = refl

hops-with_base : (s : Segment) (rv : RevSegment) → hops (with_base s rv) ≡ rv.segment
hops-with_base s rv = ap (λ r. r.segment) (base-with_base s rv)

-- No hop of one list is in the other.
abbrev pub Disjoint : List String → List String → Type 0
Disjoint xs ys = (h : String) → in_array xs h ≡ true → in_array ys h ≡ false

-- `t` is what is left of a segment `s` that is added to `path`: an end of `s`, with a hop, that
-- meets `path` nowhere unless `s` is a traceroute to the source, which is taken whole.
abbrev pub IsRest : List String → Segment → Segment → Type 0
IsRest path s t =
    (0 < length (hops t))
    × ((k : ℕ) × (hops t ≡ drop k (hops s)))
    × (last_hop (base t) ≡ last_hop (base s))
    × ((type_of s ≡ 3) × (t ≡ s) ⊎ Disjoint path (hops t))

without_loops_cases :
    (visit : StringMap → StringMap) (cm : String → String) (path : List String) (s : Segment)
    → let removed = remove_hops visit cm path (base s) in
      (type_of s ≡ 3) × (without_loops visit cm path s ≡ (s, false))
      ⊎ (without_loops visit cm path s ≡ (with_base s removed.0, removed.1))
unfolding without_loops
without_loops_cases visit cm path s = elim (ℕ_discrete (type_of s) 3) [
  | yes e ↦ inl (e, rw e refl)
  | no ne ↦ inr (ground arith)
]

removed-IsRest :
    (visit : StringMap → StringMap) (all : VisitsAll visit) (cm : String → String)
    (path : List String) (s : Segment)
    → let removed = remove_hops visit cm path (base s) in
      removed.1 ≡ false
      → (length removed.0.segment == 0) ≡ false
      → IsRest path s (with_base s removed.0)
removed-IsRest visit all cm path s fine some_left =
    let removed = remove_hops visit cm path (base s) in
    rw (hops-with_base s removed.0, base-with_base s removed.0)
      (
        positive,
        unfold remove_hops in trim_hops-drop visit cm path (hops s),
        last_hop-trim_hops visit cm path (base s) positive,
        inr (λ h m. remove_hops-disjoint visit all cm path (base s) h fine m),
      )
  where
    positive : 0 < length (remove_hops visit cm path (base s)).0.segment
    positive = ground arith

-- What `AddSegments` adds of a segment, where the loop removal did not fail and left some of it.
pub without_loops-IsRest :
    (visit : StringMap → StringMap) (all : VisitsAll visit) (cm : String → String)
    (path : List String) (s : Segment)
    → (without_loops visit cm path s).1 ≡ false
    → (length (hops (without_loops visit cm path s).0) == 0) ≡ false
    → IsRest path s (without_loops visit cm path s).0
without_loops-IsRest visit all cm path s fine some_left =
    elim (without_loops_cases visit cm path s) [
      | inl (whole, e) ↦ rw e (positive s (rw e at some_left), (0, refl), refl, inl (whole, refl))
      | inr e ↦
          let removed = remove_hops visit cm path (base s) in
          rw e (
            removed-IsRest visit all cm path s (rw e at fine)
              (rw (hops-with_base s removed.0) at (rw e at some_left)))
    ]
  where
    positive : (s : Segment) → (length (hops s) == 0) ≡ false → 0 < length (hops s)
    positive s h = ground arith

abbrev pub Unchanged : Revtr → Revtr → Type 0
Unchanged rt rt' = (rt'.paths ≡ rt.paths) × (rt'.dead_end ≡ rt.dead_end)

-- What one round does.
abbrev pub RoundOf : ReversePath → Segment → Revtr → Round → Type 0
RoundOf current s rt (continues rt') = Unchanged rt rt'
RoundOf current s rt (returns rt') = Unchanged rt rt'
RoundOf current s rt (grows rt') =
    (t : Segment) × (rt'.paths ≡ add current t ∷ rt.paths)
    × (rt'.dead_end ≡ rt.dead_end)
    × (is_dead_end rt (last_hop (base s)) ≡ false)
    × IsRest (path_hops current) s t

some_inj {ℓ} : {A : Type ℓ} {a b : A} → some a ≡ some b → a ≡ b
some_inj e = cc

module _ (visit : StringMap → StringMap) (all : VisitsAll visit) (cm : String → String) where
  add_live-RoundOf :
      (current : ReversePath) (s : Segment) (front : List String) (rt : Revtr)
      → is_dead_end rt (last_hop (base s)) ≡ false
      → RoundOf current s rt (add_live visit cm current s front rt)
  unfolding add_live push
  add_live-RoundOf current s front rt live =
      let cut = without_loops visit cm (path_hops current) s in
      elim (Bool-cases cut.1) [
        | inl broken ↦ rw broken (refl, refl)
        | inr fine ↦ elim (Bool-cases (length (hops cut.0) == 0)) [
          | inl nothing ↦ rw (fine, nothing) (refl, refl)
          | inr some_left ↦
              rw (fine, some_left)
                (
                  cut.0,
                  ap (λ p. add p cut.0 ∷ rt.paths) (clone_path_lem current),
                  refl,
                  live,
                  without_loops-IsRest visit all cm (path_hops current) s fine some_left,
                )
        ]
      ]

  pub round-RoundOf :
      (current : ReversePath) (s : Segment) (rt : Revtr) (r : Round)
      → round visit cm current s rt ≡ some r
      → RoundOf current s rt r
  unfolding round
  round-RoundOf current s rt r e = elim (Bool-cases (is_dead_end rt (last_hop (base s)))) [
    | inl dead ↦ subst (RoundOf current s rt) (some_inj (rw dead at e)) (refl, refl)
    | inr live ↦
        let (front, cut_front, e') = >>=-eq-some (drop_last (hops s)) _ (rw live at e) in
        subst (RoundOf current s rt) (some_inj e') (add_live-RoundOf current s front rt live)
  ]

  -- A round panics only on a segment with no hop.
  pub round_total :
      (current : ReversePath) (s : Segment) (rt : Revtr)
      → hops s ≢ []
      → (r : Round) × (round visit cm current s rt ≡ some r)
  unfolding round drop_last
  round_total current s rt ne = elim (Bool-cases (is_dead_end rt (last_hop (base s)))) [
    | inl dead ↦ rw dead (_, refl)
    | inr live ↦ rw live (has_front (hops s) ne)
  ]
    where
      has_front :
          (xs : List String)
          → xs ≢ []
          → (r : Round) × ((drop_last xs >>= λ front. some (add_live visit cm current s front rt))
              ≡ some r)
      has_front [] ne = absurd (ne refl)
      has_front (x ∷ xs) ne = (_, refl)
