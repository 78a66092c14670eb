-- ===== src/Revtr/Background/Trim.antt =====
-- The path that `AddBackgroundTRSegment` of revtr/reverse_traceroute/revese_traceroute.go cuts.
use reverse_traceroute_publi.Base.{
  ℕ, zero, suc, ◌+◌, ◌*◌, ◌≤◌, ◌<◌, ◌≡◌, refl, ap, ◌∙◌, Bool-cases, inl, inr, ◌⊎◌, List, [], ◌∷◌,
  ◌++◌, String, Option, some, length, length-append, ltb, if◌then◌else◌, arith, ltb→lt, lt→ltb,
  not_ltb→le, subst, sym, none,
}
use reverse_traceroute_publi.Segment.{Segment, hops}
use reverse_traceroute_publi.ReversePath.{ReversePath, path_hops}
use reverse_traceroute_publi.ReversePath.Hops.{all_hops, path_hops-all_hops, all_hops-append}
use reverse_traceroute_publi.Revtr.Background.{
  behind_hop, cut_step, cut_path, done, past, across, in_front,
}
use reverse_traceroute_publi.Revtr.Background.Crossed.{cut_segment-length}

-- In a segment that goes across the index, the hop is not behind the index.
abbrev pub IsReached : ℕ → String → ℕ → List Segment → Type 0
IsReached index first k [] = Unit
IsReached index first k (s ∷ path) =
    (suc index < k + length (hops s) → k ≤ index → behind_hop (hops s) first + k ≤ suc index)
    × IsReached index first (k + length (hops s)) path

past-IsReached :
    (index : ℕ) (first : String) (k : ℕ) (path : List Segment)
    → index < k
    → IsReached index first k path
past-IsReached index first k [] h = tt
past-IsReached index first k (s ∷ path) h = (
  (λ long le. absurd (omega (arith, h, le))),
  past-IsReached index first (k + length (hops s)) path (omega (arith, h)),
)

length-path_hops :
    (chunk : ReversePath) (before rest : List Segment)
    → length (path_hops (record chunk { path = before ++ rest }))
      ≡ length (all_hops before) + length (all_hops rest)
length-path_hops chunk before rest =
    ap length
      (path_hops-all_hops (record chunk { path = before ++ rest }) ∙ all_hops-append before rest)
    ∙ length-append (all_hops before) (all_hops rest)

-- The segments that begin behind the index.
abbrev pub segs_behind : ℕ → ℕ → List Segment → List Segment
segs_behind index k [] = []
segs_behind index k (s ∷ path) =
    let later = segs_behind index (k + length (hops s)) path in
    if ltb index k then s ∷ path else later

segs_behind-all : (index k : ℕ) (path : List Segment) → index < k → segs_behind index k path ≡ path
segs_behind-all index k [] late = refl
segs_behind-all index k (s ∷ path) late = rw (lt→ltb index k late) refl

segs_behind-cons :
    (index k : ℕ) (s : Segment) (path : List Segment)
    → k ≤ index
    → segs_behind index k (s ∷ path) ≡ segs_behind index (k + length (hops s)) path
segs_behind-cons index k s path early = elim (Bool-cases (ltb index k)) [
  | inl late ↦ absurd (omega (arith, early, ltb→lt index k late))
  | inr e ↦ rw (e) refl
]

-- Those behind a segment that goes across the index, before and after it is cut.
segs_behind-across :
    (index k : ℕ) (s t : Segment) (path : List Segment)
    → k ≤ index
    → index < k + length (hops s)
    → index < k + length (hops t)
    → segs_behind index k (t ∷ path) ≡ segs_behind index k (s ∷ path)
segs_behind-across index k s t path early long_s long_t =
    segs_behind-cons index k t path early
    ∙ segs_behind-all index (k + length (hops t)) path long_t
    ∙ sym (segs_behind-all index (k + length (hops s)) path long_s)
    ∙ sym (segs_behind-cons index k s path early)

-- What a round of the loop finds.
cut_step_cases :
    (index k len total : ℕ)
    → ((cut_step index k len total ≡ done) × (total ≤ suc index))
      ⊎ (((cut_step index k len total ≡ past) × (index < k))
          ⊎ (((cut_step index k len total ≡ across) × ((k ≤ index) × (suc index < k + len)))
              ⊎ ((cut_step index k len total ≡ in_front)
                  × ((k + len ≤ suc index) × (suc index < total)))))
unfolding cut_step
cut_step_cases index k len total = elim (Bool-cases (ltb (suc index) total)) [
  | inr e ↦ inl (rw (e) refl, not_ltb→le (suc index) total e)
  | inl more ↦ elim (Bool-cases (ltb index k)) [
    | inl e ↦ inr (inl (rw (more, e) refl, ltb→lt index k e))
    | inr early ↦ elim (Bool-cases (ltb (suc index) (k + len))) [
      | inl e ↦ inr (
          inr (
            inl (
              rw (more, early, e) refl,
              (not_ltb→le index k early, ltb→lt (suc index) (k + len) e),
            )))
      | inr e ↦ inr (
          inr (
            inr (
              rw (more, early, e) refl,
              (not_ltb→le (suc index) (k + len) e, ltb→lt (suc index) total more),
            )))
    ]
  ]
]

in_front-length :
    (before : List Segment) (s : Segment) (k : ℕ)
    → k ≡ length (all_hops before)
    → k + length (hops s) ≡ length (all_hops (before ++ (s ∷ [])))
unfolding all_hops
in_front-length before s k eq = omega (
  arith,
  eq,
  ap length (all_hops-append before (s ∷ [])),
  length-append (all_hops before) (hops s ++ []),
  length-append (hops s) [],
)

-- The rounds that the loop may take.
abbrev pub rounds : ℕ → ℕ → List Segment → ℕ
rounds index k [] = 1
rounds index k (s ∷ ss) =
    2 * suc (length ss) + (if ltb (suc index) (k + length (hops s)) then 1 else 0)

pub rounds-length :
    (index k : ℕ) (path : List Segment) → rounds index k path ≤ suc (2 * length path)
rounds-length index k [] = omega arith
rounds-length index k (s ∷ ss) = elim (Bool-cases (ltb (suc index) (k + length (hops s)))) [
  | inl e ↦ rw (e) (omega arith)
  | inr e ↦ rw (e) (omega arith)
]

two_rounds :
    (index k : ℕ) (s : Segment) (ss : List Segment) → 2 * suc (length ss) ≤ rounds index k (s ∷ ss)
two_rounds index k s ss = omega arith

enough_after :
    (index k : ℕ) (s t : Segment) (ss : List Segment) (fuel : ℕ)
    → suc index < k + length (hops s)
    → k + length (hops t) ≡ suc index
    → rounds index k (s ∷ ss) ≤ suc fuel
    → rounds index k (t ∷ ss) ≤ fuel
enough_after index k s t ss fuel long eq enough = ground arith

-- The loop ends with a path that ends at the index.
abbrev pub CutsTo : ℕ → Option ReversePath → Type 0
CutsTo index o = (p : ReversePath) × ((o ≡ some p) × (length (path_hops p) ≡ suc index))

-- A segment that is deleted is the last one, where no more than one is behind the index.
cut_last :
    (fuel : ℕ) (chunk : ReversePath) (index : ℕ) (first : String) (k : ℕ) (before : List Segment)
    (s : Segment) (ss : List Segment)
    → length (s ∷ ss) ≤ 1
    → (ss ≡ [] → CutsTo index (cut_path fuel chunk index first k before []))
    → CutsTo index (elim ss [ [] ↦ cut_path fuel chunk index first k before [] | _ ∷ _ ↦ none ])
cut_last fuel chunk index first k before s [] few cut = cut refl
cut_last fuel chunk index first k before s (t ∷ ss) few cut = absurd (omega (arith, few))

-- In front of the index and behind it.
still_few :
    (index k : ℕ) (s : Segment) (ss : List Segment)
    → k + length (hops s) ≤ suc index
    → length (segs_behind index k (s ∷ ss)) ≤ 1
    → length (segs_behind index (k + length (hops s)) ss) ≤ 1
still_few index k s ss short few = elim (Bool-cases (ltb index k)) [
  | inr early ↦ rw (early) at few
  | inl late ↦
      subst (λ segs. length segs ≤ 1)
        (sym (segs_behind-all index (k + length (hops s)) ss (omega (arith, ltb→lt index k late))))
        (omega (arith, rw (late) at few))
]

pub cut_path-CutsTo :
    (fuel : ℕ) (chunk : ReversePath) (index : ℕ) (first : String) (k : ℕ)
    (before rest : List Segment)
    → k ≡ length (all_hops before)
    → k ≤ suc index
    → suc index ≤ k + length (all_hops rest)
    → rounds index k rest ≤ fuel
    → IsReached index first k rest
    → length (segs_behind index k rest) ≤ 1
    → CutsTo index (cut_path fuel chunk index first k before rest)
unfolding cut_path all_hops
cut_path-CutsTo zero chunk index first k before [] eq le ge enough reached few =
    absurd (omega arith)
cut_path-CutsTo zero chunk index first k before (s ∷ ss) eq le ge enough reached few =
    absurd (omega (arith, two_rounds index k s ss, enough))
cut_path-CutsTo (suc fuel) chunk index first k before [] eq le ge enough reached few =
    let total = length-path_hops chunk before [] in
    elim (Bool-cases
      (ltb (suc index) (length (path_hops (record chunk { path = before ++ [] }))))) [
        | inl more ↦ absurd (omega (arith, total, eq, le, ltb→lt _ _ more))
        | inr e ↦
            (record chunk { path = before ++ [] }, (rw (e) refl, omega (arith, total, eq, le, ge)))
      ]
cut_path-CutsTo (suc fuel) chunk index first k before (s ∷ ss) eq le ge enough reached few =
    let total = length-path_hops chunk before (s ∷ ss) in
    let sum = length-append (hops s) (all_hops ss) in
    elim (cut_step_cases index k (length (hops s))
      (length (path_hops (record chunk { path = before ++ (s ∷ ss) })))) [
        | inl (e, short) ↦ (
          record chunk { path = before ++ (s ∷ ss) },
          (rw (e, cut_path) refl, omega (arith, total, eq, ge, short)),
        )
        | inr (inl (e, late)) ↦
            rw (e, cut_path)
              (cut_last fuel chunk index first k before s ss
                (rw (segs_behind-all index k (s ∷ ss) late) at few)
                (λ last.
                  cut_path-CutsTo fuel chunk index first k before [] eq le (omega (arith, late))
                    (omega (arith, two_rounds index k s ss, enough)) tt (omega arith)))
        | inr (inr (inl (e, (early, long)))) ↦
            let cut =
              cut_segment-length index first k s (omega (arith, long)) (reached.0 long early)
                early in
            rw (e, cut_path)
              (rw (cut.1.0) (
                cut_path-CutsTo fuel chunk index first k before (cut.0 ∷ ss) eq le
                  (omega (arith, cut.1.1, length-append (hops cut.0) (all_hops ss)))
                  (enough_after index k s cut.0 ss fuel long cut.1.1 enough)
                  (
                    (λ over late. absurd (omega (arith, over, cut.1.1))),
                    past-IsReached index first (k + length (hops cut.0)) ss
                        (omega (arith, cut.1.1)),
                  )
                  (subst (λ segs. length segs ≤ 1)
                    (sym (
                      segs_behind-across index k s cut.0 ss early (omega (arith, long))
                        (omega (arith, cut.1.1))))
                    few)))
        | inr (inr (inr (e, (short, more)))) ↦
            rw (e, cut_path)
              (cut_path-CutsTo fuel chunk index first (k + length (hops s)) (before ++ (s ∷ [])) ss
                (in_front-length before s k eq) short (omega (arith, ge, sum))
                (omega (
                  arith,
                  rounds-length index (k + length (hops s)) ss,
                  two_rounds index k s ss,
                  enough,
                ))
                reached.1 (still_few index k s ss (omega (arith, short)) few))
      ]
