-- ===== src/Revtr/Background/Crossed.antt =====
-- The segment of the intersection in `AddBackgroundTRSegment` of
-- revtr/reverse_traceroute/revese_traceroute.go.
use reverse_traceroute_publi.Base.{
  ℕ, zero, suc, ◌+◌, ◌≤◌, ◌<◌, ◌≡◌, refl, ap, ◌∙◌, Bool-cases, inl, inr, ◌++◌, String, some, length,
  take, drop, length-append, length-take, length-drop, ltb, arith, lt→ltb, not_ltb→le, ltb→lt,
}
use reverse_traceroute_publi.Segment.{RevSegment, Segment, base, with_base, hops, remove_at}
use reverse_traceroute_publi.Revtr.Add.Rest.{base-with_base}
use reverse_traceroute_publi.Revtr.Background.{behind_hop, cut_hops, cut_segment}

remove_at_lem :
    (rv : RevSegment) (l : ℕ)
    → l < length rv.segment
    → (t : RevSegment) × ((remove_at rv l ≡ some t) × (suc (length t.segment) ≡ length rv.segment))
unfolding remove_at
remove_at_lem rv l h = (
  record rv { segment = take l rv.segment ++ drop (suc l) rv.segment },
  (
    rw (lt→ltb l (length rv.segment) h) refl,
    omega (
      arith,
      h,
      length-append (take l rv.segment) (drop (suc l) rv.segment),
      length-take l rv.segment,
      length-drop (suc l) rv.segment,
    ),
  ),
)

-- What is left of a segment ends at the index.
cut_hops-length :
    (fuel index k l : ℕ) (rv : RevSegment)
    → length rv.segment < fuel
    → suc index ≤ k + length rv.segment
    → l + k ≤ suc index
    → k ≤ index
    → (t : RevSegment) × ((cut_hops fuel index k l rv ≡ some t)
        × (k + length t.segment ≡ suc index))
unfolding cut_hops
cut_hops-length zero index k l rv enough long behind early = absurd (omega arith)
cut_hops-length (suc fuel) index k l rv enough long behind early =
    elim (Bool-cases (ltb (suc index) (k + length rv.segment))) [
      | inr over ↦ (
        rv,
        (rw (over) refl, omega (arith, long, not_ltb→le (suc index) (k + length rv.segment) over)),
      )
      | inl more ↦
          let room : suc index < k + length rv.segment = ltb→lt _ _ more in
          let removed = remove_at_lem rv l (omega (arith, room, behind)) in
          let rest =
            cut_hops-length fuel index k l removed.0 (omega (arith, enough, removed.1.1))
              (omega (arith, room, removed.1.1)) behind early in
          (rest.0, (rw (more, removed.1.0) rest.1.0, rest.1.1))
    ]

pub cut_segment-length :
    (index : ℕ) (first : String) (k : ℕ) (s : Segment)
    → suc index ≤ k + length (hops s)
    → behind_hop (hops s) first + k ≤ suc index
    → k ≤ index
    → (t : Segment) × ((cut_segment index first k s ≡ some t) × (k + length (hops t) ≡ suc index))
unfolding cut_segment
cut_segment-length index first k s long behind early =
    let cut =
      cut_hops-length (suc (length (hops s))) index k (behind_hop (hops s) first) (base s)
        (omega arith) long behind early in
    (
      with_base s cut.0,
      (rw (cut.1.0) refl, ap (λ rv. k + length rv.segment) (base-with_base s cut.0) ∙ cut.1.1),
    )
