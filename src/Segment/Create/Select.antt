-- ===== src/Segment/Create/Select.antt =====
-- What `ndsrsSelectNonzeroHops` and `NewDstSymRevSegment` of
-- revtr/reverse_traceroute/segments.go choose, and where they panic.
use reverse_traceroute_publi.Base.{
  ℕ, zero, suc, ◌+◌, ◌≤◌, ◌<◌, ◌≡◌, ◌≢◌, ◌⊎◌, inl, inr, refl, ap, Bool, false, List, [], ◌∷◌,
  String, str_cases, Option, some, none, length, get_elem?, take, ◌==◌, if◌then◌else◌, ℤ, arith,
  Bool-cases, dec_lt, lt→ltb, get_elem?_total, get_elem?-append_end, length-append, ℕ_discrete,
  reverse,
}
use mathlib.Core.Option
use mathlib.Core.List.{reverse-cons}
use reverse_traceroute_publi.StringUtil.{string_slice_reverse}
use reverse_traceroute_publi.StringUtil.Slices.{string_slice_reverse_lem}
use reverse_traceroute_publi.Segment.{Net, Segment, zero_ip}
use reverse_traceroute_publi.Segment.Create.{
  usable_hop, select_loop, last_valid, select_nonzero_hops, drop_last, new_dst_sym_rev_segment,
}

-- The hops that are responsive and not ignored.
unfoldable pub count_usable : List String → List String → ℕ
count_usable ignored [] = 0
count_usable ignored (t ∷ tr) =
    if usable_hop ignored t then suc (count_usable ignored tr) else count_usable ignored tr

-- Where the loop stops: after `k` more hops, with enough of them usable or none left.
abbrev Stops : ℕ → List String → ℕ → ℕ → List String → ℕ × ℕ → Type 0
Stops wanted ignored i found tr r =
    (k : ℕ) × (r.0 ≡ i + k)
    × (r.1 ≡ found + count_usable ignored (take k tr))
    × ((r.1 ≡ wanted) ⊎ (take k tr ≡ tr) × (r.1 < wanted))

select_loop-Stops :
    (wanted : ℕ) (ignored : List String) (i found : ℕ) (tr : List String)
    → found ≤ wanted
    → Stops wanted ignored i found tr (select_loop wanted ignored i found tr)
unfolding select_loop count_usable
select_loop-Stops wanted ignored i found [] h = (
  0,
  omega arith,
  omega arith,
  elim (dec_lt found wanted) [ yes lt ↦ inr (refl, lt) | no ge ↦ inl (omega arith) ],
)
select_loop-Stops wanted ignored i found (t ∷ tr) h = elim (dec_lt found wanted) [
  | no ge ↦ (0, ground arith, ground arith, inl (ground arith))
  | yes lt ↦ elim (Bool-cases (usable_hop ignored t)) [
    | inl use_it ↦
        let (k, at, count, stop) = select_loop-Stops wanted ignored (suc i) (suc found) tr lt in
        rw (use_it, lt→ltb found wanted lt)
          (suc k, omega arith, rw use_it (omega arith), later t k stop)
    | inr skip ↦
        let (k, at, count, stop) = select_loop-Stops wanted ignored (suc i) found tr h in
        rw (skip, lt→ltb found wanted lt)
          (suc k, omega arith, rw skip (omega arith), later t k stop)
  ]
]
  where
    later :
        (t : String) (k : ℕ) {r : ℕ}
        → (r ≡ wanted) ⊎ (take k tr ≡ tr) × (r < wanted)
        → (r ≡ wanted) ⊎ (t ∷ take k tr ≡ t ∷ tr) × (r < wanted)
    later t k (inl e) = inl e
    later t k (inr (all, few)) = inr (ap (◌∷◌ t) all, few)

-- A responsive hop among the first `n`.
abbrev pub HasHop : List String → ℕ → Type 0
HasHop tr n = (j : ℕ) × (h : String) × (j < n) × (get_elem? tr j ≡ some h) × (h ≢ zero_ip)

-- `lastValidHop` is the last responsive hop; with none the loop runs off the front of the slice.
last_valid_total :
    (tr : List String) (n : ℕ) → n ≤ length tr → HasHop tr n → (m : ℕ) × (last_valid tr n ≡ some m)
unfolding last_valid
last_valid_total tr zero le (j, h, lt, at, nz) = absurd (omega arith)
last_valid_total tr (suc n) le (j, h, lt, at, nz) =
    let (x, e) = get_elem?_total tr n le in
    elim (str_cases x zero_ip) [
      | inr ne ↦ (suc n, rw (e, ne) refl)
      | inl z ↦
          rw (e, z)
            (last_valid_total tr n (omega arith) (j, h, earlier x z e (ℕ_discrete j n), at, nz))
    ]
  where
    earlier : (x : String) → x ≡ zero_ip → get_elem? tr n ≡ some x → Dec (j ≡ n) → j < n
    earlier x z e (yes p) = absurd (nz (cc (at, e, z, ap (get_elem? tr) p)))
    earlier x z e (no p) = omega arith

-- `ndsrsSelectNonzeroHops` panics on no slice that has a responsive hop.
pub select_nonzero_hops_total :
    (tr : List String) (wanted : ℕ) (ignored : List String)
    → HasHop tr (length tr)
    → (seg : List String) × (select_nonzero_hops tr wanted ignored ≡ some seg)
unfolding select_nonzero_hops
select_nonzero_hops_total tr wanted ignored has =
    let (m, e) = last_valid_total tr (length tr) (omega arith) has in
    elim (Bool-cases ((select_loop wanted ignored 0 0 tr).1 == wanted)) [
      | inl enough ↦ rw enough (take (select_loop wanted ignored 0 0 tr).0 tr, refl)
      | inr few ↦ rw (few, e) (take m tr, refl)
    ]

front_of :
    (tr seg : List String) (o : Option ℕ)
    → Option.map (λ n. take n tr) o ≡ some seg
    → (n : ℕ) × (seg ≡ take n tr)
front_of tr seg none e = cc
front_of tr seg (some n) e = (n, ground arith)

-- What `ndsrsSelectNonzeroHops` answers is the front of the slice. It has as many usable hops as
-- were asked for, or the slice has fewer. (A hop is usable if it is responsive and not ignored.)
pub select_nonzero_hops_counts :
    (tr : List String) (wanted : ℕ) (ignored : List String) (seg : List String)
    → select_nonzero_hops tr wanted ignored ≡ some seg
    → ((n : ℕ) × (seg ≡ take n tr))
      × ((count_usable ignored seg ≡ wanted) ⊎ (count_usable ignored tr < wanted))
unfolding select_nonzero_hops
select_nonzero_hops_counts tr wanted ignored seg e =
    let (k, at, count, stop) = select_loop-Stops wanted ignored 0 0 tr (omega arith) in
    elim (Bool-cases ((select_loop wanted ignored 0 0 tr).1 == wanted)) [
      | inl enough ↦
          let front : seg ≡ take k tr = cut k (rw enough at e) at in
          ((k, front), inl (rw front (ground arith)))
      | inr few ↦
          (front_of tr seg (last_valid tr (length tr)) (rw few at e), inr (scarce k count stop few))
    ]
  where
    r : ℕ × ℕ
    r = select_loop wanted ignored 0 0 tr

    cut : (k : ℕ) → some (take r.0 tr) ≡ some seg → r.0 ≡ 0 + k → seg ≡ take k tr
    cut k p at = let same : r.0 ≡ k = omega arith in rw (← same) (ground arith)

    scarce :
        (k : ℕ)
        → r.1 ≡ 0 + count_usable ignored (take k tr)
        → (r.1 ≡ wanted) ⊎ (take k tr ≡ tr) × (r.1 < wanted)
        → (r.1 == wanted) ≡ false
        → count_usable ignored tr < wanted
    scarce k count (inl enough) few = ground arith
    scarce k count (inr (all, lt)) few = omega (arith, ap (count_usable ignored) all)

-- `NewDstSymRevSegment` panics for no traceroute that has a hop, if the source is a proper address.
pub new_dst_sym_rev_segment_total :
    (net : Net) (src hop : String) (tr : List String) (num_hops : ℕ) (ignored : List String)
    (id : ℤ) (cached : Bool)
    → tr ≢ []
    → src ≢ zero_ip
    → (s : Segment) × (new_dst_sym_rev_segment net src hop tr num_hops ignored id cached ≡ some s)
unfolding new_dst_sym_rev_segment drop_last
new_dst_sym_rev_segment_total net src hop [] num_hops ignored id cached ne nz = absurd (ne refl)
new_dst_sym_rev_segment_total net src hop (t ∷ tr) num_hops ignored id cached ne nz =
    let front = take (length tr) (t ∷ tr) in
    let (seg, e) = select_nonzero_hops_total (string_slice_reverse (src ∷ front)) num_hops ignored (
      rw (string_slice_reverse_lem (src ∷ front), reverse-cons src front)
        (
          length (reverse front),
          src,
          omega (arith, length-append (reverse front) (src ∷ [])),
          get_elem?-append_end (reverse front) src,
          nz,
        )) in
    rw e (_, refl)
