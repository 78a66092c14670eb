-- ===== src/Runner/ProcessRr/Loops.antt =====
-- The removal of loops in `processRR` of revtr/runner/revtr_runner.go: the loop ends, and no cluster
-- is left twice.
use reverse_traceroute_publi.Base.{
  ℕ, zero, suc, ◌+◌, ◌≤◌, ◌<◌, ◌≡◌, refl, sym, ap, ◌∙◌, ◌⊎◌, inl, inr, true, false, List, [], ◌∷◌,
  map, String, str_eq, str_cases, eq_iff, Option, or_zero, Option-cases, none, some, ◌>>=◌, length,
  length-map, get_elem?, drop, leb, if◌then◌else◌, ℤ, pos, negsuc, arith,
}
use reverse_traceroute_publi.StringUtil.{in_array}
use reverse_traceroute_publi.Runner.ProcessRr.{last_index_loop, string_slice_r_index, skip_loops}

if_found :
    (t s : String) (i : ℕ) (rindex : ℤ)
    → t ≡ s
    → (if str_eq t s then pos i else rindex) ≡ pos (i + 0)
if_found t s i rindex e =
    let same : str_eq t s ≡ true = (eq_iff t s).1 e in
    rw (same, if◌then◌else◌) (ap pos (omega arith))

last_index_loop_cases :
    (s : String) (i : ℕ) (rindex : ℤ) (ss : List String)
    → (in_array ss s ≡ false) × (last_index_loop s i rindex ss ≡ rindex)
      ⊎ ((k : ℕ) × (last_index_loop s i rindex ss ≡ pos (i + k))
          × (get_elem? ss k ≡ some s)
          × (in_array (drop (suc k) ss) s ≡ false))
unfolding last_index_loop in_array
last_index_loop_cases s i rindex [] = inl (refl, refl)
last_index_loop_cases s i rindex (t ∷ ss) =
    elim (last_index_loop_cases s (suc i) (if str_eq t s then pos i else rindex) ss) [
      | inl (out, kept) ↦ elim (str_cases t s) [
        | inl e ↦ inr (0, kept ∙ if_found t s i rindex e, ap some e, out)
        | inr ne ↦ inl (rw ne out, kept ∙ rw (ne, if◌then◌else◌))
      ]
      | inr (k, found, at, last) ↦ inr (suc k, found ∙ ap pos (omega arith), at, last)
    ]

-- `stringSliceRIndex` answers the last index of the element, or -1 where the slice lacks it.
pub string_slice_r_index_cases :
    (ss : List String) (s : String)
    → (in_array ss s ≡ false) × (string_slice_r_index ss s ≡ negsuc 0)
      ⊎ ((k : ℕ) × (string_slice_r_index ss s ≡ pos k)
          × (get_elem? ss k ≡ some s)
          × (in_array (drop (suc k) ss) s ≡ false))
unfolding string_slice_r_index
string_slice_r_index_cases ss s = elim (last_index_loop_cases s 0 (negsuc 0) ss) [
  | inl missing ↦ inl missing
  | inr (k, found, at, last) ↦ inr (k, found ∙ ap pos (omega arith), at, last)
]

in_array-cons :
    (t : String) (ss : List String) (s : String)
    → in_array (t ∷ ss) s ≡ false
    → (str_eq t s ≡ false) × (in_array ss s ≡ false)
unfolding in_array
in_array-cons t ss s out = ground arith

in_array-head : (t : String) (ss : List String) (s : String) → t ≡ s → in_array (t ∷ ss) s ≡ true
unfolding in_array
in_array-head t ss s e = ground (arith, eq_iff t s)

get_elem?-in_array :
    (ss : List String) (i : ℕ) (s : String) → get_elem? ss i ≡ some s → in_array ss s ≡ true
unfolding in_array
get_elem?-in_array [] i s h = cc
get_elem?-in_array (t ∷ ss) zero s h = in_array-head t ss s cc
get_elem?-in_array (t ∷ ss) (suc i) s h = ground (arith, get_elem?-in_array ss i s h)

-- A slice whose element at `i` is `s`, from `i` on.
pub in_array-get_elem? :
    (ss : List String) (i j : ℕ) (s : String)
    → get_elem? ss i ≡ some s
    → in_array (drop j ss) s ≡ false
    → i < j
unfolding in_array
in_array-get_elem? [] i j s h out = cc
in_array-get_elem? (t ∷ ss) zero zero s h out =
    absurd (cc (out, get_elem?-in_array (t ∷ ss) zero s h))
in_array-get_elem? (t ∷ ss) zero (suc j) s h out = omega arith
in_array-get_elem? (t ∷ ss) (suc i) zero s h out =
    absurd (cc (out, get_elem?-in_array (t ∷ ss) (suc i) s h))
in_array-get_elem? (t ∷ ss) (suc i) (suc j) s h out =
    omega (arith, in_array-get_elem? ss i j s h out)

pub in_array-drop :
    (ss : List String) (i j : ℕ) (s : String)
    → in_array (drop i ss) s ≡ false
    → i ≤ j
    → in_array (drop j ss) s ≡ false
unfolding in_array
in_array-drop [] i zero s out le = refl
in_array-drop [] i (suc j) s out le = refl
in_array-drop (t ∷ ss) zero zero s out le = out
in_array-drop (t ∷ ss) (suc i) zero s out le = absurd (omega arith)
in_array-drop (t ∷ ss) zero (suc j) s out le =
    in_array-drop ss 0 j s (in_array-cons t ss s out).1 (omega arith)
in_array-drop (t ∷ ss) (suc i) (suc j) s out le = in_array-drop ss i j s out (omega arith)

-- No element comes twice.
abbrev pub NoRepeat : List String → Type 0
NoRepeat [] = Unit
NoRepeat (s ∷ ss) = (in_array ss s ≡ false) × NoRepeat ss

get_elem?-map :
    (cm : String → String) (hopss : List String) (i : ℕ) (c : String)
    → get_elem? (map cm hopss) i ≡ some c
    → (h : String) × (get_elem? hopss i ≡ some h) × (cm h ≡ c)
get_elem?-map cm [] i c e = cc
get_elem?-map cm (h ∷ hopss) zero c e = (h, refl, cc)
get_elem?-map cm (h ∷ hopss) (suc i) c e = get_elem?-map cm hopss i c e

-- The last element, or `s`.
abbrev pub end_or : String → List String → String
end_or s [] = s
end_or s (t ∷ ss) = end_or t ss

end_or-drop :
    (s hop : String) (hopss : List String) (i ri : ℕ)
    → get_elem? hopss ri ≡ some hop
    → i ≤ ri
    → end_or hop (drop (suc ri) hopss) ≡ end_or s (drop i hopss)
end_or-drop s hop [] i ri h le = cc
end_or-drop s hop (t ∷ hopss) zero zero h le = ap (λ o. end_or (or_zero "" o) hopss) (sym h)
end_or-drop s hop (t ∷ hopss) (suc i) zero h le = absurd (omega arith)
end_or-drop s hop (t ∷ hopss) zero (suc ri) h le = end_or-drop t hop hopss 0 ri h (omega arith)
end_or-drop s hop (t ∷ hopss) (suc i) (suc ri) h le = end_or-drop s hop hopss i ri h (omega arith)

drop-past : (i : ℕ) (ss : List String) → length ss ≤ i → drop i ss ≡ []
drop-past zero [] le = refl
drop-past zero (t ∷ ss) le = absurd (omega arith)
drop-past (suc i) [] le = refl
drop-past (suc i) (t ∷ ss) le = drop-past i ss (omega arith)

get_elem?-past : (ss : List String) (i : ℕ) → get_elem? ss i ≡ none → length ss ≤ i
get_elem?-past [] i h = omega arith
get_elem?-past (t ∷ ss) zero h = cc
get_elem?-past (t ∷ ss) (suc i) h = omega (arith, get_elem?-past ss i h)

-- What the loop leaves of the hops from `i` on.
abbrev pub Skipped : (String → String) → List String → ℕ → Option (List String) → Type 0
Skipped cm hopss i none = ⊥
Skipped cm hopss i (some out) =
    NoRepeat (map cm out)
    × ((c : String) → in_array (drop i (map cm hopss)) c ≡ false → in_array (map cm out) c ≡ false)
    × ((s : String) → end_or s out ≡ end_or s (drop i hopss))

skip_to :
    (cm : String → String) (hopss : List String) (i ri : ℕ) (hop cluster : String)
    (rest : Option (List String))
    → i ≤ ri
    → get_elem? hopss ri ≡ some hop
    → cm hop ≡ cluster
    → get_elem? (map cm hopss) i ≡ some cluster
    → in_array (drop (suc ri) (map cm hopss)) cluster ≡ false
    → Skipped cm hopss (suc ri) rest
    → Skipped cm hopss i (rest >>= λ ret_hops. some (hop ∷ ret_hops))
unfolding in_array
skip_to cm hopss i ri hop cluster none le here e at last h = h
skip_to cm hopss i ri hop cluster (some out) le here e at last (distinct, from, end) = (
  (rw e (from cluster last), distinct),
  λ c missing. elim (str_cases (cm hop) c) [
    | inl same ↦
        let own : get_elem? (map cm hopss) i ≡ some c = at ∙ ap some (sym e ∙ same) in
        absurd (omega (arith, in_array-get_elem? (map cm hopss) i i c own missing))
    | inr ne ↦
        rw (ne, if◌then◌else◌)
          (from c (in_array-drop (map cm hopss) i (suc ri) c missing (omega arith)))
  ],
  λ s. end hop ∙ end_or-drop s hop hopss i ri here le,
)

get_elem?-bound : (ss : List String) (i : ℕ) (s : String) → get_elem? ss i ≡ some s → i < length ss
get_elem?-bound [] i s h = cc
get_elem?-bound (t ∷ ss) zero s h = omega arith
get_elem?-bound (t ∷ ss) (suc i) s h = omega (arith, get_elem?-bound ss i s h)

pub skip_loops-Skipped :
    (fuel : ℕ) (cm : String → String) (hopss : List String) (i : ℕ)
    → i ≤ length hopss
    → length hopss < fuel + i
    → Skipped cm hopss i (skip_loops fuel (map cm hopss) hopss i)
unfolding skip_loops in_array
skip_loops-Skipped zero cm hopss i le lt = absurd (omega arith)
skip_loops-Skipped (suc fuel) cm hopss i le lt = elim (Option-cases (get_elem? (map cm hopss) i)) [
  | inl over ↦
      let past : length hopss ≤ i =
        omega (arith, length-map hopss cm, get_elem?-past (map cm hopss) i over) in
      rw (over, skip_loops)
        (tt, λ c missing. refl, λ s. ap (end_or s) (sym (drop-past i hopss past)))
  | inr (cluster, at) ↦ elim (string_slice_r_index_cases (map cm hopss) cluster) [
    | inl (out, _) ↦ absurd (cc (out, get_elem?-in_array (map cm hopss) i cluster at))
    | inr (ri, found, at', last) ↦
        let before : i < suc ri = in_array-get_elem? (map cm hopss) i (suc ri) cluster at last in
        let is_before : leb i ri ≡ true = ground arith in
        let (hop, here, e) = get_elem?-map cm hopss ri cluster at' in
        let inside : ri < length hopss = get_elem?-bound hopss ri hop here in
        rw (at, found, is_before, if◌then◌else◌, here, skip_loops)
          (skip_to cm hopss i ri hop cluster _ (omega arith) here e at last
            (skip_loops-Skipped fuel cm hopss (suc ri) (omega arith) (omega arith)))
  ]
]
