-- ===== src/Segment/Loops.antt =====
-- The indexes of `rIndex` and `RemoveHops` of revtr/reverse_traceroute/segments.go.
use reverse_traceroute_publi.Base.{
  ℕ, zero, suc, ◌-◌, ◌≤◌, ◌≡◌, refl, sym, ap, inl, inr, true, false, ◌&&◌, List, [], ◌∷◌, String,
  str_eq, eq_iff, eq_refl, length, drop, ltb, ℤ, pos, negsuc, ltb_ℤ, eqb_ℤ, next_index, arith,
  dec_lt, str_cases, not, Bool-cases, if◌then◌else◌,
}
use reverse_traceroute_publi.StringUtil.{in_array}
use reverse_traceroute_publi.Segment.{
  zero_ip, r_index_loop, r_index, no_zeros, max_index_loop, cut_after,
}

pub in_array-drop :
    (n : ℕ) (xs : List String) (h : String) → in_array xs h ≡ false → in_array (drop n xs) h ≡ false
unfolding in_array
in_array-drop zero xs h e = e
in_array-drop (suc n) [] h e = refl
in_array-drop (suc n) (x ∷ xs) h e = in_array-drop n xs h (ground arith)

pub in_array-drop_more :
    (n m : ℕ) (xs : List String) (h : String)
    → n ≤ m
    → in_array (drop n xs) h ≡ false
    → in_array (drop m xs) h ≡ false
unfolding in_array
in_array-drop_more zero m xs h le e = in_array-drop m xs h e
in_array-drop_more (suc n) zero xs h le e = absurd (omega arith)
in_array-drop_more (suc n) (suc m) [] h le e = refl
in_array-drop_more (suc n) (suc m) (x ∷ xs) h le e = in_array-drop_more n m xs h (omega arith) e

-- The index only grows.
r_index_loop-ge :
    (cm : String → String) (s : String) (i : ℕ) (index : ℤ) (ss : List String)
    → next_index index ≤ i
    → next_index index ≤ next_index (r_index_loop cm s i index ss)
unfolding r_index_loop
r_index_loop-ge cm s i index [] h = omega arith
r_index_loop-ge cm s i index (st ∷ ss) h = elim (Bool-cases (str_eq (cm s) (cm st))) [
  | inl e ↦
      rw (e, r_index_loop) (omega (arith, r_index_loop-ge cm s (suc i) (pos i) ss (omega arith)))
  | inr e ↦ rw (e, r_index_loop) (r_index_loop-ge cm s (suc i) index ss (omega arith))
]

drop_shift :
    (n i : ℕ) (x : String) (xs : List String) (s : String)
    → suc i ≤ n
    → in_array (drop (n - suc i) xs) s ≡ false
    → in_array (drop (n - i) (x ∷ xs)) s ≡ false
drop_shift n i x xs s le h = let e : n - i ≡ suc (n - suc i) = omega arith in rw e h

drop_keep :
    (n i : ℕ) (x : String) (xs : List String) (s : String)
    → str_eq x s ≡ false
    → in_array (drop (n - suc i) xs) s ≡ false
    → in_array (drop (n - i) (x ∷ xs)) s ≡ false
unfolding in_array
drop_keep n i x xs s ne h = elim (dec_lt i n) [
  | yes le ↦ drop_shift n i x xs s le h
  | no ge ↦
      let e : n - i ≡ 0 = omega arith in
      let e' : n - suc i ≡ 0 = omega arith in rw (e, ne) (rw e' at h)
]

-- Behind the answer of `rIndex` the hop does not occur.
r_index_loop-last :
    (cm : String → String) (s : String) (i : ℕ) (index : ℤ) (ss : List String)
    → next_index index ≤ i
    → in_array (drop (next_index (r_index_loop cm s i index ss) - i) ss) s ≡ false
unfolding r_index_loop in_array
r_index_loop-last cm s i index [] h = drop_nil (next_index index - i)
  where
    drop_nil : (n : ℕ) → in_array (drop n []) s ≡ false
    drop_nil zero = refl
    drop_nil (suc n) = refl
r_index_loop-last cm s i index (st ∷ ss) h = elim (Bool-cases (str_eq (cm s) (cm st))) [
  | inl e ↦
      rw (e, r_index_loop)
        (drop_shift _ i st ss s (r_index_loop-ge cm s (suc i) (pos i) ss (omega arith))
          (r_index_loop-last cm s (suc i) (pos i) ss (omega arith)))
  | inr e ↦
      rw (e, r_index_loop)
        (drop_keep _ i st ss s (other_hop e)
          (r_index_loop-last cm s (suc i) index ss (omega arith)))
]
  where
    other_hop : str_eq (cm s) (cm st) ≡ false → str_eq st s ≡ false
    other_hop e = elim (str_cases st s) [
      | inl same ↦ cc (eq_refl (cm s), ap (λ t. str_eq (cm s) (cm t)) same, e)
      | inr ne ↦ ne
    ]

pub r_index-last :
    (cm : String → String) (seg : List String) (s : String)
    → in_array (drop (next_index (r_index cm seg s)) seg) s ≡ false
unfolding r_index
r_index-last cm seg s =
    let n = next_index (r_index_loop cm s 0 (negsuc 0) seg) in
    let e : n - 0 ≡ n = omega arith in
    rw e at (r_index_loop-last cm s 0 (negsuc 0) seg (omega arith))

larger_ge :
    (m r : ℤ)
    → (next_index m ≤ next_index (if ltb_ℤ m r then r else m))
      × (next_index r ≤ next_index (if ltb_ℤ m r then r else m))
larger_ge m r = ground arith

-- The maximum is at least the index of each common hop.
max_index_loop-ge :
    (cm : String → String) (seg : List String) (m : ℤ) (common : List String)
    → next_index m ≤ next_index (max_index_loop cm seg m common)
unfolding max_index_loop
max_index_loop-ge cm seg m [] = omega arith
max_index_loop-ge cm seg m (h ∷ common) =
    let r = r_index cm seg h in
    omega (arith, larger_ge m r, max_index_loop-ge cm seg (if ltb_ℤ m r then r else m) common)

pub max_index_loop-mem :
    (cm : String → String) (seg : List String) (m : ℤ) (common : List String) (s : String)
    → in_array common s ≡ true
    → next_index (r_index cm seg s) ≤ next_index (max_index_loop cm seg m common)
unfolding max_index_loop in_array
max_index_loop-mem cm seg m [] s h = cc
max_index_loop-mem cm seg m (h ∷ common) s i =
    let r = r_index cm seg h in
    let next = if ltb_ℤ m r then r else m in
    elim (str_cases h s) [
      | inl e ↦ rw (← e) (omega (arith, larger_ge m r, max_index_loop-ge cm seg next common))
      | inr ne ↦ max_index_loop-mem cm seg next common s (rw ne at i)
    ]

pub in_array-no_zeros :
    (to_del : List String) (h : String)
    → in_array (no_zeros to_del) h ≡ (in_array to_del h && not (str_eq h zero_ip))
unfolding no_zeros in_array
in_array-no_zeros [] h = refl
in_array-no_zeros (ip ∷ to_del) h =
    ground (arith, in_array-no_zeros to_del h, eq_iff ip h, eq_iff ip zero_ip, eq_iff h zero_ip)

pub empty_of_none : (l : List String) → ((h : String) → in_array l h ≡ false) → l ≡ []
unfolding in_array
empty_of_none [] none_in = refl
empty_of_none (x ∷ l) none_in = ground (arith, none_in x, eq_refl x)

pub nonempty_of_mem : (l : List String) (h : String) → in_array l h ≡ true → ltb 0 (length l) ≡ true
unfolding in_array
nonempty_of_mem [] h m = cc
nonempty_of_mem (x ∷ l) h m = ground arith

pub in_array-cut_after :
    (m : ℤ) (seg : List String) (h : String)
    → in_array (drop (next_index m) seg) h ≡ false
    → in_array (cut_after m seg) h ≡ false
unfolding in_array
in_array-cut_after m seg h e = ground arith

drop-length : (xs : List String) → drop (length xs) xs ≡ []
drop-length [] = refl
drop-length (x ∷ xs) = drop-length xs

pub cut_after-drop : (m : ℤ) (seg : List String) → (k : ℕ) × (cut_after m seg ≡ drop k seg)
cut_after-drop m seg = elim (Bool-cases (eqb_ℤ m (pos (length seg)))) [
  | inl e ↦ (length seg, rw e (sym (drop-length seg)))
  | inr e ↦ (next_index m, rw e)
]
