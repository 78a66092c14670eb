-- ===== src/Revtr/Probes/Target.antt =====
-- The hop that `GetRRVPs` of revtr/reverse_traceroute/revese_traceroute.go chooses to probe.
use reverse_traceroute_publi.Base.{
  ◌≡◌, ◌≢◌, refl, ap, inl, inr, true, false, ◌||◌, List, [], ◌∷◌, ◌++◌, String, Option, none, some,
  length, ◌==◌, arith, Bool-cases,
}
use reverse_traceroute_publi.Revtr.{Revtr, Source}
use reverse_traceroute_publi.Revtr.Probes.{vps_left, seems_unresponsive, find_target}

-- The hop answers, or has not yet failed to, and has vantage points left.
abbrev pub CanProbe : Revtr → String → Type 0
CanProbe rt hop = (seems_unresponsive rt hop ≡ false) × (vps_left rt hop ≢ [])

abbrev pub NoneCanProbe : Revtr → List String → Type 0
NoneCanProbe rt [] = Unit {0}
NoneCanProbe rt (hop ∷ seg) = (¬ CanProbe rt hop) × NoneCanProbe rt seg

-- The hops behind the answer cannot be probed, and the answer can.
abbrev pub FindsTarget : Revtr → List String → Option String → Type 0
FindsTarget rt seg none = NoneCanProbe rt seg
FindsTarget rt seg (some target) =
    (before : List String) × (after : List String) × (seg ≡ before ++ (target ∷ after))
    × NoneCanProbe rt before
    × CanProbe rt target

-- The target that `GetRRVPs` finds is the first hop, from the end of the segment, that answers, or
-- has not yet failed to, and has vantage points left; it finds none where no hop of the segment is
-- such.
pub find_target-FindsTarget :
    (rt : Revtr) (seg : List String) → FindsTarget rt seg (find_target rt seg)
unfolding find_target
find_target-FindsTarget rt [] = tt
find_target-FindsTarget rt (hop ∷ seg) =
    elim (Bool-cases (seems_unresponsive rt hop || length (vps_left rt hop) == 0)) [
      | inr fine ↦ rw fine ([], seg, refl, tt, can_probe fine)
      | inl skip ↦
          rw skip (pass (find_target rt seg) (find_target-FindsTarget rt seg) (cannot skip))
    ]
  where
    can_probe :
        (seems_unresponsive rt hop || length (vps_left rt hop) == 0) ≡ false → CanProbe rt hop
    can_probe fine = (ground arith, λ e. ground (arith, ap length e))

    cannot : (seems_unresponsive rt hop || length (vps_left rt hop) == 0) ≡ true → ¬ CanProbe rt hop
    cannot skip (answers, has_left) = has_left (none_of (vps_left rt hop) (ground arith))
      where
        none_of : (l : List Source) → length l ≡ 0 → l ≡ []
        none_of [] e = refl
        none_of (x ∷ l) e = absurd (omega arith)

    pass :
        (o : Option String)
        → FindsTarget rt seg o
        → ¬ CanProbe rt hop
        → FindsTarget rt (hop ∷ seg) o
    pass none f not_it = (not_it, f)
    pass (some target) (before, after, e, nones, can) not_it =
        (hop ∷ before, after, ap (◌∷◌ hop) e, (not_it, nones), can)
