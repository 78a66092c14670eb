-- ===== src/Runner/Stamps/Shown.antt =====
-- The segments that the answers to the timestamp probes of revtr/runner/revtr_runner.go show.
use reverse_traceroute_publi.Base.{
  ◌≡◌, ◌≢◌, Bool, true, false, Option, none, some, List, [], ◌∷◌, String, if◌then◌else◌,
}
use mathlib.Core.List.{Memᴰ}
use reverse_traceroute_publi.Segment.{Segment, hops}
use reverse_traceroute_publi.Runner.RecordRoute.Hops.{AllHops}
use reverse_traceroute_publi.Runner.Slots.{Keyed, same_texts, fetch_keyed, store_keyed}

-- Every segment that was shown has hops.
abbrev pub AllShown : Keyed (List Segment) → Type 0
AllShown [] = Unit
AllShown ((key, segs) ∷ m) = AllHops segs × AllShown m

if-AllShown :
    (c : Bool) (a b : Keyed (List Segment))
    → AllShown a
    → AllShown b
    → AllShown (if c then a else b)
if-AllShown true a b ha hb = ha
if-AllShown false a b ha hb = hb

pub store_keyed-AllShown :
    (m : Keyed (List Segment)) (key : List String) (segs : List Segment)
    → AllHops segs
    → AllShown m
    → AllShown (store_keyed m key segs)
unfolding store_keyed
store_keyed-AllShown [] key segs fine all = (fine, tt)
store_keyed-AllShown ((k, old) ∷ m) key segs fine all =
    if-AllShown (same_texts k key) ((k, segs) ∷ m) ((k, old) ∷ store_keyed m key segs) (fine, all.1)
      (all.0, store_keyed-AllShown m key segs fine all.1)

AllFound : Option (List Segment) → Type 0
AllFound none = Unit
AllFound (some segs) = AllHops segs

if-AllFound :
    (c : Bool) (a b : Option (List Segment))
    → AllFound a
    → AllFound b
    → AllFound (if c then a else b)
if-AllFound true a b ha hb = ha
if-AllFound false a b ha hb = hb

fetch_keyed-AllFound :
    (m : Keyed (List Segment)) (key : List String) → AllShown m → AllFound (fetch_keyed m key)
unfolding fetch_keyed AllFound
fetch_keyed-AllFound [] key all = tt
fetch_keyed-AllFound ((k, segs) ∷ m) key all =
    if-AllFound (same_texts k key) (some segs) (fetch_keyed m key) all.0
      (fetch_keyed-AllFound m key all.1)

found_hops :
    (o : Option (List Segment)) (segs : List Segment) → o ≡ some segs → AllFound o → AllHops segs
unfolding AllFound
found_hops o segs e all = rw (e) at all

pub fetch_keyed-AllHops :
    (m : Keyed (List Segment)) (key : List String) (segs : List Segment)
    → AllShown m
    → fetch_keyed m key ≡ some segs
    → AllHops segs
fetch_keyed-AllHops m key segs all found =
    found_hops (fetch_keyed m key) segs found (fetch_keyed-AllFound m key all)

pub single-AllHops : (s : Segment) → hops s ≢ [] → AllHops (s ∷ [])
single-AllHops s ne t (Memᴰ.head e) = λ empty. ne (rw (e) at empty)
single-AllHops s ne t (Memᴰ.tail m) = elim m [ ]
