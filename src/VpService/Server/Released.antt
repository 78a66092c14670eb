-- ===== src/VpService/Server/Released.antt =====
-- Who leaves the quarantine in a tick of `tryUnquarantine` of vpservice/server/server.go.
use reverse_traceroute_publi.Base.{
  ℕ, suc, ◌<◌, ◌^◌, ◌≡◌, ◌≢◌, refl, ap, Bool, true, false, not, ◌&&◌, ◌||◌, Bool-cases, inl, inr,
  List, [], ◌∷◌, Option, some, if◌then◌else◌, Dict,
}
use reverse_traceroute_publi.VpService.{VantagePoint}
use reverse_traceroute_publi.VpService.Quarantines.{
  Quarantine, QuarantineType, default_quar, manual_quar, mostly_down_quar, expired, by_type,
  elapsed, next_backoff, default_next_backoff, default_elapsed,
}
use reverse_traceroute_publi.VpService.Quarantines.Backoff.{
  CanDouble, NextBackoff, default_next_backoff-NextBackoff,
}
use reverse_traceroute_publi.VpService.Server.{
  Readings, Verdict, is_up, vp_map, judge, judge_all, try_unquarantine, release, renew,
}

by_type-embedded {ℓ} :
    {A : Type ℓ} (embedded own : A) (t : QuarantineType)
    → t ≢ manual_quar
    → by_type embedded own t ≡ embedded
unfolding by_type
by_type-embedded embedded own default_quar other = refl
by_type-embedded embedded own manual_quar other = absurd (other refl)
by_type-embedded embedded own mostly_down_quar other = refl

-- A quarantine that elapses is not a manual one.
elapsed-manual : (now : ℕ) (q : Quarantine) → elapsed now q ≡ true → q.type ≢ manual_quar
unfolding elapsed by_type
elapsed-manual now q h e = cc (h, ap (by_type (default_elapsed now q) false) e)

next_backoff-default :
    (pow : ℕ → ℕ → ℕ) (rand : ℕ → ℕ) (now : ℕ) (q : Quarantine)
    → q.type ≢ manual_quar
    → next_backoff pow rand now q ≡ default_next_backoff pow rand now q
unfolding next_backoff
next_backoff-default pow rand now q other = by_type-embedded _ (some q) q.type other

-- Whether the loop releases a quarantine, and whether it gives it a new backoff.
module _ (vpmap : Dict VantagePoint) (readings : ℕ → Readings) where
  abbrev pub leaves : ℕ → Quarantine → Bool
  leaves i q =
      expired (readings i).at_expired q || (elapsed (readings i).at_elapsed q && is_up vpmap q)

  abbrev pub stays : ℕ → Quarantine → Bool
  stays i q =
      not (expired (readings i).at_expired q)
      && (elapsed (readings i).at_elapsed q && not (is_up vpmap q))

  abbrev pub leavers : ℕ → List Quarantine → List Quarantine
  leavers i [] = []
  leavers i (q ∷ qs) = if leaves i q then q ∷ leavers (suc i) qs else leavers (suc i) qs

  -- Those that stay, with the readings for them.
  abbrev pub stayers : ℕ → List Quarantine → List (Readings × Quarantine)
  stayers i [] = []
  stayers i (q ∷ qs) =
      if stays i q then (readings i, q) ∷ stayers (suc i) qs else stayers (suc i) qs

-- Each quarantine has its next backoff.
abbrev pub Renewed : List (Readings × Quarantine) → List Quarantine → Type 0
Renewed [] [] = Unit
Renewed [] (next ∷ nexts) = ⊥
Renewed (rq ∷ rqs) [] = ⊥
Renewed (rq ∷ rqs) (next ∷ nexts) = NextBackoff rq.1 rq.0.at_backoff next × Renewed rqs nexts

-- All quarantines that are not manual can double their backoff.
abbrev pub AllCanDouble : List Quarantine → Type 0
AllCanDouble [] = Unit
AllCanDouble (q ∷ qs) = (q.type ≢ manual_quar → CanDouble q) × AllCanDouble qs

-- What the loop comes to from the quarantine `i` on.
abbrev pub Judged :
    Dict VantagePoint → (ℕ → Readings) → ℕ → List Quarantine → Option Verdict → Type 0
Judged vpmap readings i qs o =
    (v : Verdict) × ((o ≡ some v)
      × ((v.0 ≡ leavers vpmap readings i qs) × Renewed (stayers vpmap readings i qs) v.1))

module _ (pow : ℕ → ℕ → ℕ) (vpmap : Dict VantagePoint) (readings : ℕ → Readings)
    (pow-exact : (n : ℕ) → n < 63 → pow 2 n ≡ 2 ^ n)
    (drawn-below : (i n : ℕ) → 0 < n → (readings i).drawn n < n) where
  judge_all-Judged :
      (i : ℕ) (qs : List Quarantine)
      → AllCanDouble qs
      → Judged vpmap readings i qs (judge_all pow vpmap readings i qs)
  unfolding judge_all judge
  judge_all-Judged i [] all = (([], []), (refl, (refl, tt)))
  judge_all-Judged i (q ∷ qs) (can, all) =
      let ih = judge_all-Judged (suc i) qs all in
      let now = (readings i).at_elapsed in
      elim (Bool-cases (expired (readings i).at_expired q)) [
        | inl gone ↦ (
          release q ih.0,
          (rw (gone, ih.1.0) refl, (rw (gone) (ap (λ r. q ∷ r) ih.1.1.0), rw (gone) ih.1.1.1)),
        )
        | inr held ↦ elim (Bool-cases (elapsed now q)) [
          | inr early ↦ (
            ih.0,
            (rw (held, early, ih.1.0) refl, (rw (held, early) ih.1.1.0, rw (held, early) ih.1.1.1)),
          )
          | inl due ↦ elim (Bool-cases (is_up vpmap q)) [
            | inl up ↦ (
              release q ih.0,
              (
                rw (held, due, up, ih.1.0) refl,
                (rw (held, due, up) (ap (λ r. q ∷ r) ih.1.1.0), rw (held, due, up) ih.1.1.1),
              ),
            )
            | inr down ↦
                let other = elapsed-manual now q due in
                let renewed =
                  default_next_backoff-NextBackoff pow (readings i).drawn pow-exact (drawn-below i)
                    (readings i).at_backoff q (can other) in
                (
                  renew renewed.0 ih.0,
                  (
                    rw
                        (
                          held,
                          due,
                          down,
                          next_backoff-default pow (readings i).drawn (readings i).at_backoff q
                              other,
                          renewed.1.0,
                          ih.1.0,
                        )
                        refl,
                    (rw (held, due, down) ih.1.1.0, rw (held, due, down) (renewed.1.1, ih.1.1.1)),
                  ),
                )
          ]
        ]
      ]

-- A tick of `tryUnquarantine` does not panic where every quarantine that is not manual can double its
-- backoff in 64 bits. It releases exactly the quarantines that have expired, and those that have
-- elapsed and whose vantage point is known and can perform some measurement, in their order; it
-- updates exactly the others that have elapsed, each with its next backoff. `math.Pow` is exact on the
-- powers of two below 2^63, and `rand.Int63n` draws below its bound.
pub try_unquarantine-Judged :
    (pow : ℕ → ℕ → ℕ) (readings : ℕ → Readings) (vps : List VantagePoint) (qs : List Quarantine)
    → ((n : ℕ) → n < 63 → pow 2 n ≡ 2 ^ n)
    → ((i n : ℕ) → 0 < n → (readings i).drawn n < n)
    → AllCanDouble qs
    → Judged (vp_map [] vps) readings 0 qs (try_unquarantine pow readings vps qs)
unfolding try_unquarantine
try_unquarantine-Judged pow readings vps qs pow-exact drawn-below all =
    judge_all-Judged pow (vp_map [] vps) readings pow-exact drawn-below 0 qs all
