-- ===== src/Revtr/Spoofers/Ranks.antt =====
-- The ranks that `AddRankedSpoofers` of revtr/reverse_traceroute/revese_traceroute.go gives.
use reverse_traceroute_publi.Base.{
  ℕ, suc, ◌+◌, ◌≡◌, refl, ◌∙◌, Bool, true, false, not, ◌&&◌, List, [], ◌∷◌, String, none, some,
  length, ◌==◌, NatDict, fetch_at, store_at, fetch_at-store_at, length-store_at, or_zero, arith,
}
use reverse_traceroute_publi.Addresses.{IpNet, ip_string_to_int32}
use reverse_traceroute_publi.Revtr.Spoofers.{
  RankedSpoofers, RankedSpooferMeasurement, ranked_spoofer, rank_spoofers, add_ranked_spoofers,
}

-- `vps` are the addresses `ips` as text.
pub data Reads (net : IpNet) : List String → List ℕ → Type 0 where
  no_vps : Reads net [] []
  one_vp :
      {vp : String} {ip : ℕ} {vps : List String} {ips : List ℕ}
      → ip_string_to_int32 net vp ≡ some ip
      → Reads net vps ips
      → Reads net (vp ∷ vps) (ip ∷ ips)

-- None of the addresses has a rank, and no two are the same.
abbrev pub absent : ℕ → List ℕ → Bool
absent key [] = true
absent key (ip ∷ ips) = not (ip == key) && absent key ips

abbrev pub AllNew : RankedSpoofers → List ℕ → Type 0
AllNew spoofers [] = Unit {0}
AllNew spoofers (ip ∷ ips) =
    (fetch_at spoofers ip ≡ none) × (absent ip ips ≡ true) × AllNew spoofers ips

-- The addresses have the ranks from `rank` on.
abbrev pub RanksFrom : ℕ → List ℕ → RankedSpoofers → Type 0
RanksFrom rank [] spoofers = Unit {0}
RanksFrom rank (ip ∷ ips) spoofers =
    (fetch_at spoofers ip ≡ some (ranked_spoofer ip rank)) × RanksFrom (suc rank) ips spoofers

AllNew-store_at :
    (spoofers : RankedSpoofers) (ip : ℕ) (m : RankedSpooferMeasurement) (ips : List ℕ)
    → absent ip ips ≡ true
    → AllNew spoofers ips
    → AllNew (store_at spoofers ip m) ips
AllNew-store_at spoofers ip m [] h n = tt
AllNew-store_at spoofers ip m (k ∷ ips) h (new, apart, n) = (
  ground (arith, fetch_at-store_at spoofers ip k m),
  apart,
  AllNew-store_at spoofers ip m ips (ground arith) n,
)

module _ (net : IpNet) (base : ℕ) where
  -- What the loop does not come by it leaves.
  rank_spoofers-kept :
      (rank : ℕ) (vps : List String) (ips : List ℕ) (spoofers : RankedSpoofers) (key : ℕ)
      → Reads net vps ips
      → absent key ips ≡ true
      → fetch_at (rank_spoofers net base rank vps spoofers).0 key ≡ fetch_at spoofers key
  unfolding rank_spoofers
  rank_spoofers-kept rank [] [] spoofers key no_vps h = refl
  rank_spoofers-kept rank [] (ip ∷ ips) spoofers key reads h = elim reads [ ]
  rank_spoofers-kept rank (vp ∷ vps) [] spoofers key reads h = elim reads [ ]
  rank_spoofers-kept rank (vp ∷ vps) (ip ∷ ips) spoofers key (one_vp e reads) h =
      rw (e, rank_spoofers)
        (rank_spoofers-kept (suc rank) vps ips
            (store_at spoofers ip (ranked_spoofer ip (rank + base))) key reads (ground arith)
          ∙ ground (arith, fetch_at-store_at spoofers ip key (ranked_spoofer ip (rank + base))))

  rank_spoofers-RanksFrom :
      (rank : ℕ) (vps : List String) (ips : List ℕ) (spoofers : RankedSpoofers)
      → Reads net vps ips
      → AllNew spoofers ips
      → RanksFrom (rank + base) ips (rank_spoofers net base rank vps spoofers).0
        × ((rank_spoofers net base rank vps spoofers).1 ≡ false)
        × (length (rank_spoofers net base rank vps spoofers).0 ≡ length spoofers + length ips)
  unfolding rank_spoofers
  rank_spoofers-RanksFrom rank [] [] spoofers no_vps n = (tt, refl, omega arith)
  rank_spoofers-RanksFrom rank [] (ip ∷ ips) spoofers reads n = elim reads [ ]
  rank_spoofers-RanksFrom rank (vp ∷ vps) [] spoofers reads n = elim reads [ ]
  rank_spoofers-RanksFrom rank (vp ∷ vps) (ip ∷ ips) spoofers (one_vp e reads) (new, apart, n) =
      let m = ranked_spoofer ip (rank + base) in
      let stored = store_at spoofers ip m in
      let (ranks, fine, count) =
        rank_spoofers-RanksFrom (suc rank) vps ips stored reads
          (AllNew-store_at spoofers ip m ips apart n) in
      let next : suc rank + base ≡ suc (rank + base) = omega arith in
      rw (e, rank_spoofers)
        (
          (
            rank_spoofers-kept (suc rank) vps ips stored ip reads apart
                ∙ ground (arith, fetch_at-store_at spoofers ip ip m),
            rw next at ranks,
          ),
          fine,
          omega (arith, count, length-store_at spoofers ip m new),
        )

-- `AddRankedSpoofers`, on spoofers that have no rank for the target yet, gives them the ranks, as
-- `uint32`, that follow the number of those that have one, in their order, and returns no error; and the target
-- then has that many more.
pub add_ranked_spoofers-RanksFrom :
    (net : IpNet) (target : String) (target_i : ℕ) (vps : List String) (ips : List ℕ)
    (by_hop : NatDict RankedSpoofers)
    → ip_string_to_int32 net target ≡ some target_i
    → Reads net vps ips
    → AllNew (or_zero [] (fetch_at by_hop target_i)) ips
    → let old = or_zero [] (fetch_at by_hop target_i) in
      let added = add_ranked_spoofers net target vps by_hop in
      let new = or_zero [] (fetch_at added.0 target_i) in
      RanksFrom (length old + 1) ips new
      × (added.1 ≡ false)
      × (length new ≡ length old + length ips)
unfolding add_ranked_spoofers
add_ranked_spoofers-RanksFrom net target target_i vps ips by_hop e reads n =
    let old = or_zero [] (fetch_at by_hop target_i) in
    let r = rank_spoofers net (length old + 1) 0 vps old in
    let there : fetch_at (store_at by_hop target_i r.0) target_i ≡ some r.0 =
      ground (arith, fetch_at-store_at by_hop target_i target_i r.0) in
    let first : 0 + (length old + 1) ≡ length old + 1 = omega arith in
    let done = rank_spoofers-RanksFrom net (length old + 1) 0 vps ips old reads n in
    rw (e, add_ranked_spoofers, there) (rw first at done)
