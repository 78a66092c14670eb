-- ===== src/SpoofMap.antt =====
-- spoofmap/spoofMap.go: the spoofed probes that wait for an answer.
--
-- The methods take the map's lock, so each is one step. A time is a number of seconds, `now` the
-- clock's reading. `visit` is the order in which `range` visits the map, `send` tells whether the
-- transport's `Send` to an address succeeds. The ticks of the two loops are steps of their own.
pub mod Tick
pub mod Reach
use reverse_traceroute_publi.Base.{
  ℕ, ◌+◌, ◌-◌, Bool, true, false, List, [], ◌∷◌, ◌++◌, Option, none, some, ltb, ◌==◌, if◌then◌else◌,
  NatDict, fetch_at, store_at, or_zero,
}

-- `dm.Probe`, as far as the map reads it, with the rest in `answer`.
pub record Probe : Type 0 where
  pub probe_id : ℕ
  pub sender_ip : ℕ
  pub answer : List ℕ

-- `dm.Spoof`, as far as the map reads it.
pub record SpoofRequest : Type 0 where
  pub id : ℕ
  pub dst : ℕ

-- `spoof`.
pub record Spoof : Type 0 where
  pub probe : Option Probe
  pub t : ℕ
  pub spoof : SpoofRequest

abbrev pub Spoofs : Type 0
Spoofs = NatDict Spoof

-- How `Register` and `Receive` end.
pub data Answer : Type 0 where
  no_error error_id_in_use error_spoof_not_found : Answer

abbrev pub fresh_spoof : ℕ → SpoofRequest → Spoof
fresh_spoof now sp = record { probe = none; t = now; spoof = sp }

-- `Register`.
unfoldable pub register : ℕ → SpoofRequest → Spoofs → Spoofs × Answer
register now sp spoofs = elim (fetch_at spoofs sp.id) [
  | none ↦ (store_at spoofs sp.id (fresh_spoof now sp), no_error)
  | some spf ↦
      if ltb 60 (now - spf.t)
      then (store_at spoofs sp.id (fresh_spoof now sp), no_error)
      else (spoofs, error_id_in_use)
]

-- `Receive`.
unfoldable pub receive : Probe → Spoofs → Spoofs × Answer
receive p spoofs = elim (fetch_at spoofs p.probe_id) [
  | none ↦ (spoofs, error_spoof_not_found)
  | some sp ↦ (store_at spoofs p.probe_id (record sp { probe = some p }), no_error)
]

-- The first loop of a tick of `sendSpoofs`: the probes by the address they go to, in the order of the
-- visit, and the map without them.
abbrev pub Dests : Type 0
Dests = NatDict (List Probe)

unfoldable pub group : Dests → Spoofs → Dests
group dests [] = dests
group dests ((id, sp) ∷ spoofs) = elim sp.probe [
  | none ↦ group dests spoofs
  | some p ↦
      group (store_at dests p.sender_ip (or_zero [] (fetch_at dests p.sender_ip) ++ (p ∷ [])))
        spoofs
]

unfoldable pub without_probes : Spoofs → Spoofs
without_probes [] = []
without_probes ((id, sp) ∷ spoofs) = elim sp.probe [
  | none ↦ (id, sp) ∷ without_probes spoofs
  | some p ↦ without_probes spoofs
]

-- The second loop: what is left in `dests`, which the next tick replaces.
unfoldable pub unsent : (ℕ → List Probe → Bool) → Dests → Dests
unsent send [] = []
unsent send ((ip, probes) ∷ dests) =
    if send ip probes then unsent send dests else (ip, probes) ∷ unsent send dests

-- A tick of `sendSpoofs`: the map afterwards, what is handed to `Send`, and what fails.
unfoldable pub send_spoofs :
    (Spoofs → Spoofs) → (ℕ → List Probe → Bool) → Spoofs → Spoofs × (Dests × Dests)
unfolding group without_probes unsent
send_spoofs visit send spoofs =
    let dests = group [] (visit spoofs) in (without_probes spoofs, (dests, unsent send dests))

-- A tick of `cleanOld`.
unfoldable pub clean_old : ℕ → Spoofs → Spoofs
clean_old now [] = []
clean_old now ((id, sp) ∷ spoofs) =
    if ltb 120 (now - sp.t) then clean_old now spoofs else (id, sp) ∷ clean_old now spoofs
