-- ===== src/SpoofMap/Reach.antt =====
-- The states that spoofmap/spoofMap.go comes to, by any order of its steps.
use reverse_traceroute_publi.Base.{
  ℕ, ◌≡◌, refl, sym, ap, ◌∙◌, ◌⊎◌, subst, Bool, Bool-cases, inl, inr, List, [], ◌∷◌, Option,
  Option-cases, none, some, ltb, ◌-◌, ◌==◌, ==_iff, if◌then◌else◌, fetch_at, store_at,
}
use mathlib.Core.List.{Memᴰ}
use reverse_traceroute_publi.SpoofMap.{
  Probe, SpoofRequest, Spoof, Spoofs, fresh_spoof, register, receive, without_probes, send_spoofs,
  clean_old,
}
use reverse_traceroute_publi.SpoofMap.Tick.{pending}

-- The map after some steps, with the ids that `Register` was called for.
pub data Trace : List ℕ → Spoofs → Type 0 where
  started : Trace [] []
  registered :
      {log : List ℕ} {spoofs : Spoofs} (now : ℕ) (sp : SpoofRequest)
      → Trace log spoofs
      → Trace (sp.id ∷ log) (register now sp spoofs).0
  received :
      {log : List ℕ} {spoofs : Spoofs} (p : Probe)
      → Trace log spoofs
      → Trace log (receive p spoofs).0
  ticked :
      {log : List ℕ} {spoofs : Spoofs} (visit : Spoofs → Spoofs) (send : ℕ → List Probe → Bool)
      → Trace log spoofs
      → Trace log (send_spoofs visit send spoofs).0
  cleaned :
      {log : List ℕ} {spoofs : Spoofs} (now : ℕ)
      → Trace log spoofs
      → Trace log (clean_old now spoofs)

-- The probe of an entry has the entry's id, for which `Register` was called.
abbrev Owns : ℕ → Option Probe → Type 0
Owns id none = Unit
Owns id (some p) = p.probe_id ≡ id

abbrev AllOwn : List ℕ → Spoofs → Type 0
AllOwn log [] = Unit
AllOwn log ((id, sp) ∷ spoofs) = Memᴰ id log × Owns id sp.probe × AllOwn log spoofs

store_at-AllOwn :
    (log : List ℕ) (spoofs : Spoofs) (id : ℕ) (sp : Spoof)
    → Memᴰ id log
    → Owns id sp.probe
    → AllOwn log spoofs
    → AllOwn log (store_at spoofs id sp)
unfolding store_at
store_at-AllOwn log [] id sp m o h = (m, o, tt)
store_at-AllOwn log ((k, old) ∷ spoofs) id sp m o (hm, ho, h) = elim (Bool-cases (k == id)) [
  | inl same ↦
      rw (same, if◌then◌else◌) (hm, subst (λ i. Owns i sp.probe) (sym ((==_iff k id).0 same)) o, h)
  | inr other ↦ rw (other, if◌then◌else◌) (hm, ho, store_at-AllOwn log spoofs id sp m o h)
]

fetch_at-AllOwn :
    (log : List ℕ) (spoofs : Spoofs) (id : ℕ) (sp : Spoof)
    → AllOwn log spoofs
    → fetch_at spoofs id ≡ some sp
    → Memᴰ id log
unfolding fetch_at
fetch_at-AllOwn log [] id sp h e = cc
fetch_at-AllOwn log ((k, old) ∷ spoofs) id sp (hm, ho, h) e = elim (Bool-cases (k == id)) [
  | inl same ↦ subst (λ i. Memᴰ i log) ((==_iff k id).0 same) hm
  | inr other ↦ fetch_at-AllOwn log spoofs id sp h (rw (other, if◌then◌else◌) at e)
]

more_ids : (log : List ℕ) (id : ℕ) (spoofs : Spoofs) → AllOwn log spoofs → AllOwn (id ∷ log) spoofs
more_ids log id [] h = tt
more_ids log id ((k, sp) ∷ spoofs) (hm, ho, h) = (Memᴰ.tail hm, ho, more_ids log id spoofs h)

without_probes-AllOwn :
    (log : List ℕ) (spoofs : Spoofs) → AllOwn log spoofs → AllOwn log (without_probes spoofs)
unfolding without_probes
without_probes-AllOwn log [] h = tt
without_probes-AllOwn log ((k, sp) ∷ spoofs) (hm, ho, h) = elim (Option-cases sp.probe) [
  | inl none_yet ↦ rw (none_yet, without_probes) (hm, ho, without_probes-AllOwn log spoofs h)
  | inr (p, come) ↦ rw (come, without_probes) (without_probes-AllOwn log spoofs h)
]

clean_old-AllOwn :
    (log : List ℕ) (now : ℕ) (spoofs : Spoofs)
    → AllOwn log spoofs
    → AllOwn log (clean_old now spoofs)
unfolding clean_old
clean_old-AllOwn log now [] h = tt
clean_old-AllOwn log now ((k, sp) ∷ spoofs) (hm, ho, h) = elim (Bool-cases (ltb 120 (now - sp.t))) [
  | inl old ↦ rw (old, if◌then◌else◌) (clean_old-AllOwn log now spoofs h)
  | inr young ↦ rw (young, if◌then◌else◌) (hm, ho, clean_old-AllOwn log now spoofs h)
]

register-AllOwn :
    (log : List ℕ) (now : ℕ) (sp : SpoofRequest) (spoofs : Spoofs)
    → AllOwn log spoofs
    → AllOwn (sp.id ∷ log) (register now sp spoofs).0
unfolding register
register-AllOwn log now sp spoofs h =
    let more : AllOwn (sp.id ∷ log) spoofs = more_ids log sp.id spoofs h in
    let stored : AllOwn (sp.id ∷ log) (store_at spoofs sp.id (fresh_spoof now sp)) =
      store_at-AllOwn (sp.id ∷ log) spoofs sp.id (fresh_spoof now sp) (Memᴰ.head refl) tt more in
    elim (Option-cases (fetch_at spoofs sp.id)) [
      | inl free ↦ rw (free, register) stored
      | inr (spf, used) ↦ elim (Bool-cases (ltb 60 (now - spf.t))) [
        | inl old ↦ rw (used, old, if◌then◌else◌, register) stored
        | inr young ↦ rw (used, young, if◌then◌else◌, register) more
      ]
    ]

receive-AllOwn :
    (log : List ℕ) (p : Probe) (spoofs : Spoofs)
    → AllOwn log spoofs
    → AllOwn log (receive p spoofs).0
unfolding receive
receive-AllOwn log p spoofs h = elim (Option-cases (fetch_at spoofs p.probe_id)) [
  | inl unknown ↦ rw (unknown, receive) h
  | inr (sp, known) ↦
      rw (known, receive)
        (store_at-AllOwn log spoofs p.probe_id (record sp { probe = some p })
          (fetch_at-AllOwn log spoofs p.probe_id sp h known) refl h)
]

Trace-AllOwn : (log : List ℕ) (spoofs : Spoofs) → Trace log spoofs → AllOwn log spoofs
unfolding send_spoofs
Trace-AllOwn _ _ started = tt
Trace-AllOwn _ _ (registered {log} {spoofs} now sp trace) =
    register-AllOwn log now sp spoofs (Trace-AllOwn log spoofs trace)
Trace-AllOwn _ _ (received {log} {spoofs} p trace) =
    receive-AllOwn log p spoofs (Trace-AllOwn log spoofs trace)
Trace-AllOwn _ _ (ticked {log} {spoofs} visit send trace) =
    without_probes-AllOwn log spoofs (Trace-AllOwn log spoofs trace)
Trace-AllOwn _ _ (cleaned {log} {spoofs} now trace) =
    clean_old-AllOwn log now spoofs (Trace-AllOwn log spoofs trace)

first_pending :
    (k : ℕ) (o : Option Probe) (rest : List Probe) (p : Probe)
    → Owns k o
    → Memᴰ p (elim o [ none ↦ rest | some q ↦ q ∷ rest ])
    → (p.probe_id ≡ k) ⊎ Memᴰ p rest
first_pending k none rest p own m = inr m
first_pending k (some q) rest p own (Memᴰ.head e) = inl (ap (λ r. r.probe_id) e ∙ own)
first_pending k (some q) rest p own (Memᴰ.tail m) = inr m

pending-AllOwn :
    (log : List ℕ) (spoofs : Spoofs) (p : Probe)
    → AllOwn log spoofs
    → Memᴰ p (pending spoofs)
    → Memᴰ p.probe_id log
pending-AllOwn log [] p h m = elim m [ ]
pending-AllOwn log ((k, sp) ∷ spoofs) p (hm, ho, h) m =
    elim (first_pending k sp.probe (pending spoofs) p ho m) [
      | inl e ↦ subst (λ i. Memᴰ i log) (sym e) hm
      | inr later ↦ pending-AllOwn log spoofs p h later
    ]

-- In every state that the map comes to, whatever the order of the calls and of the ticks, a probe
-- that waits to be sent has an id for which `Register` was called.
pub Trace-pending :
    (log : List ℕ) (spoofs : Spoofs) (p : Probe)
    → Trace log spoofs
    → Memᴰ p (pending spoofs)
    → Memᴰ p.probe_id log
Trace-pending log spoofs p trace = pending-AllOwn log spoofs p (Trace-AllOwn log spoofs trace)
