-- ===== src/SpoofMap/Tick.antt =====
-- What a tick of `sendSpoofs` of spoofmap/spoofMap.go sends.
use reverse_traceroute_publi.Base.{
  ℕ, ◌≡◌, refl, sym, ap, ◌∙◌, Bool, Bool-cases, inl, inr, List, [], ◌∷◌, ◌++◌, append_assoc,
  append-nil, Option-cases, none, some, ◌==◌, if◌then◌else◌, fetch_at, store_at, fetch_at-store_at,
  or_zero, ==_iff,
}
use reverse_traceroute_publi.SpoofMap.{Probe, Spoofs, Dests, group, without_probes, send_spoofs}

-- The probes of the map that have come in.
abbrev pub pending : Spoofs → List Probe
pending [] = []
pending ((id, sp) ∷ spoofs) = elim sp.probe [ none ↦ pending spoofs | some p ↦ p ∷ pending spoofs ]

-- Those that go to `ip`.
abbrev pub probes_to : ℕ → List Probe → List Probe
probes_to ip [] = []
probes_to ip (p ∷ probes) =
    if p.sender_ip == ip then p ∷ probes_to ip probes else probes_to ip probes

-- The group of `ip` after one more probe.
add_to : Dests → Probe → Dests
add_to dests p = store_at dests p.sender_ip (or_zero [] (fetch_at dests p.sender_ip) ++ (p ∷ []))

add_to-probes_to :
    (dests : Dests) (p : Probe) (ip : ℕ) (rest : List Probe)
    → or_zero [] (fetch_at (add_to dests p) ip) ++ probes_to ip rest
      ≡ or_zero [] (fetch_at dests ip) ++ probes_to ip (p ∷ rest)
unfolding add_to
add_to-probes_to dests p ip rest =
    let old : List Probe = or_zero [] (fetch_at dests p.sender_ip) in
    elim (Bool-cases (p.sender_ip == ip)) [
      | inl same ↦
          rw (fetch_at-store_at dests p.sender_ip ip (old ++ (p ∷ [])), same, if◌then◌else◌)
            (append_assoc old (p ∷ []) (probes_to ip rest)
              ∙ ap (λ i. or_zero [] (fetch_at dests i) ++ (p ∷ probes_to ip rest))
                  ((==_iff p.sender_ip ip).0 same))
      | inr other ↦
          rw (fetch_at-store_at dests p.sender_ip ip (old ++ (p ∷ [])), other, if◌then◌else◌)
    ]

group-probes_to :
    (dests : Dests) (spoofs : Spoofs) (ip : ℕ)
    → or_zero [] (fetch_at (group dests spoofs) ip)
      ≡ or_zero [] (fetch_at dests ip) ++ probes_to ip (pending spoofs)
unfolding group add_to
group-probes_to dests [] ip = sym (append-nil _)
group-probes_to dests ((id, sp) ∷ spoofs) ip = elim (Option-cases sp.probe) [
  | inl none_yet ↦ rw (none_yet, group) (group-probes_to dests spoofs ip)
  | inr (p, come) ↦
      rw (come, group)
        (group-probes_to (add_to dests p) spoofs ip ∙ add_to-probes_to dests p ip (pending spoofs))
]

pending-without_probes : (spoofs : Spoofs) → pending (without_probes spoofs) ≡ []
unfolding without_probes
pending-without_probes [] = refl
pending-without_probes ((id, sp) ∷ spoofs) = elim (Option-cases sp.probe) [
  | inl none_yet ↦
      rw (none_yet, without_probes) (rw (none_yet, pending) (pending-without_probes spoofs))
  | inr (p, come) ↦ rw (come, without_probes) (pending-without_probes spoofs)
]

-- A tick hands to `Send` for each address exactly the probes that have come in for it, in the order
-- of the visit, and leaves no probe behind in the map, whether `Send` succeeds or not.
pub send_spoofs-pending :
    (visit : Spoofs → Spoofs) (send : ℕ → List Probe → Bool) (spoofs : Spoofs) (ip : ℕ)
    → (or_zero [] (fetch_at (send_spoofs visit send spoofs).1.0 ip)
        ≡ probes_to ip (pending (visit spoofs)))
      × (pending (send_spoofs visit send spoofs).0 ≡ [])
unfolding send_spoofs fetch_at
send_spoofs-pending visit send spoofs ip =
    (group-probes_to [] (visit spoofs) ip, pending-without_probes spoofs)
