-- ===== src/Runner/RecordRoute/Keeps.antt =====
-- What leaves the stack of paths as it is, in the record route step of revtr/runner/revtr_runner.go.
use reverse_traceroute_publi.Base.{
  ℕ, suc, ◌-◌, ◌≡◌, refl, ◌∙◌, Bool, true, not, List, [], ◌∷◌, String, str_eq, Option, none, some,
  ◌>>=◌, NatDict, if-holds, Sat, >>=-Sat, >>=-Sat_any, length, ◌==◌, map, fetch,
}
use reverse_traceroute_publi.Addresses.{IpNet}
use reverse_traceroute_publi.StringUtil.{non_spoofed}
use reverse_traceroute_publi.Segment.{hops}
use reverse_traceroute_publi.ReversePath.{ReversePath, last_seg}
use reverse_traceroute_publi.Revtr.{Revtr, Source, curr_path, rr_vps_initialized_for_hop}
use reverse_traceroute_publi.Revtr.Probes.{
  Ranking, answered, set_spoofers, initialize_rr_vps, initialize_hops, get_rr_vps, probe_target,
  next_vps, vps_of,
}
use reverse_traceroute_publi.Runner.ProcessRr.{
  process_rr, process_texts, hop_text, no_hops, update_ingress, hops_behind, find_cluster_below,
}
use reverse_traceroute_publi.Runner.Engine.{RrHops, SpoofRrHops, Ping, PingStream, World, Engine}
use reverse_traceroute_publi.Runner.Issue.{
  ask, text_of, uncount, is_private_text, rr_measurement, spoofed_measurement, first_response,
  first_ping, rr_answer, issue_rr, receive_one, receive_all, spoofed_answer, issue_spoofed_rr_impl,
  issue_spoofed_rr,
}

set_spoofers-paths :
    (cls : String) (vps : Option (List Source)) (rt : Revtr)
    → (set_spoofers cls vps rt).paths ≡ rt.paths
unfolding set_spoofers
set_spoofers-paths cls none rt = refl
set_spoofers-paths cls (some vps) rt = refl

initialize_rr_vps-paths :
    (rkc : Ranking) (cls : String) (rt : Revtr) → (initialize_rr_vps rkc cls rt).paths ≡ rt.paths
unfolding initialize_rr_vps
initialize_rr_vps-paths rkc cls rt = set_spoofers-paths cls (answered rkc cls rt.max_spoofers) _

initialize_hops-paths :
    (rkc : Ranking) (seg : List String) (rt : Revtr) → (initialize_hops rkc seg rt).paths ≡ rt.paths
unfolding initialize_hops
initialize_hops-paths rkc [] rt = refl
initialize_hops-paths rkc (hop ∷ seg) rt =
    initialize_hops-paths rkc seg _
    ∙ if-holds (λ (rt' : Revtr). rt'.paths ≡ rt.paths) (not (rr_vps_initialized_for_hop rt hop))
        (initialize_rr_vps-paths rkc hop rt) refl

probe_target-paths :
    (target : Option String) (rt : Revtr) → (probe_target target rt).0.paths ≡ rt.paths
unfolding next_vps vps_of
probe_target-paths none rt = refl
probe_target-paths (some target) rt =
    if-holds (λ (r : Revtr × List String). r.0.paths ≡ rt.paths) _ refl refl

-- A result whose first part is a traceroute with the same stack.
abbrev pub KeepsPaths {ℓ} : {A : Type ℓ} → Revtr → Revtr × A → Type 0
KeepsPaths rt r = r.0.paths ≡ rt.paths

abbrev pub ChosenFrom : Revtr → Revtr × List String × String → Type 0
ChosenFrom rt chosen = chosen.0.paths ≡ rt.paths

pub get_rr_vps-paths : (rkc : Ranking) (rt : Revtr) → Sat (ChosenFrom rt) (get_rr_vps rkc rt)
unfolding get_rr_vps
get_rr_vps-paths rkc rt = >>=-Sat_any (ChosenFrom rt) (curr_path rt) _ (λ p.
    >>=-Sat_any (ChosenFrom rt) (last_seg p) _
      (λ s. probe_target-paths _ _ ∙ initialize_hops-paths rkc (hops s) rt))

-- `processRR` counts failures only.
update_ingress-paths :
    (predicted dst : String) (hops : List String) (rt : Revtr)
    → Sat (λ (rt' : Revtr). rt'.paths ≡ rt.paths) (update_ingress predicted dst hops rt)
unfolding update_ingress
update_ingress-paths predicted dst hops rt =
    >>=-Sat_any (λ (rt' : Revtr). rt'.paths ≡ rt.paths) (fetch rt.failed_ingress dst) _
      (λ failed. refl)

no_hops-paths :
    (dst spoofer : String) (hops : List String) (rt : Revtr)
    → Sat (KeepsPaths rt) (no_hops dst spoofer hops rt)
unfolding no_hops
no_hops-paths dst spoofer hops rt =
    if-holds (Sat (KeepsPaths rt)) (str_eq spoofer non_spoofed) refl (
      >>=-Sat (λ (rt' : Revtr). rt'.paths ≡ rt.paths) (KeepsPaths rt) _ _
        (update_ingress-paths _ dst hops rt) (λ counted e. e))

process_texts-paths :
    (cm : String → String) (dst spoofer : String) (remove : Bool) (hops : List String) (rt : Revtr)
    → Sat (KeepsPaths rt) (process_texts cm dst spoofer remove hops rt)
unfolding process_texts
process_texts-paths cm dst spoofer remove hops rt =
    if-holds (Sat (KeepsPaths rt)) (length hops == 0) refl (
      if-holds (Sat (KeepsPaths rt)) _ (no_hops-paths dst spoofer hops rt)
        (searched-paths (find_cluster_below cm (cm dst) hops (length hops - 1))))
  where
    searched-paths :
        (i : Option ℕ)
        → Sat (KeepsPaths rt) (elim i [
          | none ↦ no_hops dst spoofer hops rt
          | some i ↦ hops_behind cm remove hops i >>= λ hops. some (rt, hops)
        ])
    searched-paths none = no_hops-paths dst spoofer hops rt
    searched-paths (some i) =
        >>=-Sat_any (KeepsPaths rt) (hops_behind cm remove hops i) _ (λ hops. refl)

process_rr-paths :
    (cm : String → String) (net : IpNet) (dst spoofer : String) (remove : Bool) (hops : List ℕ)
    (rt : Revtr)
    → Sat (KeepsPaths rt) (process_rr cm net dst spoofer remove hops rt)
unfolding process_rr
process_rr-paths cm net dst spoofer remove hops rt =
    process_texts-paths cm dst spoofer remove (map (hop_text net) hops) rt

-- A result whose first part is a state with the stack `old`.
abbrev pub HasPaths {ℓ} : {C : Type 0} {A : Type ℓ} → List ReversePath → Engine C × A → Type 0
HasPaths old r = r.0.rt.paths ≡ old

module _ {C : Type 0} (w : World C) where
  -- What the answer of `processRR` becomes part of.
  after_process-paths {ℓ} :
      {A : Type ℓ} (old : List ReversePath) (e : Engine C) (make : List String → A)
      (done : Option (Revtr × List String))
      → e.rt.paths ≡ old
      → Sat (KeepsPaths e.rt) done
      → Sat (HasPaths {A = A} old) (done >>= λ d. some (record e { rt = d.0 }, make d.1))
  after_process-paths old e make none eq h = tt
  after_process-paths old e make (some d) eq h = h ∙ eq

  first_response-paths :
      (dst : String) (p : Ping) (prs : List (List ℕ)) (e : Engine C)
      → Sat (HasPaths e.rt.paths) (first_response w dst p prs e)
  unfolding first_response
  first_response-paths dst p [] e = refl
  first_response-paths dst p (pr ∷ prs) e =
      after_process-paths e.rt.paths e _ _ refl
        (process_rr-paths w.cm w.ip_net dst non_spoofed true pr e.rt)

  first_ping-paths :
      (dst : String) (ps : List Ping) (e : Engine C)
      → Sat (HasPaths e.rt.paths) (first_ping w dst ps e)
  unfolding first_ping
  first_ping-paths dst [] e = refl
  first_ping-paths dst (p ∷ ps) e = first_response-paths dst p p.responses e

  rr_answer-paths :
      (dst : String) (e : Engine C) (answer : Option PingStream)
      → Sat (HasPaths e.rt.paths) (rr_answer w dst (e, answer))
  unfolding rr_answer
  rr_answer-paths dst e none = refl
  rr_answer-paths dst e (some st) = first_ping-paths dst st.pings e

  pub issue_rr-paths :
      (src dst : String) (check : Bool) (e : Engine C)
      → Sat (HasPaths e.rt.paths) (issue_rr w src dst check e)
  unfolding issue_rr ask
  issue_rr-paths src dst check e =
      if-holds (Sat (HasPaths {A = Option RrHops} e.rt.paths)) (is_private_text w dst)
        {a = some (e, none)} refl
        (rr_answer-paths dst (record e { pings_asked = suc e.pings_asked })
          (w.ping e.pings_asked (rr_measurement w src dst check ∷ [])))

  receive_one-paths :
      (dst : String) (p : Ping) (prs : List (List ℕ)) (rrs : NatDict SpoofRrHops) (e : Engine C)
      → Sat (HasPaths e.rt.paths) (receive_one w dst p prs rrs e)
  unfolding receive_one
  receive_one-paths dst p [] rrs e = refl
  receive_one-paths dst p (pr ∷ prs) rrs e =
      after_process-paths e.rt.paths e _ _ refl
        (process_rr-paths w.cm w.ip_net dst (text_of w p.spoofed_from) true pr e.rt)

  uncount-paths : (p : Ping) (e : Engine C) → (uncount w p e).rt.paths ≡ e.rt.paths
  uncount-paths p e = if-holds (λ (e' : Engine C). e'.rt.paths ≡ e.rt.paths) p.from_cache refl refl

  receive_all-paths :
      (dst : String) (ps : List Ping) (rrs : NatDict SpoofRrHops) (e : Engine C)
      (old : List ReversePath)
      → e.rt.paths ≡ old
      → Sat (HasPaths old) (receive_all w dst ps rrs e)
  unfolding receive_all
  receive_all-paths dst [] rrs e old eq = eq
  receive_all-paths dst (p ∷ ps) rrs e old eq =
      >>=-Sat (HasPaths (uncount w p e).rt.paths) (HasPaths old) _ _
        (receive_one-paths dst p p.responses rrs (uncount w p e))
        (λ got kept. receive_all-paths dst ps got.1 got.0 old (kept ∙ uncount-paths p e ∙ eq))

  spoofed_answer-paths :
      (dst : String) (e : Engine C) (answer : Option PingStream)
      → Sat (HasPaths e.rt.paths) (spoofed_answer w dst (e, answer))
  unfolding spoofed_answer
  spoofed_answer-paths dst e none = refl
  spoofed_answer-paths dst e (some st) =
      >>=-Sat (HasPaths e.rt.paths) (HasPaths e.rt.paths) _ _
        (receive_all-paths dst st.pings [] e e.rt.paths refl) (λ got kept. kept)

  pub issue_spoofed_rr-paths :
      (recv dst : String) (spoofers : List String) (check : Bool) (e : Engine C)
      → Sat (HasPaths e.rt.paths) (issue_spoofed_rr w recv dst spoofers check e)
  unfolding issue_spoofed_rr issue_spoofed_rr_impl ask
  issue_spoofed_rr-paths recv dst spoofers check e =
      if-holds (Sat (HasPaths {A = Option (NatDict SpoofRrHops)} e.rt.paths))
        (is_private_text w dst) {a = some (e, none)} refl
        (spoofed_answer-paths dst (record e { pings_asked = suc e.pings_asked })
          (w.ping e.pings_asked (map (spoofed_measurement w recv dst check) spoofers)))
