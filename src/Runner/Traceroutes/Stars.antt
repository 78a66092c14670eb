-- ===== src/Runner/Traceroutes/Stars.antt =====
-- The hops that `issueTraceroute` of revtr/runner/revtr_runner.go makes of a traceroute.
use reverse_traceroute_publi.Base.{
  ℕ, zero, suc, ◌+◌, ◌-◌, ◌^◌, ◌%◌, ◌<◌, ◌≡◌, refl, sym, ◌∙◌, ap, Bool, true, false, ◌||◌, List, [],
  ◌∷◌, ◌++◌, map, append_assoc, append-nil, String, Result, runs_on, gives, ltb, leb, Bool-cases,
  inl, inr, length, ◌==◌, if◌then◌else◌, arith,
}
use reverse_traceroute_publi.Runner.Engine.{World}
use reverse_traceroute_publi.Runner.Issue.{text_of}
use reverse_traceroute_publi.Runner.Traceroutes.{
  TraceHop, TraceServices, add_stars, hop_texts, trace_texts,
}

-- Each TTL is one of 32 bits.
abbrev pub HasTtls : List TraceHop → Type 0
HasTtls [] = Unit
HasTtls (hop ∷ trace) = (hop.probe_ttl < 2 ^ 32) × HasTtls trace

-- A hop before the last has a TTL to which two cannot be added in 32 bits.
unfoldable pub has_wrapping_ttl : List TraceHop → Bool
has_wrapping_ttl [] = false
has_wrapping_ttl (hop ∷ []) = false
has_wrapping_ttl (hop ∷ next ∷ rest) =
    leb (2 ^ 32) (hop.probe_ttl + 2) || has_wrapping_ttl (next ∷ rest)

no_star : (ttl : ℕ) → leb (2 ^ 32) (ttl + 2) ≡ false → ltb ((ttl + 2) % 2 ^ 32) ttl ≡ false
no_star ttl small = ground arith

star :
    (ttl : ℕ) → leb (2 ^ 32) (ttl + 2) ≡ true → ttl < 2 ^ 32 → ltb ((ttl + 2) % 2 ^ 32) ttl ≡ true
star ttl wraps fits = ground arith

last_index : (n i : ℕ) → n ≡ i + 1 → (i == n - 1) ≡ true
last_index n i e = ground arith

earlier_index : (n i k : ℕ) → n ≡ i + suc (suc k) → (i == n - 1) ≡ false
earlier_index n i k e = ground arith

module _ {C : Type 0} (w : World C) (s : TraceServices) where
  add_stars-none :
      (rounds j ttl : ℕ) (hopst : List String)
      → ltb j ttl ≡ false
      → add_stars w s rounds j ttl hopst ≡ gives hopst
  unfolding add_stars
  add_stars-none zero j ttl hopst reached = rw (reached) refl
  add_stars-none (suc rounds) j ttl hopst reached = rw (reached) refl

  add_stars-forever :
      (rounds j ttl : ℕ) (hopst : List String)
      → ltb j ttl ≡ true
      → add_stars w s rounds j ttl hopst ≡ runs_on
  unfolding add_stars
  add_stars-forever zero j ttl hopst below = rw (below) refl
  add_stars-forever (suc rounds) j ttl hopst below =
      rw (below) (add_stars-forever rounds j ttl (hopst ++ ("*" ∷ [])) below)

  -- What the loop from the hop at `i` on comes to.
  abbrev Expected : List String → List TraceHop → Result (List String)
  Expected hopst trace =
      if has_wrapping_ttl trace
      then runs_on
      else gives (hopst ++ map (λ hop. text_of w hop.hop_addr) trace)

  hop_texts-Expected :
      (rounds n i : ℕ) (trace : List TraceHop) (hopst : List String)
      → HasTtls trace
      → n ≡ i + length trace
      → hop_texts w s rounds n i trace hopst ≡ Expected hopst trace
  unfolding hop_texts has_wrapping_ttl
  hop_texts-Expected rounds n i [] hopst fit at = ap gives (sym (append-nil hopst))
  hop_texts-Expected rounds n i (hop ∷ []) hopst fit at = rw (last_index n i at) refl
  hop_texts-Expected rounds n i (hop ∷ next ∷ rest) hopst (fits, more) at =
      elim (Bool-cases (leb (2 ^ 32) (hop.probe_ttl + 2))) [
        | inl wraps ↦
            rw
              (
                earlier_index n i (length rest) at,
                add_stars-forever rounds _ hop.probe_ttl hopst (star hop.probe_ttl wraps fits),
                wraps,
              )
              refl
        | inr small ↦
            rw
              (
                earlier_index n i (length rest) at,
                add_stars-none rounds _ hop.probe_ttl hopst (no_star hop.probe_ttl small),
                small,
              )
              (hop_texts-Expected rounds n (suc i) (next ∷ rest)
                  (hopst ++ (text_of w hop.hop_addr ∷ [])) more (omega (arith, at))
                ∙ ap (λ texts. if has_wrapping_ttl (next ∷ rest) then runs_on else gives texts)
                    (append_assoc hopst (text_of w hop.hop_addr ∷ [])
                      (map (λ (h : TraceHop). text_of w h.hop_addr) (next ∷ rest))))
      ]

  -- However many rounds the loop for the stars is given, and TTLs being of 32 bits: where two can be
  -- added in 32 bits to the TTL of each hop but the last, the hops are the addresses that answered, in
  -- order, and no star stands for a hop that did not; and otherwise the loop is still running.
  pub trace_texts-map :
      (rounds : ℕ) (trace : List TraceHop)
      → HasTtls trace
      → trace_texts w s rounds trace ≡ (
          if has_wrapping_ttl trace
          then runs_on
          else gives (map (λ hop. text_of w hop.hop_addr) trace))
  unfolding trace_texts
  trace_texts-map rounds trace fit =
      hop_texts-Expected rounds (length trace) 0 trace [] fit (omega arith)
