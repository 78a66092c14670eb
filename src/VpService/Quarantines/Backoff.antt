-- ===== src/VpService/Quarantines/Backoff.antt =====
-- The length of the next backoff in vpservice/types/types.go.
use reverse_traceroute_publi.Base.{
  ℕ, zero, suc, ◌+◌, ◌*◌, ◌%◌, ◌^◌, ◌≤◌, ◌<◌, ◌≡◌, refl, true, false, none, some, ltb, leb, ◌==◌,
  ◌||◌, if◌then◌else◌, arith,
}
use reverse_traceroute_publi.VpService.{VantagePoint}
use native.Mathlib.Nat.{mul-pos, pow-succ'}
use reverse_traceroute_publi.VpService.Quarantines.{
  Quarantine, is_negative, longer, times, add_duration, back_bound, default_next_backoff,
  new_default_quarantine,
}

-- A quarantine whose next backoff can still be computed in 64 bits.
pub record CanDouble (q : Quarantine) : Type 0 where
  doubles : q.multiplier ≡ 2
  starts : 0 < q.initial_backoff
  ends : 0 < q.max_backoff
  small : q.initial_backoff + q.max_backoff < 2 ^ 63
  early : suc q.attempt < 63
  fits : q.initial_backoff * 2 ^ suc q.attempt < 2 ^ 63

longer-small : (x y : ℕ) → x < 2 ^ 63 → y < 2 ^ 63 → longer x y ≡ ltb y x
unfolding longer
longer-small x y hx hy = ground arith

times-small : (x y : ℕ) → x * y < 2 ^ 63 → times x y ≡ x * y
times-small x y h = omega arith

double_power_pos : (n : ℕ) → 0 < 2 ^ n
double_power_pos zero = omega arith
double_power_pos (suc n) =
    let ih : 0 < 2 ^ n = double_power_pos n in omega (arith, ih, pow-succ' 2 n)

double_pos : (x n : ℕ) → 0 < x → 0 < x * 2 ^ n
double_pos x n h = mul-pos h (double_power_pos n)

smaller :
    (x y : ℕ) → 0 < x → 0 < y → let m = if ltb y x then y else x in (0 < m) × ((m ≤ y) × (m ≤ x))
smaller x y hx hy = ground arith

add_duration-small : (t d : ℕ) → d < 2 ^ 63 → add_duration t d ≡ t + d
unfolding add_duration
add_duration-small t d h = ground arith

positive : (x : ℕ) → 0 < x → x < 2 ^ 63 → (is_negative x || x == 0) ≡ false
positive x h small = ground arith

counted-small : (q : Quarantine) → CanDouble q → (q.attempt + 1) % 2 ^ 64 ≡ suc q.attempt
counted-small q ok = omega (arith, ok.early)

-- A backoff starts between the initial one and that increased by a bound.
pub record NextBackoff (q : Quarantine) (now : ℕ) (next : Quarantine) : Type 0 where
  counted : next.attempt ≡ suc q.attempt
  from : q.initial_backoff ≤ next.current_backoff
  below_max : next.current_backoff < q.initial_backoff + q.max_backoff
  below_double : next.current_backoff < q.initial_backoff + q.initial_backoff * 2 ^ suc q.attempt
  until : next.backoff ≡ now + next.current_backoff

module _ (pow : ℕ → ℕ → ℕ) (rand : ℕ → ℕ) (pow-exact : (n : ℕ) → n < 63 → pow 2 n ≡ 2 ^ n)
    (rand-below : (n : ℕ) → 0 < n → rand n < n) where
  back_bound-CanDouble :
      (q : Quarantine)
      → CanDouble q
      → back_bound pow rand (record q { attempt = (q.attempt + 1) % 2 ^ 64 }) ≡ (
          let back = q.initial_backoff * 2 ^ suc q.attempt in
          if ltb q.max_backoff back then q.max_backoff else back)
  unfolding back_bound
  back_bound-CanDouble q ok =
      rw
        (
          counted-small q ok,
          ok.doubles,
          pow-exact (suc q.attempt) ok.early,
          times-small q.initial_backoff (2 ^ suc q.attempt) ok.fits,
          longer-small (q.initial_backoff * 2 ^ suc q.attempt) q.max_backoff ok.fits
              (omega (arith, ok.small)),
        )
        refl

  -- A quarantine whose next backoff can be computed in 64 bits gets one: at least the initial backoff,
  -- and less than that increased by the maximal backoff and by the initial one doubled once for
  -- each attempt with the new one. `math.Pow` is exact on the powers of two below 2^63, and
  -- `rand.Int63n` draws below its bound.
  pub default_next_backoff-NextBackoff :
      (now : ℕ) (q : Quarantine)
      → CanDouble q
      → (next : Quarantine) × ((default_next_backoff pow rand now q ≡ some next)
          × NextBackoff q now next)
  unfolding default_next_backoff add_duration
  default_next_backoff-NextBackoff now q ok =
      let back = q.initial_backoff * 2 ^ suc q.attempt in
      let bound = if ltb q.max_backoff back then q.max_backoff else back in
      let within =
        smaller back q.max_backoff (double_pos q.initial_backoff (suc q.attempt) ok.starts)
          ok.ends in
      let drawn : rand bound < bound = rand-below bound within.0 in
      let current : (rand bound + q.initial_backoff) % 2 ^ 64 ≡ rand bound + q.initial_backoff =
        omega (arith, drawn, within.1.0, ok.small) in
      let on_time : add_duration now (rand bound + q.initial_backoff)
          ≡ now + (rand bound + q.initial_backoff) =
        add_duration-small now (rand bound + q.initial_backoff)
          (omega (arith, drawn, within.1.0, ok.small)) in
      (
        record q {
          attempt = suc q.attempt;
          current_backoff = rand bound + q.initial_backoff;
          backoff = now + (rand bound + q.initial_backoff);
        },
        (
          rw
              (
                back_bound-CanDouble q ok,
                positive bound within.0 (omega (arith, within.1.0, ok.small)),
                current,
                on_time,
                counted-small q ok,
              )
              refl,
          record {
            counted = refl;
            from = omega arith;
            below_max = omega (arith, drawn, within.1.0);
            below_double = omega (arith, drawn, within.1.1);
            until = refl;
          },
        ),
      )

  -- The panic of `rand.Int63n`: with the multiplier 2, fewer than 62 attempts and a maximal backoff that
  -- is not negative, where the doubled backoff is negative in 64 bits it is taken for shorter than
  -- the maximal one, and `NextBackoff` panics. `math.Pow` is exact on the powers of two below 2^63,
  -- and `rand.Int63n` draws below its bound.
  pub default_next_backoff_panics :
      (now : ℕ) (q : Quarantine)
      → q.multiplier ≡ 2
      → suc q.attempt < 63
      → q.max_backoff < 2 ^ 63
      → 2 ^ 63 ≤ (q.initial_backoff * 2 ^ suc q.attempt) % 2 ^ 64
      → default_next_backoff pow rand now q ≡ none
  unfolding default_next_backoff back_bound longer
  default_next_backoff_panics now q doubles early small wraps =
      let negative : is_negative (times q.initial_backoff (2 ^ suc q.attempt)) ≡ true =
        ground arith in
      let counted : (q.attempt + 1) % 2 ^ 64 ≡ suc q.attempt = omega (arith, early) in
      let above : leb (2 ^ 63) q.max_backoff ≡ false = ground arith in
      rw (counted, doubles, pow-exact (suc q.attempt) early, negative, above, negative) refl

-- The quarantines that are new can double their backoff.
pub new_default_quarantine-CanDouble :
    (v : VantagePoint) (r now : ℕ) → CanDouble (new_default_quarantine v none r now)
unfolding new_default_quarantine
new_default_quarantine-CanDouble v r now = record {
  doubles = refl;
  starts = omega arith;
  ends = omega arith;
  small = omega arith;
  early = omega arith;
  fits = omega arith;
}
