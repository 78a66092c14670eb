-- ===== src/VpService/Quarantines.antt =====
-- The quarantines of vpservice/types/types.go.
--
-- A `time.Duration` is an `int64` of nanoseconds, here its 64-bit pattern; a `time.Time` is a number of
-- nanoseconds since the zero time, which no sum leaves. `pow` is `math.Pow` converted to `int`,
-- `rand` what `rand.Int63n` draws below a positive bound.
pub mod Backoff
use reverse_traceroute_publi.Base.{
  ℕ, zero, suc, ◌+◌, ◌-◌, ◌*◌, ◌%◌, ◌^◌, Bool, true, false, not, ◌||◌, ◌&&◌, Option, none, some,
  ltb, leb, ◌==◌, if◌then◌else◌,
}
use reverse_traceroute_publi.VpService.{VantagePoint}

-- The sign of an `int64`, its comparison and its product.
abbrev pub is_negative : ℕ → Bool
is_negative x = leb (2 ^ 63) x

unfoldable pub longer : ℕ → ℕ → Bool
longer x y = if is_negative x then is_negative y && ltb y x else is_negative y || ltb y x

abbrev pub times : ℕ → ℕ → ℕ
times x y = (x * y) % 2 ^ 64

-- `t.Add(d)`.
unfoldable pub add_duration : ℕ → ℕ → ℕ
add_duration t d = if is_negative d then t - (2 ^ 64 - d) else t + d

-- `QuarantineReason`, an `int`.
abbrev pub QuarantineReason : Type 0
QuarantineReason = ℕ

abbrev pub cant_perform_measurement : QuarantineReason
cant_perform_measurement = 1

abbrev pub manual : QuarantineReason
manual = 2

abbrev pub down_too_long : QuarantineReason
down_too_long = 4

-- `QuarantineType`.
pub data QuarantineType : Type 0 where
  default_quar manual_quar mostly_down_quar : QuarantineType

-- `defaultQuarantine`, which the other types of quarantine embed, with its type.
pub record Quarantine : Type 0 where
  pub type : QuarantineType
  pub vp : VantagePoint
  pub reason : QuarantineReason
  pub attempt : ℕ
  pub last_attempt : ℕ
  pub backoff : ℕ
  pub initial_backoff : ℕ
  pub multiplier : ℕ
  pub max_backoff : ℕ
  pub next_initial_backoff : ℕ
  pub expire : ℕ
  pub current_backoff : ℕ

-- `time.Hour`.
abbrev pub hour : ℕ
hour = 3600000000000

-- A quarantine with nothing but the type, the vantage point and the reason.
abbrev pub zero_quarantine : QuarantineType → VantagePoint → QuarantineReason → Quarantine
zero_quarantine t v r = record {
  type = t;
  vp = v;
  reason = r;
  attempt = 0;
  last_attempt = 0;
  backoff = 0;
  initial_backoff = 0;
  multiplier = 0;
  max_backoff = 0;
  next_initial_backoff = 0;
  expire = 0;
  current_backoff = 0;
}

abbrev pub is_default : QuarantineType → Bool
is_default default_quar = true
is_default manual_quar = false
is_default mostly_down_quar = false

-- The backoff of the previous quarantine where it is of the default type and shorter.
unfoldable pub first_backoff : Option Quarantine → ℕ → ℕ
unfolding longer
first_backoff none initial = initial
first_backoff (some prev) initial =
    if is_default prev.type
    then (if longer initial prev.current_backoff then prev.current_backoff else initial)
    else initial

-- What `NewDefaultQuarantine` and `NewMDQuarantine` set, with the initial backoff of each.
unfoldable pub new_quarantine :
    QuarantineType → VantagePoint → Option Quarantine → QuarantineReason → ℕ → ℕ → Quarantine
unfolding first_backoff add_duration
new_quarantine t v prev r initial now =
    let first = first_backoff prev initial in
    record (zero_quarantine t v r) {
      initial_backoff = first;
      multiplier = 2;
      max_backoff = hour * 24 * 7;
      next_initial_backoff = hour * 24;
      backoff = add_duration now first;
      current_backoff = first;
    }

-- `NewDefaultQuarantine`.
unfoldable pub new_default_quarantine :
    VantagePoint → Option Quarantine → QuarantineReason → ℕ → Quarantine
unfolding new_quarantine
new_default_quarantine v prev r now = new_quarantine default_quar v prev r (hour * 24) now

-- `NewMDQuarantine`.
unfoldable pub new_md_quarantine : VantagePoint → Option Quarantine → ℕ → Quarantine
unfolding new_quarantine
new_md_quarantine v prev now =
    new_quarantine mostly_down_quar v prev down_too_long (hour * 24 * 3 + 12 * hour) now

-- `NewManualQuarantine`.
unfoldable pub new_manual_quarantine : VantagePoint → ℕ → Quarantine
new_manual_quarantine v exp = record (zero_quarantine manual_quar v manual) { expire = exp }

-- `Expired`.
unfoldable pub expired : ℕ → Quarantine → Bool
expired now q = if q.expire == 0 then false else ltb q.expire now || q.expire == now

-- A method that only `manualQuarantine` does not take over from `defaultQuarantine`.
unfoldable pub by_type {ℓ} : {A : Type ℓ} → A → A → QuarantineType → A
by_type embedded own default_quar = embedded
by_type embedded own manual_quar = own
by_type embedded own mostly_down_quar = embedded

-- `Elapsed` of `defaultQuarantine` and of `manualQuarantine`.
unfoldable pub default_elapsed : ℕ → Quarantine → Bool
default_elapsed now q = ltb q.backoff now || q.backoff == now

unfoldable pub elapsed : ℕ → Quarantine → Bool
unfolding default_elapsed by_type
elapsed now q = by_type (default_elapsed now q) false q.type

module _ (pow : ℕ → ℕ → ℕ) (rand : ℕ → ℕ) where
  -- The bound of the next backoff, with the attempt counted already.
  unfoldable pub back_bound : Quarantine → ℕ
  unfolding longer
  back_bound q =
      let back = times q.initial_backoff (pow q.multiplier q.attempt) in
      if longer back q.max_backoff then q.max_backoff else back

  -- `NextBackoff` of `defaultQuarantine`; `rand.Int63n` panics on a bound that is not positive.
  unfoldable pub default_next_backoff : ℕ → Quarantine → Option Quarantine
  unfolding back_bound add_duration
  default_next_backoff now q =
      let counted : Quarantine = record q { attempt = (q.attempt + 1) % 2 ^ 64 } in
      let max_back = back_bound counted in
      let current = (rand max_back + q.initial_backoff) % 2 ^ 64 in
      if is_negative max_back || max_back == 0
      then none
      else some (record counted { current_backoff = current; backoff = add_duration now current })

  -- `NextBackoff`.
  unfoldable pub next_backoff : ℕ → Quarantine → Option Quarantine
  unfolding default_next_backoff by_type
  next_backoff now q = by_type (default_next_backoff now q) (some q) q.type
