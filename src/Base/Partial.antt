-- ===== src/Base/Partial.antt =====
-- Calls that may panic: `none` is the panic, and `do` goes on with a value. A loop without a bound may
-- run on too, which is a result of its own.
use mathlib.Core.Option.{Option, none, some}
use mathlib.Core.Path.{◌≡◌, refl}

infixl 5 ◌>>=◌
abbrev pub ◌>>=◌ {ℓ κ} : {A : Type ℓ} {B : Type κ} → Option A → (A → Option B) → Option B
none >>= f = none
some a >>= f = f a

-- What a successful chain went through.
pub >>=-eq-some {ℓ κ} :
    {A : Type ℓ} {B : Type κ} (m : Option A) (f : A → Option B) {b : B}
    → (m >>= f) ≡ some b
    → (a : A) × (m ≡ some a) × (f a ≡ some b)
>>=-eq-some none f h = cc
>>=-eq-some (some a) f h = (a, refl, h)

-- What holds of a result, where there is one.
abbrev pub Sat {ℓ κ} : {A : Type ℓ} → (A → Type κ) → Option A → Type κ
Sat P none = Unit
Sat P (some a) = P a

pub >>=-Sat {ℓ κ μ ν} :
    {A : Type ℓ} {B : Type κ} (P : A → Type μ) (Q : B → Type ν) (o : Option A) (f : A → Option B)
    → Sat P o
    → ((a : A) → P a → Sat Q (f a))
    → Sat Q (o >>= f)
>>=-Sat P Q none f h k = tt
>>=-Sat P Q (some a) f h k = k a h

pub >>=-Sat_any {ℓ κ ν} :
    {A : Type ℓ} {B : Type κ} (Q : B → Type ν) (o : Option A) (f : A → Option B)
    → ((a : A) → Sat Q (f a))
    → Sat Q (o >>= f)
>>=-Sat_any Q none f k = tt
>>=-Sat_any Q (some a) f k = k a

pub Sat-map {ℓ κ μ} :
    {A : Type ℓ} (P : A → Type κ) (Q : A → Type μ) (o : Option A)
    → ((a : A) → P a → Q a)
    → Sat P o
    → Sat Q o
Sat-map P Q none h p = tt
Sat-map P Q (some a) h p = h a p

pub Sat-both {ℓ κ μ} :
    {A : Type ℓ} (P : A → Type κ) (Q : A → Type μ) (o : Option A)
    → Sat P o
    → Sat Q o
    → Sat (λ a. P a × Q a) o
Sat-both P Q none p q = tt
Sat-both P Q (some a) p q = (p, q)

-- What comes of code with loops that have no bound, each given a number of rounds: a panic, a loop that
-- is still running, or a value.
pub data Result {ℓ} (A : Type ℓ) : Type ℓ where
  panics runs_on : Result A
  gives : A → Result A

infixl 5 ◌>>>◌
abbrev pub ◌>>>◌ {ℓ κ} : {A : Type ℓ} {B : Type κ} → Result A → (A → Result B) → Result B
panics >>> f = panics
runs_on >>> f = runs_on
gives a >>> f = f a

-- Code without such a loop.
abbrev pub of_option {ℓ} : {A : Type ℓ} → Option A → Result A
of_option none = panics
of_option (some a) = gives a

-- What holds of a value, and of a loop that is still running.
abbrev pub Holds {ℓ κ} : {A : Type ℓ} → Type κ → (A → Type κ) → Result A → Type κ
Holds R P panics = Unit
Holds R P runs_on = R
Holds R P (gives a) = P a

pub >>>-Holds {ℓ κ μ} :
    {A : Type ℓ} {B : Type κ} (R : Type μ) (P : A → Type μ) (Q : B → Type μ) (r : Result A)
    (f : A → Result B)
    → Holds R P r
    → ((a : A) → P a → Holds R Q (f a))
    → Holds R Q (r >>> f)
>>>-Holds R P Q panics f h k = tt
>>>-Holds R P Q runs_on f h k = h
>>>-Holds R P Q (gives a) f h k = k a h

pub of_option-Holds {ℓ κ} :
    {A : Type ℓ} (R : Type κ) (P : A → Type κ) (o : Option A) → Sat P o → Holds R P (of_option o)
of_option-Holds R P none h = tt
of_option-Holds R P (some a) h = h

pub Holds-map {ℓ κ} :
    {A : Type ℓ} (R : Type κ) (P Q : A → Type κ) (r : Result A)
    → ((a : A) → P a → Q a)
    → Holds R P r
    → Holds R Q r
Holds-map R P Q panics h p = tt
Holds-map R P Q runs_on h p = p
Holds-map R P Q (gives a) h p = h a p

-- What follows from its running on holds where it does.
pub Holds-where {ℓ κ} :
    {A : Type ℓ} (R : Type κ) (P : A → Type κ) (r : Result A)
    → Holds Unit P r
    → (r ≡ runs_on → R)
    → Holds R P r
Holds-where R P panics h k = tt
Holds-where R P runs_on h k = k refl
Holds-where R P (gives a) h k = h

pub any-Holds {ℓ κ} :
    {A : Type ℓ} (R : Type κ) (r : Result A) → (r ≡ runs_on → R) → Holds R (λ a. Unit) r
any-Holds R panics k = tt
any-Holds R runs_on k = k refl
any-Holds R (gives a) k = tt

pub Holds-never {ℓ} : {A : Type ℓ} (P : A → Type 0) (r : Result A) → Holds ⊥ P r → Holds Unit P r
Holds-never P panics h = tt
Holds-never P runs_on h = tt
Holds-never P (gives a) h = h
