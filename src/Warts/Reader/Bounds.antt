-- ===== src/Warts/Reader/Bounds.antt =====
-- What the readers of warts/utils.go leave of the buffer, and how readers are put together.
use reverse_traceroute_publi.Base.{
  ℕ, zero, suc, ◌+◌, ◌≤◌, ◌≢◌, inl, inr, Bool, true, false, List, [], ◌∷◌, length, take,
  length-drop, ◌==◌, ==_iff, if◌then◌else◌, arith, length-take, Bool-cases,
}
use reverse_traceroute_publi.Warts.Reader.{
  AddressRefs, Stream, end_of_file, bad_input, out_of_fuel, Result, ok, err, Reader, pure, raise,
  or_else, wrap, ◌>>=◌, read, read_full, read_bytes, read_uint8, read_uint16, read_uint32,
  read_time_val, string_end, get_string,
}

-- Of `n` bytes at least `k` are read where the reader succeeds, and no fuel has run out.
abbrev pub Within {ℓ} : {A : Type ℓ} → ℕ → ℕ → Result A → Type 0
Within k n (ok a s) = length s.buffer + k ≤ n
Within k n (err f s) = (f ≢ out_of_fuel) × (length s.buffer ≤ n)

-- A reader that reads at least `k` bytes.
abbrev pub Eats {ℓ} : {A : Type ℓ} → ℕ → Reader A → Type 0
Eats k r = (s : Stream) → Within k (length s.buffer) (r s)

module _ {ℓ} {A : Type ℓ} where
  pub Within-weaken : (k m n : ℕ) (r : Result A) → Within 0 m r → m + k ≤ n → Within k n r
  Within-weaken k m n (ok a s) h le = omega arith
  Within-weaken k m n (err f s) h le = (h.0, omega arith)

  pub pure-Eats : (a : A) → Eats 0 (pure a)
  pure-Eats a s = omega arith

  pub if-Within :
      (k n : ℕ) (c : Bool) (r t : Result A)
      → Within k n r
      → Within k n t
      → Within k n (if c then r else t)
  if-Within k n true r t hr ht = hr
  if-Within k n false r t hr ht = ht

  pub if-Within_at :
      (k n : ℕ) (c : Bool) (r t : Reader A) (s : Stream)
      → Within k n (r s)
      → Within k n (t s)
      → Within k n ((if c then r else t) s)
  if-Within_at k n true r t s hr ht = hr
  if-Within_at k n false r t s hr ht = ht

  pub if-Eats :
      (k : ℕ) (c : Bool) (r t : Reader A) → Eats k r → Eats k t → Eats k (if c then r else t)
  if-Eats k true r t hr ht = hr
  if-Eats k false r t hr ht = ht

  pub wrap-Eats : (k : ℕ) (r : Reader A) → Eats k r → Eats k (wrap r)
  unfolding wrap
  wrap-Eats k r h s = go (r s) (h s)
    where
      go :
          (o : Result A)
          → Within k (length s.buffer) o
          → Within k (length s.buffer) (elim o [
            | ok a s' ↦ ok a s'
            | err out_of_fuel s' ↦ err out_of_fuel s'
            | err _ s' ↦ err bad_input s'
          ])
      go (ok a s') h = h
      go (err out_of_fuel s') h = h
      go (err end_of_file s') h = (λ e. cc, h.1)
      go (err bad_input s') h = (λ e. cc, h.1)

module _ {ℓ κ} {A : Type ℓ} {B : Type κ} where
  pub >>=-Within :
      (k n : ℕ) (m : Reader A) (f : A → Reader B) (s : Stream)
      → Within k n (m s)
      → ((a : A) (s' : Stream) → length s'.buffer + k ≤ n → Within k n (f a s'))
      → Within k n ((m >>= f) s)
  unfolding ◌>>=◌
  >>=-Within k n m f s h next = go (m s) h
    where
      go :
          (o : Result A)
          → Within k n o
          → Within k n (elim o [ ok a s' ↦ f a s' | err e s' ↦ err e s' ])
      go (ok a s') h = next a s' h
      go (err e s') h = h

  pub >>=-Eats :
      (k : ℕ) (m : Reader A) (f : A → Reader B)
      → Eats k m
      → ((a : A) → Eats 0 (f a))
      → Eats k (m >>= f)
  >>=-Eats k m f hm hf s =
      >>=-Within k (length s.buffer) m f s (hm s)
        (λ a s' le. Within-weaken k (length s'.buffer) (length s.buffer) (f a s') (hf a s') le)

module _ {ℓ κ} {A : Type ℓ} {B : Type κ} where
  pub or_else-Eats :
      (r : Reader A) (f : A → Reader B) (t : Reader B)
      → Eats 0 r
      → ((a : A) → Eats 0 (f a))
      → Eats 0 t
      → Eats 0 (or_else r f t)
  unfolding or_else
  or_else-Eats r f t hr hf ht s = go (r s) (hr s)
    where
      n : ℕ
      n = length s.buffer

      go :
          (o : Result A) → Within 0 n o → Within 0 n (elim o [ ok a s' ↦ f a s' | err _ s' ↦ t s' ])
      go (ok a s') h = Within-weaken 0 (length s'.buffer) n (f a s') (hf a s') h
      go (err e s') h = Within-weaken 0 (length s'.buffer) n (t s') (ht s') (omega arith)

pub Within-zero {ℓ} : {A : Type ℓ} (k n : ℕ) (r : Result A) → Within k n r → Within 0 n r
Within-zero k n (ok a s) h = omega arith
Within-zero k n (err f s) h = h

pub Eats-weaken {ℓ} : {A : Type ℓ} (k : ℕ) (r : Reader A) → Eats k r → Eats 0 r
Eats-weaken k r h s = Within-zero k (length s.buffer) (r s) (h s)

pub raise-Eats {ℓ} : (A : Type ℓ) → Eats 0 (raise {A = A} bad_input)
raise-Eats A s = (λ e. cc, omega arith)

read_full_from :
    (n : ℕ) (bs : List ℕ) (refs : AddressRefs)
    → Within n (length bs) (read_full n (record { buffer = bs; refs = refs }))
unfolding read_full read ◌>>=◌
read_full_from zero [] refs = omega arith
read_full_from (suc n) [] refs = (λ e. cc, omega arith)
read_full_from n (b ∷ bs) refs = elim (Bool-cases (length (take n (b ∷ bs)) == n)) [
  | inl e ↦
      rw (e, if◌then◌else◌)
        (omega (arith, length-take n (b ∷ bs), length-drop n (b ∷ bs), (==_iff _ _).0 e))
  | inr e ↦ rw (e, if◌then◌else◌) (λ e. cc, omega (arith, length-drop n (b ∷ bs)))
]

pub read_full-Eats : (n : ℕ) → Eats n (read_full n)
read_full-Eats n s = read_full_from n s.buffer s.refs

pub read_full-Eats_0 : (n : ℕ) → Eats 0 (read_full n)
read_full-Eats_0 n = Eats-weaken n (read_full n) (read_full-Eats n)

keep_byte :
    (b n : ℕ) (r : Result (List ℕ))
    → Within 0 n r
    → Within 0 n (elim r [ ok text s ↦ ok (b ∷ text) s | err f s ↦ err f s ])
keep_byte b n (ok text s) h = h
keep_byte b n (err f s) h = h

string_end-Within :
    (bs : List ℕ) (refs : AddressRefs) (n : ℕ) → length bs ≤ n → Within 0 n (string_end bs refs)
unfolding string_end
string_end-Within [] refs n h = (λ e. cc, omega arith)
string_end-Within (b ∷ bs) refs n h =
    if-Within 0 n (b == 0) _ _ (omega arith)
      (keep_byte b n (string_end bs refs) (string_end-Within bs refs n (omega arith)))

pub get_string-Eats : Eats 0 get_string
unfolding get_string
get_string-Eats s = string_end-Within s.buffer s.refs (length s.buffer) (omega arith)

pub read_bytes-Eats : (n : ℕ) → Eats 0 (read_bytes n)
unfolding read_bytes
read_bytes-Eats n = Eats-weaken n (read_full n) (read_full-Eats n)

pub read_uint8-Eats : Eats 0 read_uint8
unfolding read_uint8
read_uint8-Eats = Eats-weaken 1 _ (search (>>=-Eats, wrap-Eats, read_full-Eats, pure-Eats))

pub read_uint16-Eats_2 : Eats 2 read_uint16
unfolding read_uint16
read_uint16-Eats_2 = search (>>=-Eats, wrap-Eats, read_full-Eats, pure-Eats)

pub read_uint16-Eats : Eats 0 read_uint16
read_uint16-Eats = Eats-weaken 2 read_uint16 read_uint16-Eats_2

pub read_uint32-Eats : Eats 0 read_uint32
unfolding read_uint32
read_uint32-Eats = Eats-weaken 4 _ (search (>>=-Eats, wrap-Eats, read_full-Eats, pure-Eats))

pub read_time_val-Eats : Eats 0 read_time_val
unfolding read_time_val
read_time_val-Eats = search (>>=-Eats, read_uint32-Eats, pure-Eats)

pub ruleset eats = (
  >>=-Eats, pure-Eats, raise-Eats, if-Eats, wrap-Eats, or_else-Eats, read_full-Eats_0,
  read_bytes-Eats, read_uint8-Eats, read_uint16-Eats, read_uint32-Eats, read_time_val-Eats,
  get_string-Eats,
)
