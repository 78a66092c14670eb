-- ===== src/Warts/Reader/Encode.antt =====
-- The encoding that the readers of warts/utils.go take apart: big-endian numbers, and texts that end
-- with a zero byte.
use reverse_traceroute_publi.Base.{
  ℕ, suc, ◌*◌, ◌/◌, ◌%◌, ◌^◌, ◌<◌, ◌≡◌, ◌≢◌, refl, ap, ◌∙◌, List, [], ◌∷◌, ◌++◌, length, take, drop,
  bit_or, bit_or_fields, Bool, false, ==_iff, ◌==◌, if◌then◌else◌, arith,
}
use reverse_traceroute_publi.Addresses.RoundTrip.{four_bytes-sum}
use reverse_traceroute_publi.Warts.Reader.{
  AddressRefs, Stream, ok, Reader, pure, ◌>>=◌, wrap, read, read_full, read_uint16, read_uint32,
  get_uint16, get_uint32, string_end, get_string,
}

abbrev pub uint16_bytes : ℕ → List ℕ
uint16_bytes n = n / 2 ^ 8 ∷ n % 256 ∷ []

abbrev pub uint32_bytes : ℕ → List ℕ
uint32_bytes n = n / 2 ^ 24 ∷ n / 2 ^ 16 % 256 ∷ n / 2 ^ 8 % 256 ∷ n % 256 ∷ []

-- No byte of a text is zero.
abbrev pub IsText : List ℕ → Type 0
IsText [] = Unit
IsText (b ∷ bs) = (b ≢ 0) × IsText bs

-- A buffer behind `refs`.
abbrev pub stream : List ℕ → AddressRefs → Stream
stream bytes refs = record { buffer = bytes; refs = refs }

pub get_uint32-bytes : (n : ℕ) → n < 2 ^ 32 → get_uint32 (uint32_bytes n) ≡ n
unfolding get_uint32
get_uint32-bytes n h = omega (
  arith,
  four_bytes-sum (n / 2 ^ 24) (n / 2 ^ 16 % 256) (n / 2 ^ 8 % 256) (n % 256) (omega arith)
      (omega arith) (omega arith) (omega arith),
)

pub get_uint16-bytes : (n : ℕ) → n < 2 ^ 16 → get_uint16 (uint16_bytes n) ≡ n
unfolding get_uint16
get_uint16-bytes n h =
    let high : n / 2 ^ 8 * 2 ^ 8 % 2 ^ 16 ≡ n / 2 ^ 8 * 2 ^ 8 = omega arith in
    let start : bit_or 0 (n / 2 ^ 8 * 2 ^ 8) ≡ n / 2 ^ 8 * 2 ^ 8 =
      omega (arith, bit_or_fields 32 0 (n / 2 ^ 8 * 2 ^ 8) (omega arith)) in
    rw (high, start, bit_or_fields 8 (n / 2 ^ 8) (n % 256) (omega arith)) (omega arith)

take-append : (xs ys : List ℕ) → take (length xs) (xs ++ ys) ≡ xs
take-append [] ys = refl
take-append (x ∷ xs) ys = ap (◌∷◌ x) (take-append xs ys)

drop-append : (xs ys : List ℕ) → drop (length xs) (xs ++ ys) ≡ ys
drop-append [] ys = refl
drop-append (x ∷ xs) ys = drop-append xs ys

eq_self : (n : ℕ) → (n == n) ≡ Bool.true
eq_self n = (==_iff n n).1 refl

pub read_full-append :
    (xs ys : List ℕ) (refs : AddressRefs)
    → read_full (length xs) (stream (xs ++ ys) refs) ≡ ok xs (stream ys refs)
unfolding read_full read ◌>>=◌
read_full-append [] [] refs = refl
read_full-append [] (y ∷ ys) refs = refl
read_full-append (x ∷ xs) ys refs =
    rw (take-append xs ys, drop-append xs ys, eq_self (suc (length xs)), if◌then◌else◌)

-- A reader goes on with what the one before has read.
pub >>=-ok {ℓ κ} :
    {A : Type ℓ} {B : Type κ} (m : Reader A) (f : A → Reader B) (s : Stream) {a : A} {s' : Stream}
    → m s ≡ ok a s'
    → (m >>= f) s ≡ f a s'
unfolding ◌>>=◌
>>=-ok m f s h = rw (h, ◌>>=◌)

pub wrap-ok {ℓ} :
    {A : Type ℓ} (m : Reader A) (s : Stream) {a : A} {s' : Stream}
    → m s ≡ ok a s'
    → wrap m s ≡ ok a s'
unfolding wrap
wrap-ok m s h = rw (h, wrap)

pub read_uint16-bytes :
    (n : ℕ) (ys : List ℕ) (refs : AddressRefs)
    → n < 2 ^ 16
    → read_uint16 (stream (uint16_bytes n ++ ys) refs) ≡ ok n (stream ys refs)
unfolding read_uint16
read_uint16-bytes n ys refs h =
    let s : Stream = stream (uint16_bytes n ++ ys) refs in
    >>=-ok (wrap (read_full 2)) (λ bytes. pure (get_uint16 bytes)) s
      (wrap-ok (read_full 2) s (read_full-append (uint16_bytes n) ys refs))
    ∙ ap (λ m. ok m (stream ys refs)) (get_uint16-bytes n h)

pub read_uint32-bytes :
    (n : ℕ) (ys : List ℕ) (refs : AddressRefs)
    → n < 2 ^ 32
    → read_uint32 (stream (uint32_bytes n ++ ys) refs) ≡ ok n (stream ys refs)
unfolding read_uint32
read_uint32-bytes n ys refs h =
    let s : Stream = stream (uint32_bytes n ++ ys) refs in
    >>=-ok (wrap (read_full 4)) (λ bytes. pure (get_uint32 bytes)) s
      (wrap-ok (read_full 4) s (read_full-append (uint32_bytes n) ys refs))
    ∙ ap (λ m. ok m (stream ys refs)) (get_uint32-bytes n h)

pub get_string-append :
    (text ys : List ℕ) (refs : AddressRefs)
    → IsText text
    → get_string (stream (text ++ (0 ∷ ys)) refs) ≡ ok text (stream ys refs)
unfolding get_string string_end
get_string-append [] ys refs h = refl
get_string-append (b ∷ text) ys refs h =
    let not_end : (b == 0) ≡ false = ground (arith, h.0) in
    rw (not_end, if◌then◌else◌, get_string-append text ys refs h.1)
