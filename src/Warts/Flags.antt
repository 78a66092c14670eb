-- ===== src/Warts/Flags.antt =====
-- warts/flags.go: the numbers of the flags that a record sets. Each byte has seven of them, and the
-- eighth bit says that another byte follows.
use reverse_traceroute_publi.Base.{ℕ, zero, suc, ◌+◌, ◌*◌, ◌%◌, List, [], ◌∷◌, ◌++◌, if◌then◌else◌}
use reverse_traceroute_publi.Warts.Reader.{
  AddressRefs, Stream, Result, ok, err, end_of_file, bad_input, raise, Reader, isset, pure, ◌>>=◌,
  read_uint16,
}

-- The flags `i` to 7 of a byte, `n` of them; `uint8` arithmetic.
unfoldable pub byte_flags : ℕ → ℕ → ℕ → ℕ → List ℕ
byte_flags zero i check byte_num = []
byte_flags (suc n) i check byte_num =
    (if isset check i then (i + 7 * ((byte_num + 255) % 256)) % 256 ∷ [] else [])
    ++ byte_flags n (suc i) check byte_num

-- `ret = append(ret, ...)`, with the earlier flags in front.
abbrev pub with_flags : List ℕ → Result (List ℕ) → Result (List ℕ)
with_flags front (ok flags s) = ok (front ++ flags) s
with_flags front (err f s) = err f s

-- The loop of `getFlags`, over the buffer.
unfoldable pub more_flags : List ℕ → AddressRefs → ℕ → ℕ → Result (List ℕ)
more_flags [] refs check byte_num =
    let s : Stream = record { buffer = []; refs = refs } in
    if isset check 8 then err end_of_file s else ok (byte_flags 7 1 check byte_num) s
more_flags (next ∷ bs) refs check byte_num =
    let rest = more_flags bs refs next ((byte_num + 1) % 256) in
    if isset check 8
    then with_flags (byte_flags 7 1 check byte_num) rest
    else ok (byte_flags 7 1 check byte_num) (record { buffer = next ∷ bs; refs = refs })

-- `getFlags`.
unfoldable pub get_flags : ℕ → Reader (List ℕ)
unfolding more_flags
get_flags first s = more_flags s.buffer s.refs first 1

-- The length behind the flags, which is read and dropped where a flag is set.
unfoldable pub skip_length : List ℕ → Reader ℕ
skip_length [] = pure 0
skip_length (flag ∷ flags) = read_uint16

-- A case that reads a value and puts it into a field.
unfoldable pub into {ℓ κ} : {A : Type ℓ} {B : Type κ} → Reader B → (B → A → A) → A → Reader A
unfolding ◌>>=◌
into r put a = do v ← r; pure (put v a)

-- A `switch` with the cases 1, 2, and so on, and an error for another flag.
unfoldable pub switch {ℓ} : {A : Type ℓ} → List (A → Reader A) → ℕ → A → Reader A
switch [] flag a = raise bad_input
switch (case ∷ cases) zero a = raise bad_input
switch (case ∷ cases) (suc zero) a = case a
switch (case ∷ cases) (suc (suc flag)) a = switch cases (suc flag) a

-- `for _, flag := range flags { switch flag ... }`, with `by_flag` for the `switch`.
unfoldable pub each_flag {ℓ} : {A : Type ℓ} → (ℕ → A → Reader A) → List ℕ → A → Reader A
unfolding ◌>>=◌
each_flag by_flag [] a = pure a
each_flag by_flag (flag ∷ flags) a = by_flag flag a >>= each_flag by_flag flags

-- A loop that reads `count` values.
unfoldable pub repeat_reader {ℓ} : {A : Type ℓ} → ℕ → Reader A → Reader (List A)
unfolding ◌>>=◌
repeat_reader zero r = pure []
repeat_reader (suc count) r = do a ← r; rest ← repeat_reader count r; pure (a ∷ rest)
