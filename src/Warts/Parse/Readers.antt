-- ===== src/Warts/Parse/Readers.antt =====
-- The readers of the records, warts/address.go to warts/ping.go, never take more than there is, and
-- end: each loop uses up the buffer or counts down.
use reverse_traceroute_publi.Base.{ℕ, zero, suc, ◌+◌, ◌%◌, ◌≤◌, Bool, List, [], ◌∷◌, length, arith}
use reverse_traceroute_publi.Warts.Reader.{Address, AddressRefs, Result, ok, err, Reader, isset}
use reverse_traceroute_publi.Warts.Reader.Bounds.{
  Within, Eats, >>=-Eats, if-Within, read_uint16-Eats, pure-Eats, raise-Eats, eats,
}
use reverse_traceroute_publi.Warts.Address.{
  read_referenced_address, lookup_address, note_address, address_of_length, read_address,
  with_new_refs,
}
use reverse_traceroute_publi.Warts.Flags.{
  with_flags, more_flags, get_flags, skip_length, into, switch, each_flag, repeat_reader,
}
use reverse_traceroute_publi.Warts.Lists.{
  ListFlags, read_monitor, list_strings, list_flags_of, read_list_flags, read_list,
}
use reverse_traceroute_publi.Warts.Cycles.{
  CycleStartFlags, read_stop_time, read_hostname, cycle_flags_of, read_cycle_start_flags,
  read_cycle, read_cycle_stop_flags, read_cycle_stop,
}

lookup_address-Eats : (id : ℕ) → Eats 0 (lookup_address id)
unfolding lookup_address
lookup_address-Eats id s = omega arith

note_address-Eats : (a : Address) → Eats 0 (note_address a)
unfolding note_address
note_address-Eats a s = omega arith

pub read_referenced_address-Eats : Eats 0 read_referenced_address
unfolding read_referenced_address
read_referenced_address-Eats = search (eats, lookup_address-Eats)

address_of_length-Eats : (n : ℕ) → Eats 0 (address_of_length n)
unfolding address_of_length
address_of_length-Eats zero = read_referenced_address-Eats
address_of_length-Eats (suc n) = search (eats, note_address-Eats)

pub read_address-Eats : Eats 0 read_address
unfolding read_address
read_address-Eats = search (eats, address_of_length-Eats)

pub with_new_refs-Eats {ℓ} :
    {A : Type ℓ} (k : ℕ) (r : Reader A) → Eats k r → Eats k (with_new_refs r)
unfolding with_new_refs
with_new_refs-Eats k r h s = h (record s { refs = _ })

-- Putting flags in front does not touch the stream.
with_flags-Within :
    (front : List ℕ) (n : ℕ) (r : Result (List ℕ)) → Within 0 n r → Within 0 n (with_flags front r)
with_flags-Within front n (ok flags s) h = h
with_flags-Within front n (err f s) h = h

more_flags-Within :
    (bs : List ℕ) (refs : AddressRefs) (check byte_num n : ℕ)
    → length bs ≤ n
    → Within 0 n (more_flags bs refs check byte_num)
unfolding more_flags
more_flags-Within [] refs check byte_num n h =
    if-Within 0 n (isset check 8) _ _ (λ e. cc, omega arith) (omega arith)
more_flags-Within (b ∷ bs) refs check byte_num n h =
    if-Within 0 n (isset check 8) _ _
      (with_flags-Within _ n _ (more_flags-Within bs refs b ((byte_num + 1) % 256) n (omega arith)))
      (omega arith)

pub get_flags-Eats : (first : ℕ) → Eats 0 (get_flags first)
unfolding get_flags
get_flags-Eats first s = more_flags-Within s.buffer s.refs first 1 (length s.buffer) (omega arith)

pub skip_length-Eats : (flags : List ℕ) → Eats 0 (skip_length flags)
unfolding skip_length
skip_length-Eats [] s = omega arith
skip_length-Eats (flag ∷ flags) s = read_uint16-Eats s

pub into-Eats {ℓ κ} :
    {A : Type ℓ} {B : Type κ} (r : Reader B) (put : B → A → A) (a : A)
    → Eats 0 r
    → Eats 0 (into r put a)
unfolding into
into-Eats r put a h = search (eats)

-- Every case of a `switch` reads within the buffer.
abbrev pub AllEat {ℓ} : {A : Type ℓ} → List (A → Reader A) → Type ℓ
AllEat [] = Unit
AllEat (case ∷ cases) = ((a : _) → Eats 0 (case a)) × AllEat cases

pub switch-Eats {ℓ} :
    {A : Type ℓ} (cases : List (A → Reader A)) (flag : ℕ) (a : A)
    → AllEat cases
    → Eats 0 (switch cases flag a)
unfolding switch
switch-Eats {A} [] flag a h = raise-Eats A
switch-Eats {A} (case ∷ cases) zero a h = raise-Eats A
switch-Eats (case ∷ cases) (suc zero) a h = h.0 a
switch-Eats (case ∷ cases) (suc (suc flag)) a h = switch-Eats cases (suc flag) a h.1

pub each_flag-Eats {ℓ} :
    {A : Type ℓ} (cases : List (A → Reader A)) (flags : List ℕ) (a : A)
    → AllEat cases
    → Eats 0 (each_flag (switch cases) flags a)
unfolding each_flag
each_flag-Eats cases [] a h = pure-Eats a
each_flag-Eats cases (flag ∷ flags) a h =
    >>=-Eats 0 _ _ (switch-Eats cases flag a h) (λ b. each_flag-Eats cases flags b h)

pub repeat_reader-Eats {ℓ} :
    {A : Type ℓ} (count : ℕ) (r : Reader A) → Eats 0 r → Eats 0 (repeat_reader count r)
unfolding repeat_reader
repeat_reader-Eats zero r h s = omega arith
repeat_reader-Eats (suc count) r h s =
    >>=-Eats 0 r _ h (λ a. >>=-Eats 0 _ _ (repeat_reader-Eats count r h) (λ rest t. omega arith)) s

read_monitor-Eats : (set : Bool) (lf : ListFlags) → Eats 0 (read_monitor set lf)
unfolding read_monitor
read_monitor-Eats set lf = search (eats)

list_strings-Eats : (dsc mon : Bool) (lf : ListFlags) → Eats 0 (list_strings dsc mon lf)
unfolding list_strings
list_strings-Eats dsc mon lf = search (eats, read_monitor-Eats)

list_flags_of-Eats : (flag : ℕ) → Eats 0 (list_flags_of flag)
unfolding list_flags_of
list_flags_of-Eats flag = search (eats, list_strings-Eats)

read_list_flags-Eats : Eats 0 read_list_flags
unfolding read_list_flags
read_list_flags-Eats = search (eats, list_flags_of-Eats)

pub read_list-Eats : Eats 0 read_list
unfolding read_list
read_list-Eats = search (eats, read_list_flags-Eats)

read_stop_time-Eats : (set : Bool) (csf : CycleStartFlags) → Eats 0 (read_stop_time set csf)
unfolding read_stop_time
read_stop_time-Eats set csf = search (eats)

read_hostname-Eats : (set : Bool) (csf : CycleStartFlags) → Eats 0 (read_hostname set csf)
unfolding read_hostname
read_hostname-Eats set csf = search (eats)

cycle_flags_of-Eats : (flag : ℕ) → Eats 0 (cycle_flags_of flag)
unfolding cycle_flags_of
cycle_flags_of-Eats flag = search (eats, read_stop_time-Eats, read_hostname-Eats)

read_cycle_start_flags-Eats : Eats 0 read_cycle_start_flags
unfolding read_cycle_start_flags
read_cycle_start_flags-Eats = search (eats, cycle_flags_of-Eats)

pub read_cycle-Eats : Eats 0 read_cycle
unfolding read_cycle
read_cycle-Eats = search (eats, read_cycle_start_flags-Eats)

pub read_cycle_stop-Eats : Eats 0 read_cycle_stop
unfolding read_cycle_stop read_cycle_stop_flags
read_cycle_stop-Eats = search (eats)
