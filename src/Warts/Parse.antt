-- ===== src/Warts/Parse.antt =====
-- warts/header.go and warts/warts.go: the parser.
pub mod RoundTrip
pub mod Readers
pub mod Ends
use reverse_traceroute_publi.Base.{
  ℕ, zero, suc, ◌*◌, ◌%◌, ◌^◌, ◌||◌, Bool, true, false, List, [], ◌∷◌, bit_or, length, take, drop,
  get_or, ◌==◌, if◌then◌else◌,
}
use reverse_traceroute_publi.Warts.Reader.{
  Stream, Result, ok, err, Fault, end_of_file, bad_input, out_of_fuel, Reader, pure, raise, ◌>>=◌,
  read_full, get_uint16, get_uint32, new_address_refs,
}
use reverse_traceroute_publi.Warts.Lists.{ListRecord, read_list}
use reverse_traceroute_publi.Warts.Cycles.{CycleStart, CycleStop, read_cycle, read_cycle_stop}
use reverse_traceroute_publi.Warts.Traceroute.{Traceroute, read_traceroute}
use reverse_traceroute_publi.Warts.Ping.{Ping, read_ping}

-- `Header`.
pub record Header : Type 0 where
  pub magic : ℕ
  pub type : ℕ
  pub length : ℕ

-- What `parseNext` returns, an `interface{}`.
pub data Object : Type 0 where
  a_list : ListRecord → Object
  a_cycle_start : CycleStart → Object
  a_cycle_stop : CycleStop → Object
  a_traceroute : Traceroute → Object
  a_ping : Ping → Object
  a_header : Header → Object

-- The header of eight bytes.
abbrev pub header_of : List ℕ → Header
header_of head = record {
  magic = get_uint16 (take 2 head);
  type = get_uint16 (take 2 (drop 2 head));
  length = get_uint32 (drop 4 head);
}

-- `readHeader`.
unfoldable pub read_header : Reader Header
unfolding ◌>>=◌
read_header = do
  head ← read_full 8
  if get_uint16 (take 2 head) == 0x1205 then pure (header_of head) else raise bad_input

-- The `switch` of `parseNext`, with `head` for the types that have no reader.
unfoldable pub parse_body : ℕ → Header → Reader Object
unfolding ◌>>=◌
parse_body type head =
    if type == 0x01
    then (read_list >>= λ r. pure (a_list r))
    else if type == 0x02 || type == 0x03
    then (read_cycle >>= λ r. pure (a_cycle_start r))
    else if type == 0x04
    then (read_cycle_stop >>= λ r. pure (a_cycle_stop r))
    else if type == 0x06
    then (read_traceroute >>= λ r. pure (a_traceroute r))
    else if type == 0x07
    then (read_ping >>= λ r. pure (a_ping r))
    else pure (a_header head)

-- `parseNext`. A header with an error has the type 0, so the error is returned.
unfoldable pub parse_next : Reader Object
unfolding ◌>>=◌ read_header parse_body
parse_next = do head ← read_header; parse_body head.type head

-- `getWartsT`.
unfoldable pub get_warts_t : Object → ℕ
get_warts_t (a_list _) = 0x01
get_warts_t (a_cycle_start _) = 0x02
get_warts_t (a_cycle_stop _) = 0x04
get_warts_t (a_traceroute _) = 0x06
get_warts_t (a_ping _) = 0x07
get_warts_t (a_header _) = 0x00

-- `types[t]`.
unfoldable pub wanted : List ℕ → ℕ → Bool
wanted [] t = false
wanted (obj ∷ objs) t = if obj == t then true else wanted objs t

-- What `Parse` returns: the objects, or an error.
pub data Parsed : Type 0 where
  parsed : List Object → Parsed
  parse_failed : Fault → Parsed

abbrev pub then_parsed : Bool → Object → Parsed → Parsed
then_parsed keep obj (parsed objs) = parsed (if keep then obj ∷ objs else objs)
then_parsed keep obj (parse_failed f) = parse_failed f

-- The loop of `Parse`, on fuel.
unfoldable pub parse_loop : ℕ → List ℕ → Stream → Parsed
unfolding parse_next wanted get_warts_t
parse_loop zero objs s = parse_failed out_of_fuel
parse_loop (suc fuel) objs s = elim (parse_next s) [
  | ok obj s' ↦ then_parsed (wanted objs (get_warts_t obj)) obj (parse_loop fuel objs s')
  | err end_of_file _ ↦ parsed []
  | err f _ ↦ parse_failed f
]

-- `Parse`.
unfoldable pub parse : List ℕ → List ℕ → Parsed
unfolding parse_loop
parse bytes objs =
    parse_loop (suc (length bytes)) objs (record { buffer = bytes; refs = new_address_refs })
