-- ===== src/Examples/Conversions.antt =====
-- The theorems on addresses, clusters and adjacencies at concrete inputs. An address is written here
-- as its bytes in unary, each followed by a dot.
use Prim.Native.Char.{code}
use Prim.Native.String as Text
use Prim.Native.String.{String}
use reverse_traceroute_publi.Base.{
  false, fetch_at, or_zero, ℕ, zero, suc, ◌+◌, ◌*◌, ◌≤◌, ◌^◌, ◌≡◌, refl, ap, ap₂, ◌∙◌, eq_refl,
  negsuc, not, ◌&&◌, List, [], ◌∷◌, ◌++◌, Option, some, none, ◌==◌, if◌then◌else◌, arith, ℤ, pos,
  inl, inr, str_eq, str_cases, length, min, take, fetch, store, fetch-store, Dict,
}
use reverse_traceroute_publi.StringUtil.{in_array}
use reverse_traceroute_publi.Addresses.{
  bytes_to_int32, four_bytes, IpNet, int32_to_ip_string, ip_string_to_int32, ip_to_int32,
  int32_to_ip,
}
use reverse_traceroute_publi.Addresses.RoundTrip.{
  ReadsBack, ip_string_to_int32-int32_to_ip_string, ip_to_int32-int32_to_ip,
}
use reverse_traceroute_publi.ClusterMap.{Cache, find_cluster, get_cluster}
use reverse_traceroute_publi.ClusterMap.Cached.{KeepsEntries, IsSound, get_cluster-find_cluster}
use reverse_traceroute_publi.Adjacency.{candidates}
use reverse_traceroute_publi.Adjacency.Candidates.{candidates_lem}
use reverse_traceroute_publi.Revtr.{Revtr}
use reverse_traceroute_publi.Revtr.Probes.{next_adjacents}
use reverse_traceroute_publi.Revtr.Probes.Adjacents.{adjs_left, rate_of, next_adjacents-take}
use reverse_traceroute_publi.Revtr.Spoofers.{add_ranked_spoofers}
use reverse_traceroute_publi.Revtr.Spoofers.Ranks.{
  no_vps, one_vp, RanksFrom, add_ranked_spoofers-RanksFrom,
}
use reverse_traceroute_publi.Examples.Sample.{own_order, own_order-VisitsAll, with_vps}

write_byte : ℕ → String → String
write_byte zero s = Text.◌∷◌ "." s
write_byte (suc n) s = Text.◌∷◌ "1" (write_byte n s)

write_bytes : List ℕ → String
write_bytes [] = ""
write_bytes (b ∷ ip) = write_byte b (write_bytes ip)

read_bytes : ℕ → String → List ℕ
read_bytes n Text.[] = []
read_bytes n (Text.◌∷◌ c s) = if code c == 46 then n ∷ read_bytes 0 s else read_bytes (suc n) s

read-write_byte : (n b : ℕ) (s : String) → read_bytes n (write_byte b s) ≡ (n + b) ∷ read_bytes 0 s
unfolding read_bytes write_byte
read-write_byte n zero s = ap (λ t. t ∷ read_bytes 0 s) (omega arith)
read-write_byte n (suc b) s =
    read-write_byte (suc n) b s ∙ ap (λ t. t ∷ read_bytes 0 s) (omega arith)

read-write_bytes : (ip : List ℕ) → read_bytes 0 (write_bytes ip) ≡ ip
unfolding write_bytes
read-write_bytes [] = unfold read_bytes in refl
read-write_bytes (b ∷ ip) =
    read-write_byte 0 b (write_bytes ip) ∙ ap₂ ◌∷◌ (omega arith) (read-write_bytes ip)

abbrev unary_net : IpNet
unary_net = record {
  parse_ip = λ s. some (read_bytes 0 s);
  to4 = λ ip. some ip;
  ipv4 = λ a b c d. a ∷ b ∷ c ∷ d ∷ [];
  to_string = write_bytes;
}

unary_net-ReadsBack : ReadsBack unary_net
unary_net-ReadsBack a b c d ha hb hc hd = (ap some (read-write_bytes (a ∷ b ∷ c ∷ d ∷ [])), refl)

ip_string_to_int32-int32_to_ip_string_example :
    (s : String) × (int32_to_ip_string unary_net 0x01020304 ≡ some s)
    × (ip_string_to_int32 unary_net s ≡ some 0x01020304)
ip_string_to_int32-int32_to_ip_string_example =
    ip_string_to_int32-int32_to_ip_string unary_net 0x01020304 unary_net-ReadsBack (omega arith)

ip_to_int32-int32_to_ip_example :
    ip_to_int32 unary_net (int32_to_ip unary_net (10 * 2 ^ 24 + 0 * 2 ^ 16 + 0 * 2 ^ 8 + 1))
    ≡ some (1 * 2 ^ 24 + 0 * 2 ^ 16 + 0 * 2 ^ 8 + 10)
ip_to_int32-int32_to_ip_example =
    ip_to_int32-int32_to_ip unary_net 10 0 0 1 unary_net-ReadsBack (omega arith) (omega arith)
      (omega arith) (omega arith)

-- A cache that keeps everything.
abbrev dict_cache : Cache (Dict String)
dict_cache = record { get = fetch; set = store }

dict_cache-KeepsEntries : KeepsEntries dict_cache
dict_cache-KeepsEntries cache key other v = elim (str_cases key other) [
  | inl same ↦ inr (
      inl (
        same,
        fetch-store cache key other v ∙ rw (ap (λ t. str_eq t other) same ∙ eq_refl other) refl,
      ))
  | inr differs ↦ inr (inr (fetch-store cache key other v ∙ rw differs refl))
]

abbrev one_cluster : ℕ → Option ℤ
one_cluster ip = if ip == 0x01020304 then some (pos 7) else none

abbrev in_unary : ℤ → String
in_unary n = elim n [ pos m ↦ write_byte m "" | negsuc m ↦ "" ]

empty-IsSound : IsSound dict_cache unary_net one_cluster in_unary []
unfolding fetch
empty-IsSound s = inl refl

get_cluster-find_cluster_example :
    ((get_cluster dict_cache unary_net one_cluster in_unary [] "1.11.111.1111.").1
      ≡ find_cluster dict_cache unary_net one_cluster in_unary "1.11.111.1111.")
    × IsSound dict_cache unary_net one_cluster in_unary
        (get_cluster dict_cache unary_net one_cluster in_unary [] "1.11.111.1111.").0
get_cluster-find_cluster_example =
    get_cluster-find_cluster dict_cache unary_net one_cluster in_unary [] "1.11.111.1111."
      dict_cache-KeepsEntries empty-IsSound

candidates_lem_example :
    (length
        (candidates own_order "5.5.5.5" ("4.4.4.4" ∷ []) ("4.4.4.4" ∷ "5.5.5.5" ∷ "6.6.6.6" ∷ []))
      ≤ 30)
    × ((rest : List String) × (candidates own_order "5.5.5.5"
            ("4.4.4.4" ∷ [])
            ("4.4.4.4" ∷ "5.5.5.5" ∷ "6.6.6.6" ∷ [])
          ≡ take 30 (("4.4.4.4" ∷ []) ++ rest))
        × ((h : String)
            → in_array rest h ≡ (
                (in_array ("4.4.4.4" ∷ "5.5.5.5" ∷ "6.6.6.6" ∷ []) h
                  && not (in_array ("4.4.4.4" ∷ []) h))
                && not (str_eq "5.5.5.5" h))))
candidates_lem_example =
    candidates_lem own_order "5.5.5.5" ("4.4.4.4" ∷ []) ("4.4.4.4" ∷ "5.5.5.5" ∷ "6.6.6.6" ∷ [])
      own_order-VisitsAll

-- Two spoofers, whose texts are those of `unary_net`.
abbrev text_1 : String
text_1 = "1.1.1.1."

abbrev text_2 : String
text_2 = "1.1.1.11."

add_ranked_spoofers-RanksFrom_example :
    let added = add_ranked_spoofers unary_net text_1 (text_1 ∷ text_2 ∷ []) [] in
    let new = or_zero [] (fetch_at added.0 0x01010101) in
    RanksFrom 1 (0x01010101 ∷ 0x01010102 ∷ []) new × (added.1 ≡ false) × (length new ≡ 2)
unfolding fetch_at ip_string_to_int32 bytes_to_int32 four_bytes read_bytes
add_ranked_spoofers-RanksFrom_example =
    add_ranked_spoofers-RanksFrom unary_net text_1 0x01010101 (text_1 ∷ text_2 ∷ [])
      (0x01010101 ∷ 0x01010102 ∷ []) [] refl (one_vp refl (one_vp refl no_vps))
      (refl, refl, (refl, refl, tt))

-- Three adjacencies of 5.5.5.5 are left, and two are probed at a time.
abbrev with_neighbours : Revtr
with_neighbours = record with_vps {
  ts_hop_adjs_left = ("5.5.5.5", "6.6.6.6" ∷ "7.7.7.7" ∷ "8.8.8.8" ∷ []) ∷ [];
  ts_hop_rate_limit = ("5.5.5.5", 2) ∷ [];
}

next_adjacents-take_example :
    let next = next_adjacents "5.5.5.5" with_neighbours in
    (next.1 ++ adjs_left next.0 "5.5.5.5" ≡ adjs_left with_neighbours "5.5.5.5")
    × (length next.1
        ≡ min (rate_of with_neighbours "5.5.5.5") (length (adjs_left with_neighbours "5.5.5.5")))
    × (adjs_left next.0 "9.9.9.9" ≡ (
        if str_eq "5.5.5.5" "9.9.9.9"
        then adjs_left next.0 "5.5.5.5"
        else adjs_left with_neighbours "9.9.9.9"))
next_adjacents-take_example = next_adjacents-take "5.5.5.5" "9.9.9.9" with_neighbours
