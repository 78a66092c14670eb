-- ===== src/Lib.antt =====
-- Reverse traceroute: the engine that measures the path from a destination back to a source, and
-- the libraries it stands on.
--
-- The program. The runner (revtr/runner) steps many reverse traceroutes at once. The state of one,
-- with its stack of candidate paths, is revtr/reverse_traceroute/revese_traceroute.go; a path
-- (reverse_path.go) is a list of segments (segments.go), each found by one kind of probe. A probe's
-- answer becomes segments, which `AddSegments` sorts, frees of loops and puts on the stack; where a
-- hop has no more probes `FailCurrPath` pops the paths that end in dead ends. `GetRRVPs` and
-- `GetTSAdjacents` say which probes to send next. The set operations of util/string are used
-- throughout.
--
-- Where each part is modelled:
--   Base                shared types, the library's names, maps, integers, strings.
--   StringUtil          util/string/string_utils.go, every function.
--   Segment             revtr/reverse_traceroute/segments.go: types and methods; Segment/Create has
--                       the constructors.
--   ReversePath         revtr/reverse_traceroute/reverse_path.go.
--   Revtr               revtr/reverse_traceroute/revese_traceroute.go: the state and its queries;
--                       Revtr/Add has AddSegments and AddAndReplaceSegment, Revtr/Fail FailCurrPath,
--                       Revtr/Background AddBackgroundTRSegment, Revtr/Probes the choice of the next
--                       probes, Revtr/Storable the path in ToStorable, Revtr/Spoofers the ranked
--                       spoofers.
--   Adjacency           getAdjacenciesForIPToSrc of the same file: neighbours worth a probe.
--   ClusterMap          revtr/clustermap/cluster_map.go: the clusters of aliases behind a cache.
--   Addresses           util/util.go: addresses as numbers and as text.
--   Uuencode            uuencode/uuencode.go and uuencode/uudecode.go, which carry the measurements.
--   Runner              revtr/runner/revtr_runner.go: Runner/Engine has the state beside Revtr, the
--                       options and the services, Runner/ProcessRr processRR and what it calls,
--                       Runner/Issue the probes and their answers, Runner/TrToSource the step into
--                       the atlas, Runner/RecordRoute the record route step, Runner/Tunnel its
--                       checks for tunnels, Runner/Timestamp the step for timestamps with its
--                       probes in Runner/Slots and their answers in Runner/Stamps,
--                       Runner/Symmetric the step that assumes symmetry and those around it,
--                       Runner/Traceroutes the forward traceroute and the pings at the end,
--                       Runner/Run the loop over the steps, and Runner/Whole all of it put
--                       together. The private addresses of revtr/ip_utils/ip_util.go are in
--                       Runner/Engine, ipoptions/ip_options_utils.go is in Runner/Slots.
--   SpoofMap            spoofmap/spoofMap.go: the spoofed probes that wait for an answer.
--   Warts               warts/: the parser of the measurement files. Warts/Reader has utils.go,
--                       Warts/Address address.go, Warts/Flags getFlags, Warts/Lists, Warts/Cycles,
--                       Warts/Extensions, Warts/Traceroute and Warts/Ping the records,
--                       Warts/Parse header.go and warts.go.
--   VpService           vpservice/: VpService/Quarantines has the quarantines of types/types.go,
--                       VpService/Filters those of filters/ and GetRRSpoofers, VpService/Server a tick
--                       of tryUnquarantine and the quarantines that checkCapabilities finds, both of
--                       server/server.go.
--   Examples            the theorems at concrete inputs.
-- The files below a part hold its theorems, and are named for what they prove.
--
-- How it is modelled. A Go method that changes its receiver returns the new state; a panic is
-- `none`, or `panics` in a `Result`; an error is a Bool or an Option as the comment at the
-- definition says. A Go map is an association list, read by `fetch` and written by `store`, a
-- missing key being `none`. The order in which `range` visits a map is a parameter, `visit`, of
-- which the theorems only ask that it visits each entry and nothing else. The cluster map's `Get`
-- is the parameter `cm`, the address parser of package net the record `Net`, the ranking service
-- the parameter `rkc`, the result of `sort.Sort` the parameter `sorted`, of which the theorems ask
-- that it makes up no element. The clock is an argument. Callbacks are recorded as they are called.
-- Each loop is structural recursion on the slice that it visits or on the index that it lowers,
-- with these on fuel: `encode_lines`, one more than the bytes, of which each line takes at least
-- one; `parse_loop` and `extensions_from` of Warts, one more than the bytes, of which each round
-- takes some; `cut_path` and `cut_hops` of AddBackgroundTRSegment, two rounds for each segment and
-- one for each hop; `skip_loops` of processRR, one more than the hops, of which each round takes
-- one; and `timestamp_loop`, one more than the neighbours left of the last hop. This fuel is shown
-- to be enough. `run_loop`, `record_route_loop`, `next_hop_loop` and `add_stars` have no bound of
-- their own: their fuel is a number of rounds, any number, and what holds one of them answers with
-- a `Result`, in which a loop that is still running after its rounds is told apart from a panic.
-- The readers of Warts pass on the buffer and the address references, which the source shares by
-- pointers. The steps of the spoof map are a relation, in any order. Bytes, addresses and the
-- durations of quarantines wrap; integers that the source keeps in `int` are unbounded elsewhere:
-- they are lengths, indexes and counters. `math.Pow` and `rand.Int63n` are parameters of the
-- quarantines.
--
-- Not modelled: the calls of the measurement services, which are gRPC, and of the runner what only
-- dead code calls (retreiveTraceroutes, CheckTracerouteStaleness); the float statistics of a ping; text
-- output and JSON; locks (each operation of a traceroute is run by one goroutine at a time); of the
-- vantage point service the filters for timestamp spoofers, which repeat the others, and the tests of
-- the capabilities; the servers, SQL and HTTP around the engine.
pub mod Base
pub mod StringUtil
pub mod Segment
pub mod ReversePath
pub mod Revtr
pub mod Uuencode
pub mod Addresses
pub mod ClusterMap
pub mod Adjacency
pub mod VpService
pub mod Warts
pub mod Runner
pub mod SpoofMap
pub mod Examples
