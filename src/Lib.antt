-- ===== src/Lib.antt =====
-- A model of redis-course, a key/value server in Go, and theorems about it.
--
-- The program reads bytes from a connection into a buffer, cuts RESP messages off the buffer, makes
-- a command of each message, and runs the command on an in-memory store of typed records with
-- deadlines, memory accounting and eviction.
--
-- What models what:
--   Base             shared names; strconv (Base/Decimal), Go's maps (Base/GoMap), int64 (Base/Int)
--   Protocol/Resp    internal/protocol/resp.go: DecodeOne is `decode_one`, ParseCommand is
--                    `parse_command`, and so on, the Go names in snake case
--   Protocol/Handlers, Protocol/Dispatch
--                    internal/protocol/command_*.go: HandleSET is `handle_set`, and so on;
--                    DispatchCommand is `dispatch_command`, over a table of the thirty commands
--   Server           internal/server/server.go: processRESPBuffer and the RESP part of
--                    handleConnection, over the list of buffers that its reads return; the handler of
--                    a command is a parameter, which Server/Commands fills with the dispatch.
--                    Server/LineProtocol is the part of handleConnection without RESP, Server/Drain is
--                    connSet and drain, and Server/Pool is pool.go
--   Storage/Store    internal/storage/store.go and stats.go: the store and its bookkeeping;
--                    Store/Capacity is eviction.go with Sweep and Stats, Store/Strings is
--                    string_value.go, Store/Sets is simple_set_value.go, Store/Zsets is the
--                    store's part of sorted_set_value.go, Store/Filters and Store/Sketches are
--                    that of bloom_filter.go and count_min_sketch.go; Store/Valid is the invariant
--   Storage/SortedSet
--                    sortedSetIndex of sorted_set_value.go as a record of operations, what the store
--                    relies on as a record of laws over a ranking, and sorted lists, which keep them. No
--                    index of the program is shown to keep them, so that the theorem on all
--                    commands leaves out ZADD and asks nothing of the index
--   Storage/SkipList skip_list.go, on a heap of nodes; a pointer is an index
--   Storage/Eviction the EvictionPolicy interface of eviction.go as a record of operations, its
--                    promises as a record of laws, and the policies of eviction_lru.go, eviction_lfu.go
--                    and eviction_random.go, each with its laws
--   Storage/BloomFilter, Storage/CountMinSketch, Storage/Hash
--                    the filter, the sketch and FNV-1a of bloom_filter.go and count_min_sketch.go
--   Storage/Float64  the comparisons of float64; what package math computes is a parameter
--   Examples         the theorems at concrete inputs
--
-- Conventions. A Go byte slice or string is a list of numbers. An int64 or uint64 that the code
-- wraps is wrapped in the model; a uint64 and the store's counters are words below 2^64. The store's
-- operations run one after the other, as its lock has it, and take the readings of the clock that
-- they make as arguments. What Go leaves open when it ranges over a map is a parameter: `draws`, or
-- an order. An error is a constructor of the operation's result, and a panic is one too: of the
-- parser, and of `make` in the constructors of filters and sketches (Base/Made), which a command
-- passes on as the end of the program. `make` is taken to panic above 2^48 bytes, as on the 64-bit
-- platforms, and to succeed below. What a write to a connection does is a parameter, and
-- so is what strings.ToUpper and strings.ToLower make of a string that is not all ASCII.
--
-- Fuel. `decode_one` has one more fuel than there are bytes, `process_resp_buffer` too, since a
-- message takes at least three bytes; `evict_locked` has as much as there are keys, since a valid
-- store loses one in each round; `drain` has one more round than the timeout has room for.
-- A walk along a level of a skip list has as much fuel as there are nodes.
--
-- Not modelled: b_tree_plus.go, so that the store takes the index of a sorted set as a parameter;
-- EvictionPolicyByName; accepting connections and the epoll loop of server.go, epoll itself
-- (internal/io_multiplexing) and the programs of cmd, which are system calls and wiring.
-- strconv.ParseFloat and FormatFloat are parameters of the handlers.
pub mod Base
pub mod Protocol
pub mod Server
pub mod Storage
pub mod Examples
