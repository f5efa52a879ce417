-- ===== src/Lib.antt =====
-- A model of the monitoring agent of minilisysm: collectors read counters of the system and hand
-- samples to a rule engine, which turns them into events; the events pass through ring buffers to a
-- dispatcher and from there to sinks.
--
--   Queue       include/minilisysm/queue/spsc_ring_buffer.hpp: SpscRingBuffer. `Queue.push` is
--               `emplace`, which both `push` call. Queue/Threads takes `emplace` and `pop` apart
--               into the accesses to `head_`, `tail_` and the slots, as two threads interleave them;
--               its steps are in program order, which is what the acquire and release accesses give
--               two threads of which each writes one index.
--   Rules       src/rules/rule_engine.cpp and include/minilisysm/rules/rule_engine.hpp.
--               Rules/Threshold is `evaluate_threshold` with its three branches, Rules/Engine the
--               class `RuleEngine` and its maps, Rules/Engine/Evaluate its evaluations,
--               Rules/Events the events that they make. Rules/Engine/Calls is a call of any of them.
--   Collectors  src/collectors/io_delay_collector.cpp, cpu_usage_collector.cpp,
--               meminfo_collector.cpp, self_status_collector.cpp and sched_delay_collector.cpp.
--               Collectors/Baselines has the loop, the baselines and the pruning that the first two
--               write alike, with `collect_io_delay` and `collect_cpu_usage` as their `collect`;
--               Collectors/Status has the next two, and Collectors/SchedDelay is
--               sched_delay_collector.cpp.
--   Dispatcher  src/runtime/event_dispatcher.cpp: the loop that empties a source into the queues of
--               the sinks, and EventDispatcherGroup in Dispatcher/Group, with the sinks that
--               src/storage/storage_factory.cpp makes, all of them enabled.
--   Serializer  src/storage/event_serializer.cpp. Serializer/Reader has a reader of JSON strings to
--               compare it with.
--   Wal         the write-ahead log of src/storage/network_event_sink.cpp: append_wal and load_wal,
--               the names of its files in Wal/Index, and rewrite_wal_locked in Wal/Rewrite. The
--               directory is a map from the names of the .wal files to their bytes.
--   Network     the worker of the same file: `offer` is the body of the loop of drain_queues_once,
--               Network/Drained the loop itself, Network/Retry the loops of `run`, Network/Endpoint
--               parse_endpoint. `step` is one call of the sink, or a crash with a restart.
--   Jsonl       src/storage/jsonl_event_sink.cpp: write_event with the files that it opens and
--               rotates; fsync_if_allowed in Jsonl/Fsync, enforce_cache_limit in Jsonl/Cache.
--   Validate    src/core/config.cpp: ConfigLoader::validate. Validate/Thresholds relates an accepted
--               configuration to the rules. Ipv4 is valid_ipv4 of the same file, and Ini its
--               parse_ini with the functions that read one value. Load is load_or_default; std::stod
--               is a parameter of it.
--   Config      include/minilisysm/core/config.hpp, the fields in groups.
--   Samples     the records that the collectors hand to the rules.
--   Event       include/minilisysm/core/event.hpp.
--   Map         std::unordered_map as an association list, in whatever order it is iterated.
--   Double      what the code uses of the type double.
--   Prelude     the names, tests, lists and texts that the parts share.
--
-- Numbers. An unsigned integer is a natural number, and a wrap that can be reached is written out
-- (`u32`, `u64`, `add64`, `sub64`, `mul64`); size_t has 64 bits. A double is a parameter with the
-- operations that the code applies to it, and the theorems that need an order say so; whole numbers
-- stand for it in the tests. A reading of the clock is an argument: `now_ms` for the first of an
-- evaluation, `later_ms` for the one inside of `evaluate_threshold`.
--
-- Bounds and fuel. std::to_string of a number runs on fuel 20, the number of digits of 2 ^ 64. The
-- loops that empty a queue and the loop of the last flushes run on fuel, and a theorem says how much
-- is enough. Every other function recurs on its data. The sizes of texts that are held in memory are
-- not wrapped.
--
-- Files. What the file system does in a call is an argument: whether a file opens, after how many
-- bytes a write fails, whether a segment is written and synced, whether it is renamed, whether the
-- directory is synced, and which old files are removed. Listing a directory succeeds. A crash in a
-- write is a write that fails half-way, followed by a restart; a crash in a rewrite is one whose
-- remaining steps fail, followed by a restart. A file whose name does not end in .wal is left out.
--
-- What a collector has read is an argument: the text of the file, or for disks and processors the
-- readings of each target. `validate` gives back the error text and the changed configuration.
--
-- Not modelled: the reading of files under /proc and /sys, socket calls with the HTTP request that
-- post_batch sends, the start and the end of threads, logging, the collector that polls the eBPF
-- program and that of hardware health, and the parts around the core: the monitor's schedule, the
-- summary text of the JSONL sink, and the metrics server.
pub mod Prelude
pub mod Double
pub mod Event
pub mod Map
pub mod Queue
pub mod Config
pub mod Samples
pub mod Serializer
pub mod Wal
pub mod Network
pub mod Dispatcher
pub mod Jsonl
pub mod Rules
pub mod Ipv4
pub mod Validate
pub mod Collectors
pub mod Ini
pub mod Load
