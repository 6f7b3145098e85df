-- ===== src/Lib.antt =====
-- A model of the gateway between UDP clients and DDS, and what is proved of it.
--
-- The program receives requests over UDP, queues them for one worker thread, which applies them to
-- the DDS entities that it owns, and sends responses and received samples back. DkmRtpIpc is the
-- transport, RtpDdsGateway the rest. The files:
--
-- * Async.antt is RtpDdsGateway/src/async/async_event_processor.cpp with its header: `Processor` is
--   AsyncEventProcessor, and `post`, `enqueue`, `start`, `stop` and `loop` are its functions. A
--   queued closure is the event that it captures, so a job is an event. `take_job`, `call_handler`
--   and `finish_job` are the parts of a round of `loop` inside and outside the lock. Async/Steps has
--   the steps of the threads, which interleave in any order: the counting and the enqueueing of
--   `post` are two steps. Async/Ledger has what becomes of each job; Async/Order, Async/Drain and
--   Async/Monitor have the order of the jobs, the end of the worker and the rounds of `monitor_loop`.
--   An exception of the error handler ends the process (`terminated`). A worker that waits is woken
--   by every post and stop: the notification that `stop` can lose, as it sets `running_` without
--   the mutex, is left out.
-- * Ipc.antt is DkmRtpIpc/src/dkmrtp_ipc.cpp with its headers: Ipc/Bytes is byte order, Ipc/Frame the
--   header and its checks, Ipc/Transport the state of DkmRtpIpc with its sending functions and a
--   round of `recv_loop`, Ipc/Transport/Client the life of a client. The sockets are arguments: whether one opens, and what a send reports.
-- * Dds.antt is the DDS side. Dds/State is the state of DdsManager with that of its dispatcher;
--   Dds/Monad is operations that leave early by a `return` or an exception, and a Hoare logic for
--   them. Dds/Events is dds_manager.cpp and waitset_dispatcher.cpp of RtpDdsGateway/src, Dds/Create
--   dds_manager_entities.cpp, Dds/Samples sample_factory.cpp and sample_guard.cpp, Dds/Publish
--   dds_manager_io.cpp, Dds/Cleanup and Dds/Remove dds_manager_cleanup.cpp. Dds/Dispatch is a turn of
--   the two loops of waitset_dispatcher.cpp. Dds/Calls has the calls of IDdsManager and the private
--   removals in any order. Dds/Invariant has how the maps fit together, and that every operation
--   keeps it so; Dds/Results has what a successful creation means for the next operation.
-- * Holders.antt is RtpDdsGateway/include/dds_type_registry.hpp: Holders/Writer is WriterHolder,
--   Holders/Reader is ReaderHolder with its pool of samples, Holders/Factories is
--   `register_dds_type`; Holders/Pool has what `process_data` delivers. The manager of Dds.antt calls
--   holders through its parameters.
-- * Log.antt is DkmRtpIpc/src/triad_log.cpp: `Logger` is AsyncLogger, `process_queue` is its worker. Log/Moves and Log/Rotation have what a rotation does to the files, Log/Order
--   the order of lines.
-- * Config.antt is RtpDdsGateway/src/app_config.cpp, with the thread of `start_watching` in
--   Config/Watch, which turns the logger of Log.antt on and off.
-- * Stats.antt is RtpDdsGateway/src/stats_manager.cpp: the counters that the other parts raise, and
--   the snapshots that its scheduler takes of them. Stats/Output is `output_snapshot` in its three
--   formats, with `init`, `start`, `stop` and a turn of the scheduler; Stats/Matched has what
--   becomes of the numbers of matched endpoints.
-- * Rpc.antt is RtpDdsGateway/src/ipc_adapter.cpp: Rpc/Backend is the interface IDdsManager, Rpc/Create,
--   Rpc/Handlers and Rpc/Hello are the lambdas of `process_request`, and Rpc/Process is
--   `process_request`, `on_request` and `emit_evt_from_sample`. Rpc/Manager is dds_manager_adapter.cpp,
--   which puts the manager of Dds.antt behind the interface. Rpc/Answers has what an answer says,
--   Rpc/Requests what a client's request asks for, Rpc/Delivery the way of the answer through Ipc.antt.
-- * Xml.antt is RtpDdsGateway/src/qos_xml_helpers.cpp: Xml/Text is texts and the search in them, Xml/Scan
--   and Xml/Extract are the scanners, Xml/Compress is `compress_xml`, Xml/Merge
--   `merge_profile_into_library`, with what it finds in Xml/Merge/Search, and Xml/Print
--   `qos_pack_to_profile_xml`, whose texts are well nested (Xml/Print/Balanced).
-- * Qos.antt is RtpDdsGateway/src/qos_store.cpp: Qos/Store is the state of QosStore, Qos/Load the
--   loading of files, Qos/Find `find_or_reload`, Qos/Update `add_or_update_profile` and Qos/Listing
--   `list_profiles`, Qos/Detail `detail_profiles` and Qos/Service the functions of
--   RtpDdsGateway/src/dds_manager_qos.cpp; Qos/Invariant has what holds after any sequence of these.
-- * Gateway.antt is the wiring in RtpDdsGateway/src/gateway.cpp: what becomes of a datagram, and the
--   handlers that the worker calls. Gateway/App is GatewayApp: its construction, its starts and its
--   stop; Gateway/App/Calls are sequences of these, and Gateway/App/Lifecycle has what holds after them.
-- * Prelude.antt and its children are lists, maps as association lists, numbers and tests.
--
-- A result of DdsManager keeps what its message is made of, in place of the text. The middleware,
-- the generated type tables, the profile store and, for the manager, the holders of readers and
-- writers are parameters (Dds/External, Dds/Samples): they may do anything to a state of their own, and succeed,
-- fail or throw as they like. Only the balance of samples assumes anything of them. So are the JSON
-- library (Rpc/Json), of which only Rpc/Requests assumes that it reads back the objects it builds, and
-- the QoS providers and the file system (Qos/Store), which a call of the store sees in one state.
--
-- Machine integers: counters and identifiers are 64-bit and wrap; the fields of a header have the
-- widths of the packed struct, and lengths below 2^32. The count of writers in `publish_json`, an
-- `int`, is a number without a bound here. The fuel is that of `loop`, where more than the length of
-- the queue is enough, and that of the loops over tags (`for_tags` in Xml/Scan), where the length of
-- the text is enough.
--
-- The calls that the logger makes of the file system and the console are a parameter (Log/Storage), of
-- which only Log/Moves assumes what POSIX says of renaming and removing.
--
-- The printing of numbers and the JSON texts of statistics are parameters (Stats/Output), and what the
-- code reads of a QoS object is a record (Xml/Qos).
--
-- Not modelled: which lines the parts log, the start of threads, the bridge of the RTI logger, the
-- endless wait of `GatewayApp::run`, and the summaries of QoS that nothing calls. Each operation that
-- holds a mutex throughout is one step; `find_or_reload`, which takes its lock several times, runs
-- alone, and so do the calls of GatewayApp between rounds of the worker.
pub mod Prelude
pub mod Async
pub mod Ipc
pub mod Log
pub mod Config
pub mod Dds
pub mod Stats
pub mod Rpc
pub mod Xml
pub mod Qos
pub mod Gateway
pub mod Holders
