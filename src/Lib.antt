-- ===== src/Lib.antt =====
-- A model of ServerLynx, a TCP service in C over libuv, and theorems about it.
--
-- The program. A service (`svl_service_t`) owns a fixed array of links, two pools of buffers, a list
-- of commands, a list of events, and an IO thread that runs a libuv loop. The main thread starts and
-- stops the service, submits commands (open, close, send) and takes events (open, close, read); the
-- IO thread executes the commands between polls and reports through the events. The two threads share
-- only the lists of commands and events, the read pool and the one atomic state of the service.
--
-- Which file models which part:
--   Link                   include/svlynx/link.h: a link, its states
--   Link/List              src/svlynx/link.c: svl_link_list_setup, _cleanup, _open, _close, _reset, _get
--   Link/Reader            src/svlynx/link.c: svl_link_read_header, _read_payload, _buffer_swap
--   Service                include/svlynx/service.h and src/svlynx/service_internal.h: the structures
--   Service/Lifecycle      src/svlynx/service.c: svl_service_listen, _start, _stop, _stop_signal
--   Service/Threads        the same calls and svl_service_io_thread, as interleaved steps
--   Service/IoThread       src/svlynx/service.c: svl_service_io_thread from its start to its end
--   Service/Setup          src/svlynx/service.c: svl_service_setup, _cleanup
--   Service/Config         src/svlynx/service.c: svl_service_config_setup, _setup_default
--   Service/Commands       src/svlynx/service.c: svl_service_cmd_open, _cmd_close, _cmd_send
--   Service/Updates        src/svlynx/service.c: svl_service_events_acquire, _events_release
--   Service/Stats          src/svlynx/service.c: svl_service_stats_clear, _stats_get, _state
--   Io                     what the callbacks of src/svlynx/service_internal.c share
--   Io/Closing             on_close_link_cb, safe_close_uv_handle, on_timer_cb, on_sigint_cb, on_walk_cb
--   Io/Receiving           on_recv_alloc_cb, on_recv_cb
--   Io/Sending             on_send_cb, handle_cmd_send
--   Io/Connecting          on_inbound_connection_cb, on_outbound_connection_cb, handle_cmd_open
--   Io/Commands            handle_cmd_close, on_check_cb
--   System                 the callbacks and the calls above in any order, from the set-up of the
--                          service to its clean-up, and a call of the main thread followed by the
--                          callback that executes it
--   Plugin                 src/svlynx/plugin.c: service_state_wait, service_stop
--   Plugin/Calls           src/svlynx/plugin.c: servlynx_setup, _cleanup, _start, _stop, _events_*
--   Plugin/Sockets         src/svlynx/plugin.c: socklynx_*, over the operations of the socklynx library
--   Programs               what src/svlynx_sv/svlynx_sv.c and src/svlynx_lg/svlynx_lg.c share
--   Programs/Server        src/svlynx_sv/svlynx_sv.c
--   Programs/Generator     src/svlynx_lg/svlynx_lg.c
--   Tn                     what is used of the tn library and of libuv
--   Prelude                shared names, tests on numbers, lemmas on lists
--   Tests                  one instance of the libraries, and the theorems at concrete data
--
-- How the code is read. The tn library, libuv and the socklynx library are not part of the repository.
-- The operations of the first two are the record `Tn`, an argument of every definition that calls them,
-- and their documented behaviour is `IsTn`; those of the third are in Plugin/Sockets. A call
-- that fails gives `none`, and what it was called on is as before. `TN_GUARD` returns `TN_ERROR`, and
-- `TN_GUARD_CLEANUP` jumps to `cleanup`, when its argument is not zero, the `NULL` forms when it is. A
-- pointer to a link is its index, other pointers are numbers, an endpoint is a number. Logging,
-- assertions and the release of memory leave nothing behind and are left out, but for the handles that
-- are closed. A handle's `data` is the service or the link that it belongs to, and that link is an
-- argument of the callback.
--
-- What a service holds. Service/Setup keeps beside the service the list of the parts of the program's
-- memory that it has acquired and not released, so that a leak is a part that is left in it. In Plugin
-- and Programs the IO thread runs beside the main thread: what it does to the service before each call
-- that loads the state, or that takes or gives something, is a function that is an argument of the
-- definitions.
--
-- Bounds. `size_t` and `uint64_t` wrap at 2^64 where the code does arithmetic on them. Three loops have
-- fuel: that of `on_check_cb`, for which more fuel than commands wait is enough, that of
-- `service_state_wait`, for which one unit for each 50 ms of the wait is enough, and that of the
-- programs, for which one unit is enough for each frame up to the one that finds the service not started.
-- In Service/Threads each load and each store of the state is a step of its own, so that every
-- interleaving of the two threads is a sequence of steps.
--
-- What is not modelled: what the calls by which the IO thread prepares its loop change inside libuv
-- (Service/IoThread has their codes, Service/Threads has them as steps that succeed or fail),
-- on_prep_cb, which is an empty function, and the C# bindings. Races inside a list of the tn
-- library are not modelled either: each call of it is one step, and so is each callback in System.
-- `on_outbound_connection_cb` for a connection that failed reads variables that it has not set: it is
-- `none`, and no move of System. Service/Lifecycle has svl_service_stop with a join that returns, and
-- with one that may wait for good, which Programs uses; Plugin has the former. In Programs/Server the
-- read of `link->id`, where `link` is never set, gives a number or crashes the program. The `int`
-- counter of the loop that fills the list of requests is unbounded, and `TN_BUFLEN_CAST` keeps the
-- length, as it does where the length of a `uv_buf_t` is a `size_t`.
pub mod Prelude
pub mod Tn
pub mod Link
pub mod Service
pub mod Io
pub mod Plugin
pub mod Programs
pub mod System
pub mod Tests
