-- ===== src/Service.antt =====
-- The data of `include/svlynx/service.h` and `src/svlynx/service_internal.h`, over the libraries
-- `T`. `world` is what libuv and the allocator keep, and `heap` what is in the buffers. The
-- structures `svl_service_t` and `svl_service_priv_t` are one record: `priv_set` says whether
-- `service->priv` is not NULL, and `client_max` to `send_req_list` are fields of the one or the
-- other. `write_reqs` and `send_req` are arrays of requests, of which only those of `send_req` are
-- read or written after setup; a pointer to one is its index. A request's `uv_buf` is its pointer
-- and its length, and its `id` is never read but in log messages.
pub mod Setup
pub mod Lifecycle
pub mod Threads
pub mod IoThread
pub mod Config
pub mod Commands
pub mod Updates
pub mod Stats
use serverlynx.Prelude.{ℕ, Bool, Option, List}
use serverlynx.Tn.{Tn}
use serverlynx.Tn.Events.{Event}
use serverlynx.Link.List.{LinkList}

pub data ServiceState : Type 0 where
  new starting started stopping stopped error invalid : ServiceState

pub record WriteReq : Type 0 where
  pub link : ℕ
  pub buf_base : ℕ
  pub buf_len : ℕ
  pub cmd_id : ℕ

pub record Service (T : Tn) : Type 0 where
  pub state : ServiceState
  pub host_listen : ℕ
  pub client_count_max : ℕ
  pub buffer_count : ℕ
  pub link_list : LinkList T.list
  pub pool_read : T.pool.Carrier
  pub pool_write : T.pool.Carrier
  pub cmds : T.cmds.Carrier
  pub events : T.events.Carrier
  pub event_updates : List Event
  pub event_updates_count : ℕ
  pub write_reqs_free : T.queue.Carrier
  pub write_reqs_ready : T.queue.Carrier
  pub priv_set : Bool
  pub tcp_handle : Option ℕ
  pub uv_accept_timer : Option ℕ
  pub uv_prep : Option ℕ
  pub uv_check : Option ℕ
  pub uv_signal : Option ℕ
  pub send_req : ℕ → WriteReq
  pub send_req_list : T.list.Carrier
  pub world : T.uv.World
  pub heap : T.buffers.Heap
  -- The globals of service_internal.c.
  pub send_msgs : ℕ
  pub send_bytes : ℕ
  pub recv_msgs : ℕ
  pub recv_bytes : ℕ
