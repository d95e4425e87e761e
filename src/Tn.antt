-- ===== src/Tn.antt =====
-- What the program takes from code that is not part of this repository: the containers and
-- buffers of the tn library (headers `tn/*.h`) and libuv. Each is a record of operations, with a
-- record of documented laws; `Tn` gathers the operations, `IsTn` the laws.
pub mod ListPtr
pub mod Buffers
pub mod BufferPool
pub mod Cmds
pub mod Events
pub mod Queue
pub mod Uv
use serverlynx.Prelude.{ℕ, ℤ, Option}
use ListPtr.{ListPtr as ListPtrOps, IsListPtr}
use Buffers.{BufferOps, IsBuffers}
use BufferPool.{PoolOps, IsPool}
use Cmds.{CmdOps, IsCmds}
use Events.{EventOps, IsEvents}
use Queue.{QueueOps, IsQueue}
use Uv.{UvOps, IsUv}

pub record Tn : Type 1 where
  pub list : ListPtrOps
  pub buffers : BufferOps
  pub pool : PoolOps
  pub cmds : CmdOps
  pub events : EventOps
  pub queue : QueueOps
  pub uv : UvOps
  -- `TN_CMD_INVALID`, and the error codes of `tn/error.h` that a link keeps.
  pub cmd_invalid : ℕ
  pub recv_error : ℤ
  pub recv_ebuf : ℤ
  pub recv_evtpop : ℤ
  pub recv_evtpush : ℤ
  -- `tn_endpoint_convert_from` of a socket address.
  pub convert_from : ℕ → Option ℕ

pub record IsTn (T : Tn) : Type 0 where
  pub list : IsListPtr T.list
  pub buffers : IsBuffers T.buffers
  pub pool : IsPool T.pool
  pub cmds : IsCmds T.cmds
  pub events : IsEvents T.events
  pub queue : IsQueue T.queue
  pub uv : IsUv T.uv
