-- ===== src/System.antt =====
-- The service as both threads use it: the callbacks of svlynx/service_internal.c and the calls of
-- svlynx/service.c, one after another in any order, from the end of the set-up of the service to its
-- clean-up, while the IO thread does not prepare or leave its loop. Each callback and each call is one
-- move, but for those that store the state, `svl_service_start`, `_stop` and `_stop_signal`, which
-- are one for each store. `b` in a move is whether the main thread has acquired
-- events that it has not yet released.
pub mod Buffers
pub mod Links
pub mod Stocks
pub mod States
pub mod Requests
pub mod Openings
pub mod Deliveries
pub mod Standing
pub mod Meanwhile
pub mod Endings
use serverlynx.Prelude.{ℕ, ℤ, pos, negsuc, ◌<◌, ◌≡◌, Bool, true, false, some}
use serverlynx.Tn.{Tn}
use serverlynx.Service.{Service, ServiceState}
use serverlynx.Service.Lifecycle.{set_state, listen}
use serverlynx.Service.Stats.{stats_clear}
use serverlynx.Service.Commands.Laws.{Request, call}
use serverlynx.Service.Updates.{acquire, release}
use serverlynx.Io.{link_at}
use serverlynx.Io.Closing.{on_close_link_cb, on_timer_cb, on_sigint_cb, on_walk_cb}
use serverlynx.Io.Commands.{on_check_cb}
use serverlynx.Io.Connecting.{on_inbound_connection_cb, on_outbound_connection_cb}
use serverlynx.Io.Receiving.{on_recv_alloc_cb, on_recv_cb}
use serverlynx.Io.Sending.{on_send_cb}

-- A connection that libuv reports as failed is no move: `on_outbound_connection_cb` then reads a variable
-- that it has not set. libuv calls back for links of the array, and brings data only where it was given a
-- buffer. The main thread releases only what it has acquired.
pub data Move {T : Tn} : Service T → Bool → Service T → Bool → Type 0 where
  allocates : {s : Service T} {b : Bool} (p : ℕ) → Move s b (on_recv_alloc_cb s p).1 b
  receives :
      {s : Service T} {b : Bool} (p handle n buffer : ℕ) (has_buf : Bool)
      → p < s.link_list.clients_max
      → (link_at s p).read_buffer ≡ some buffer
      → Move s b (on_recv_cb s p handle (pos n) has_buf) b
  receives_error :
      {s : Service T} {b : Bool} (p handle n : ℕ) (has_buf : Bool)
      → Move s b (on_recv_cb s p handle (negsuc n) has_buf) b
  closes :
      {s : Service T} {b : Bool} (p : ℕ)
      → p < s.link_list.clients_max
      → Move s b (on_close_link_cb s p) b
  sent : {s : Service T} {b : Bool} (r : ℕ) (status : ℤ) → Move s b (on_send_cb s r status) b
  accepts : {s : Service T} {b : Bool} (status : ℤ) → Move s b (on_inbound_connection_cb s status) b
  connects :
      {s t : Service T} {b : Bool} (p : ℕ) (status : ℤ)
      → on_outbound_connection_cb s p status ≡ some t
      → Move s b t b
  commands : {s t : Service T} {b : Bool} (fuel : ℕ) → on_check_cb fuel s ≡ some t → Move s b t b
  ticks : {s : Service T} {b : Bool} → Move s b (on_timer_cb s) b
  signals :
      {s : Service T} {b : Bool} (sigint signum : ℕ) → Move s b (on_sigint_cb sigint s signum) b
  walks : {s : Service T} {b : Bool} (h : ℕ) → Move s b (on_walk_cb s h) b
  submits : {s : Service T} {b : Bool} (r : Request) → Move s b (call s r).2 b
  acquires : {s : Service T} {b : Bool} → Move s b (acquire s).2 true
  releases : {s : Service T} → Move s true (release s).1 false
  -- A store of the state, by either thread.
  stores : {s : Service T} {b : Bool} (x : ServiceState) → Move s b (set_state s x) b
  listens : {s : Service T} {b : Bool} (endpoint : ℕ) → Move s b (listen s endpoint).1 b
  clears : {s : Service T} {b : Bool} → Move s b (stats_clear s).1 b

-- Any number of moves.
pub data Moves {T : Tn} : Service T → Bool → Service T → Bool → Type 0 where
  done : {s : Service T} {b : Bool} → Moves s b s b
  then_move : {s t u : Service T} {b c d : Bool} → Moves s b t c → Move t c u d → Moves s b u d
