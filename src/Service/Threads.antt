-- ===== src/Service/Threads.antt =====
-- The main thread and the IO thread over the one atomic `service->state`: each step is one load or
-- one store of it, or a launch, a join, or a passage of control that involves neither. The main
-- thread runs `svl_service_start` and `svl_service_stop`, the IO thread `svl_service_io_thread`
-- with `on_timer_cb` and `on_sigint_cb` (both from svlynx/service_internal.c) inside `uv_run`.
pub mod Safety
pub mod LostStop
use serverlynx.Prelude.{◌≡◌, ◌≢◌, ◌⊎◌}
use serverlynx.Service.{ServiceState, new, starting, started, stopping, stopped, error, invalid}

-- Where the main thread is. `start_read` and `stop_read` hold what was loaded.
pub data MainPc : Type 0 where
  at_rest : MainPc
  start_read stop_read : ServiceState → MainPc
  launching joining : MainPc

-- Where the IO thread is: never launched, before the test for STARTING, between that test and the
-- store of STARTED, in the loop, in the signal handler, in the loop with its handles closed, after
-- the loop, returned.
pub data IoPc : Type 0 where
  absent setting_up checked looping : IoPc
  signal_read : ServiceState → IoPc
  closing leaving done : IoPc

pub record Threads : Type 0 where
  pub state : ServiceState
  pub main : MainPc
  pub io : IoPc

-- The states from which `start` goes on, from which `stop` goes on, and which `stop_signal` leaves.
abbrev pub CanStart : ServiceState → Type 0
CanStart x = (x ≡ new) ⊎ (x ≡ stopped)

abbrev pub CanStop : ServiceState → Type 0
CanStop x = (x ≡ starting) ⊎ (x ≡ started)

abbrev pub CanSignal : ServiceState → Type 0
CanSignal x = (x ≢ stopping) × (x ≢ stopped) × (x ≢ error)

pub data MainStep (s t : Threads) : Type 0 where
  start_load : s.main ≡ at_rest → t ≡ record s { main = start_read s.state } → MainStep s t
  start_return :
      {x : ServiceState}
      → s.main ≡ start_read x
      → ¬ CanStart x
      → t ≡ record s { main = at_rest }
      → MainStep s t
  start_store :
      {x : ServiceState}
      → s.main ≡ start_read x
      → CanStart x
      → t ≡ record s { state = starting; main = launching }
      → MainStep s t
  launch : s.main ≡ launching → t ≡ record s { main = at_rest; io = setting_up } → MainStep s t
  launch_fails : s.main ≡ launching → t ≡ record s { main = at_rest } → MainStep s t
  stop_load : s.main ≡ at_rest → t ≡ record s { main = stop_read s.state } → MainStep s t
  stop_return :
      {x : ServiceState}
      → s.main ≡ stop_read x
      → ¬ CanStop x
      → t ≡ record s { main = at_rest }
      → MainStep s t
  stop_store :
      {x : ServiceState}
      → s.main ≡ stop_read x
      → CanStop x
      → t ≡ record s { state = stopping; main = joining }
      → MainStep s t
  -- A join returns once the thread has returned, and fails if there is none.
  join :
      s.main ≡ joining
      → s.io ≡ done
      → t ≡ record s { state = stopped; main = at_rest }
      → MainStep s t
  join_fails :
      s.main ≡ joining
      → s.io ≡ absent
      → t ≡ record s { state = error; main = at_rest }
      → MainStep s t

pub data IoStep (s t : Threads) : Type 0 where
  setup_fails : s.io ≡ setting_up → t ≡ record s { state = error; io = done } → IoStep s t
  -- `tn_endpoint_string_get` fails while `ret` is still zero.
  setup_quits : s.io ≡ setting_up → t ≡ record s { io = done } → IoStep s t
  check : s.io ≡ setting_up → s.state ≡ starting → t ≡ record s { io = checked } → IoStep s t
  check_fails : s.io ≡ setting_up → s.state ≢ starting → t ≡ record s { io = leaving } → IoStep s t
  store : s.io ≡ checked → t ≡ record s { state = started; io = looping } → IoStep s t
  timer : s.io ≡ looping → s.state ≢ started → t ≡ record s { io = closing } → IoStep s t
  run_returns : s.io ≡ closing → t ≡ record s { io = leaving } → IoStep s t
  loop_closes : s.io ≡ leaving → t ≡ record s { io = done } → IoStep s t
  loop_close_fails : s.io ≡ leaving → t ≡ record s { state = error; io = done } → IoStep s t

pub data SignalStep (s t : Threads) : Type 0 where
  signal_load : s.io ≡ looping → t ≡ record s { io = signal_read s.state } → SignalStep s t
  signal_return :
      {x : ServiceState}
      → s.io ≡ signal_read x
      → ¬ CanSignal x
      → t ≡ record s { io = looping }
      → SignalStep s t
  signal_store :
      {x : ServiceState}
      → s.io ≡ signal_read x
      → CanSignal x
      → t ≡ record s { state = stopping; io = looping }
      → SignalStep s t

pub data Step (s t : Threads) : Type 0 where
  main : MainStep s t → Step s t
  io : IoStep s t → Step s t
  signal : SignalStep s t → Step s t

abbrev pub initial : Threads
initial = record { state = new; main = at_rest; io = absent }

pub data Reach : Threads → Type 0 where
  here : Reach initial
  next : {s t : Threads} → Reach s → Step s t → Reach t
