-- ===== src/Plugin.antt =====
-- The calls of src/svlynx/plugin.c that are about the service. The IO thread runs beside them: `others`
-- says what it does to the service before the load of the service's state of each index.
pub mod Waiting
pub mod Stopping
pub mod Calls
pub mod Lives
pub mod Sockets
use serverlynx.Prelude.{
  ℕ, zero, suc, ◌+◌, Bool, Option, none, some, if◌then◌else◌, ◌==◌, leb, Status, success, failure,
}
use serverlynx.Tn.{Tn}
use serverlynx.Service.{
  Service, ServiceState, new, starting, started, stopping, stopped, error, invalid,
}
use serverlynx.Service.Lifecycle.{stop}

-- The values of the enumeration.
abbrev pub state_value : ServiceState → ℕ
state_value new = 0
state_value starting = 1
state_value started = 2
state_value stopping = 3
state_value stopped = 4
state_value error = 5
state_value invalid = 6

abbrev pub same_state : ServiceState → ServiceState → Bool
same_state x y = state_value x == state_value y

module _ {T : Tn} (others : ℕ → Service T → Service T) where
  -- The loop: the load of index `k` is next, and `total_wait_ms` is `waited`. It gives the status, the
  -- index of the load that comes after, and the service. `none` means that the fuel ran out.
  unfoldable pub wait_loop :
      ℕ → ServiceState → ℕ → ℕ → ℕ → Service T → Option (Status × ℕ × Service T)
  wait_loop zero desired_state wait_ms waited k s = none
  wait_loop (suc fuel) desired_state wait_ms waited k s =
      let t = others k s in
      let rest = wait_loop fuel desired_state wait_ms (waited + 50) (suc k) t in
      if same_state t.state desired_state
      then some (success, suc k, t)
      else if leb wait_ms (waited + 50)
      then some (failure, suc (suc k), others (suc k) t)
      else rest

  unfoldable pub service_state_wait :
      ℕ → ServiceState → ℕ → ℕ → Service T → Option (Status × ℕ × Service T)
  service_state_wait fuel desired_state wait_ms k s = wait_loop fuel desired_state wait_ms 0 k s

  -- The last wait of `service_stop`.
  await_stopped : ℕ → ℕ → Service T → Option (Status × ℕ × Service T)
  await_stopped fuel k s = service_state_wait fuel stopped 500 k s

  -- From the case STARTED on: `svl_service_stop`, with a load and a join of its own.
  stop_started :
      ℕ → (Service T → Status × Service T) → ℕ → Service T → Option (Status × ℕ × Service T)
  unfolding await_stopped
  stop_started fuel join k s =
      let (r, t) = stop join (others k s) in
      elim r [ failure ↦ some (failure, suc k, t) | success ↦ await_stopped fuel (suc k) t ]

  -- From the case STARTING on.
  stop_starting :
      ℕ → (Service T → Status × Service T) → ℕ → Service T → Option (Status × ℕ × Service T)
  unfolding stop_started
  stop_starting fuel join k s = elim (service_state_wait fuel started 500 k s) [
    | none ↦ none
    | some (failure, k', t) ↦ some (failure, k', t)
    | some (success, k', t) ↦ stop_started fuel join k' t
  ]

  stop_in :
      ServiceState
      → ℕ
      → (Service T → Status × Service T)
      → ℕ
      → Service T
      → Option (Status × ℕ × Service T)
  unfolding stop_starting stop_started await_stopped
  stop_in starting fuel join k s = stop_starting fuel join k s
  stop_in started fuel join k s = stop_started fuel join k s
  stop_in new fuel join k s = await_stopped fuel k s
  stop_in stopping fuel join k s = await_stopped fuel k s
  stop_in stopped fuel join k s = await_stopped fuel k s
  stop_in error fuel join k s = some (failure, k, s)
  stop_in invalid fuel join k s = some (failure, k, s)

  unfoldable pub service_stop :
      ℕ → (Service T → Status × Service T) → ℕ → Service T → Option (Status × ℕ × Service T)
  unfolding stop_in
  service_stop fuel join k s = let t = others k s in stop_in t.state fuel join (suc k) t
