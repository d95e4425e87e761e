-- ===== src/Service/Lifecycle.antt =====
-- `svl_service_listen`, `_start`, `_stop`, `_stop_signal` and `_state` of svlynx/service.c, as one
-- thread runs them. `launched` is whether `tn_thread_launch` succeeded; `join` is
-- `tn_thread_join`: the IO thread runs to its end, which may change the service, and `failure` is a
-- nonzero return; it stands for the runs in which the join returns, and `await_stop` is for the others too.
-- What the two threads do to one another in between is in `Service.Threads`.
pub mod Laws
use serverlynx.Prelude.{ℕ, Bool, Option, some, Status, success, failure, if◌then◌else◌}
use mathlib.Core.Option
use serverlynx.Tn.{Tn}
use serverlynx.Service.{
  Service, ServiceState, new, starting, started, stopping, stopped, error, invalid,
}

module _ {T : Tn} where
  unfoldable pub set_state : Service T → ServiceState → Service T
  set_state s x = record s { state = x }

  listen_at : ServiceState → Service T → ℕ → Status × Service T
  listen_at new s endpoint = (success, record s { host_listen = endpoint })
  listen_at stopped s endpoint = (success, record s { host_listen = endpoint })
  listen_at error s endpoint = (success, record s { host_listen = endpoint })
  listen_at _ s endpoint = (failure, s)

  unfoldable pub listen : Service T → ℕ → Status × Service T
  unfolding listen_at
  listen s endpoint = listen_at s.state s endpoint

  launch : Bool → Service T → Status × Service T
  unfolding set_state
  launch launched s = (if launched then success else failure, set_state s starting)

  start_at : ServiceState → Bool → Service T → Status × Service T
  unfolding launch
  start_at new launched s = launch launched s
  start_at stopped launched s = launch launched s
  start_at starting launched s = (success, s)
  start_at started launched s = (success, s)
  start_at stopping launched s = (failure, s)
  start_at error launched s = (failure, s)
  start_at invalid launched s = (failure, s)

  unfoldable pub start : Bool → Service T → Status × Service T
  unfolding start_at
  start launched s = start_at s.state launched s

  joined : Status × Service T → Status × Service T
  unfolding set_state
  joined (success, s) = (success, set_state s stopped)
  joined (failure, s) = (failure, set_state s error)

  stop_at : ServiceState → (Service T → Status × Service T) → Service T → Status × Service T
  unfolding joined set_state
  stop_at new join s = (success, s)
  stop_at stopping join s = (success, s)
  stop_at stopped join s = (success, s)
  stop_at starting join s = joined (join (set_state s stopping))
  stop_at started join s = joined (join (set_state s stopping))
  stop_at error join s = (failure, s)
  stop_at invalid join s = (failure, s)

  unfoldable pub stop : (Service T → Status × Service T) → Service T → Status × Service T
  unfolding stop_at
  stop join s = stop_at s.state join s

  -- `svl_service_stop` with a join that may wait for good, and then gives `none`. `none` from the stop
  -- means that it never returns.
  await_stop_at :
      ServiceState
      → (Service T → Option (Status × Service T))
      → Service T
      → Option (Status × Service T)
  unfolding stop_at
  await_stop_at starting join s = Option.map joined (join (set_state s stopping))
  await_stop_at started join s = Option.map joined (join (set_state s stopping))
  await_stop_at x join s = some (stop_at x (λ t. (failure, t)) s)

  unfoldable pub await_stop :
      (Service T → Option (Status × Service T)) → Service T → Option (Status × Service T)
  unfolding await_stop_at
  await_stop join s = await_stop_at s.state join s

  stop_signal_at : ServiceState → Service T → Status × Service T
  unfolding set_state
  stop_signal_at stopping s = (failure, s)
  stop_signal_at stopped s = (failure, s)
  stop_signal_at error s = (failure, s)
  stop_signal_at _ s = (success, set_state s stopping)

  unfoldable pub stop_signal : Service T → Status × Service T
  unfolding stop_signal_at
  stop_signal s = stop_signal_at s.state s
