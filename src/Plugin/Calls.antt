-- ===== src/Plugin/Calls.antt =====
-- `servlynx_setup`, `_cleanup`, `_start`, `_stop`, `_events_acquire` and `_events_release` of
-- src/svlynx/plugin.c. A `Cell` is what `*service_ptr` points to: the service with the parts that it
-- holds, or `none` for NULL. An argument that is a pointer is `none` where it is NULL, or a test on it.
use serverlynx.Prelude.{
  ℕ, Bool, true, false, Option, none, some, List, [], Status, success, failure,
}
use serverlynx.Tn.{Tn}
use serverlynx.Service.{Service}
use serverlynx.Service.Lifecycle.{listen, start}
use serverlynx.Service.Setup.{Part, Memory, service_setup}
use serverlynx.Service.Updates.{acquire, release}
use serverlynx.Plugin.{service_stop}

abbrev pub Cell : Tn → Type 0
Cell T = Option (Service T × List Part)

-- What a clean-up leaves: its status, `*service_ptr`, the service as it was when its memory was
-- released, and the parts that it held then.
pub record Cleaned (T : Tn) : Type 0 where
  pub status : Status
  pub cell : Option (Cell T)
  pub released : Option (Service T)
  pub lost : List Part

module _ {T : Tn} where
  -- The memory that `TN_MEM_ACQUIRE` gives, and `svl_service_setup` in it.
  fill : Memory → Bool → Option (Service T) → Status × Cell T
  fill m clears none = (failure, none)
  fill m clears (some raw) =
      let r = service_setup m clears raw 1000 in (r.status, some (r.service, r.held))

  -- `sys` is whether it is not NULL, `system` what `sl_sys_setup` returns, `raw` the memory for the
  -- service. The outer `none` is a `service_ptr` that is NULL.
  unfoldable pub servlynx_setup :
      Bool
      → Status
      → Option (Service T)
      → Memory
      → Bool
      → Option (Cell T)
      → Status × Option (Cell T)
  unfolding fill
  servlynx_setup false system raw m clears cell = (failure, cell)
  servlynx_setup true system raw m clears none = (failure, none)
  servlynx_setup true system raw m clears (some (some s)) = (success, some (some s))
  servlynx_setup true failure raw m clears (some none) = (failure, some none)
  servlynx_setup true success raw m clears (some none) =
      let (status, cell) = fill m clears raw in (status, some cell)

  -- The status of `service_stop` and that of `sl_sys_cleanup` are only logged.
  unfoldable pub servlynx_cleanup :
      (ℕ → Service T → Service T)
      → ℕ
      → (Service T → Status × Service T)
      → ℕ
      → Option (Cell T)
      → Option (Cleaned T)
  servlynx_cleanup others fuel join k none =
      some (record { status = success; cell = none; released = none; lost = [] })
  servlynx_cleanup others fuel join k (some none) =
      some (record { status = success; cell = some none; released = none; lost = [] })
  servlynx_cleanup others fuel join k (some (some (s, held))) =
      elim (service_stop others fuel join k s) [
        | none ↦ none
        | some (_, _, t) ↦
            some (record { status = success; cell = some none; released = some t; lost = held })
      ]

  start_from : Bool → Status × Service T → Status × Service T
  start_from launched (failure, s) = (failure, s)
  start_from launched (success, s) = start launched s

  start_service : Bool → Option ℕ → Service T → Status × Service T
  unfolding start_from
  start_service launched none s = start launched s
  start_service launched (some endpoint) s = start_from launched (listen s endpoint)

  unfoldable pub servlynx_start : Bool → Option ℕ → Option (Service T) → Status × Option (Service T)
  unfolding start_service
  servlynx_start launched endpoint none = (failure, none)
  servlynx_start launched endpoint (some s) =
      let (status, t) = start_service launched endpoint s in (status, some t)

  unfoldable pub servlynx_stop :
      (ℕ → Service T → Service T)
      → ℕ
      → (Service T → Status × Service T)
      → ℕ
      → Option (Service T)
      → Option (Status × Option (Service T))
  servlynx_stop others fuel join k none = some (failure, none)
  servlynx_stop others fuel join k (some s) = elim (service_stop others fuel join k s) [
    | none ↦ none
    | some (status, _, t) ↦ some (status, some t)
  ]

  -- `array` is whether `out_evt_ptr_arr` is not NULL; the last argument is what `out_evt_ptr_count`
  -- points to. `servlynx_events_acquire` stores zero there before the call.
  unfoldable pub servlynx_events_acquire :
      Option (Service T) → Bool → Option ℕ → Status × Option ℕ × Option (Service T)
  servlynx_events_acquire none array count = (failure, count, none)
  servlynx_events_acquire (some s) false count = (failure, count, some s)
  servlynx_events_acquire (some s) true none = (failure, none, some s)
  servlynx_events_acquire (some s) true (some old) =
      let (status, count, t) = acquire s in (status, some count, some t)

  unfoldable pub servlynx_events_release : Option (Service T) → Status × Option (Service T)
  servlynx_events_release none = (failure, none)
  servlynx_events_release (some s) = let (status, t) = release s in (status, some t)
