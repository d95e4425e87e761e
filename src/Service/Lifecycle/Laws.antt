-- ===== src/Service/Lifecycle/Laws.antt =====
-- Which calls move a service from one state to another, call by call.
use serverlynx.Prelude.{
  ℕ, ◌≡◌, refl, sym, ap, ◌⊎◌, inl, inr, Bool, true, false, Option, some, Status, success, failure,
  arith,
}
use mathlib.Core.Path.{subst}
use serverlynx.Tn.{Tn}
use serverlynx.Service.{
  Service, ServiceState, new, starting, started, stopping, stopped, error, invalid,
}
use serverlynx.Service.Lifecycle.{
  set_state, listen, start, stop, stop_at, await_stop, await_stop_at, stop_signal,
}

-- The states in which no IO thread runs and none is on its way.
abbrev pub IsIdle : ServiceState → Type 0
IsIdle x = (x ≡ new) ⊎ (x ≡ stopped)

module _ {T : Tn} where
  -- A new or a stopped service starts, and a stop whose join succeeds brings it to STOPPED, from
  -- where it starts again. The join runs with the state STOPPING, and whatever else the IO thread
  -- did to the service is kept.
  pub start-stop :
      (s s' : Service T) (join : Service T → Status × Service T)
      → IsIdle s.state
      → join (record s { state = stopping }) ≡ (success, s')
      → (start true s ≡ (success, record s { state = starting }))
        × (stop join (record s { state = starting }) ≡ (success, record s' { state = stopped }))
        × (start true (record s' { state = stopped }) ≡ (success, record s' { state = starting }))
  unfolding start stop set_state
  start-stop s s' join idle e = ground arith

  -- A stop that finds the service starting or started ends in STOPPED exactly when the join
  -- succeeds, and in ERROR otherwise, and it says so. In any other state it changes nothing and
  -- never joins: its result does not depend on the join.
  pub stop_cases :
      (s : Service T) (join : Service T → Status × Service T)
      → (((s.state ≡ starting) ⊎ (s.state ≡ started))
          × (let (r, t) = join (record s { state = stopping }) in
              ((r ≡ success) × (stop join s ≡ (success, record t { state = stopped })))
              ⊎ ((r ≡ failure) × (stop join s ≡ (failure, record t { state = error })))))
        ⊎ ((IsIdle s.state ⊎ (s.state ≡ stopping)) × (stop join s ≡ (success, s)))
        ⊎ (((s.state ≡ error) ⊎ (s.state ≡ invalid)) × (stop join s ≡ (failure, s)))
  unfolding stop set_state
  stop_cases s join = ground arith

  signal_cases :
      (s : Service T)
      → (((s.state ≡ stopping) ⊎ (s.state ≡ stopped) ⊎ (s.state ≡ error))
          × (stop_signal s ≡ (failure, s)))
        ⊎ (((s.state ≡ new) ⊎ (s.state ≡ starting) ⊎ (s.state ≡ started) ⊎ (s.state ≡ invalid))
            × (stop_signal s ≡ (success, record s { state = stopping })))
  unfolding stop_signal set_state
  signal_cases s = ground arith

  -- A signal to stop is refused in STOPPING, STOPPED and ERROR, where it changes nothing, and accepted
  -- in every other state, so also before the service was ever started. Once it has set STOPPING,
  -- none of these calls leads out of it: a stop reports success without joining the IO thread, a
  -- start fails, a second signal and a listen are refused, and the service stays as it is.
  pub stop_signal_traps :
      (s : Service T)
      → let t = record s { state = stopping } in
        (((s.state ≡ stopping) ⊎ (s.state ≡ stopped) ⊎ (s.state ≡ error))
          × (stop_signal s ≡ (failure, s)))
        ⊎ (((s.state ≡ new) ⊎ (s.state ≡ starting) ⊎ (s.state ≡ started) ⊎ (s.state ≡ invalid))
            × (stop_signal s ≡ (success, t))
            × ((join : Service T → Status × Service T) → stop join t ≡ (success, t))
            × ((launched : Bool) → start launched t ≡ (failure, t))
            × (stop_signal t ≡ (failure, t))
            × ((endpoint : ℕ) → listen t endpoint ≡ (failure, t)))
  unfolding stop_signal stop start listen set_state
  stop_signal_traps s = elim (signal_cases s) [
    | inl refused ↦ inl refused
    | inr (state, accepted) ↦
        inr (state, accepted, λ join. refl, λ launched. refl, refl, λ endpoint. refl)
  ]

  -- A start whose thread cannot be launched fails but leaves the service STARTING, after which every
  -- start reports success and launches nothing.
  pub start_unlaunched :
      (s : Service T)
      → IsIdle s.state
      → let t = record s { state = starting } in
        (start false s ≡ (failure, t)) × ((launched : Bool) → start launched t ≡ (success, t))
  unfolding start set_state
  start_unlaunched s idle = (ground arith, λ launched. refl)

  -- The bind address can be changed exactly while the service is new, stopped or failed; then
  -- nothing else changes, and otherwise nothing does.
  pub listen_lem :
      (s : Service T) (endpoint : ℕ)
      → ((IsIdle s.state ⊎ (s.state ≡ error))
          × (listen s endpoint ≡ (success, record s { host_listen = endpoint })))
        ⊎ (((s.state ≡ starting) ⊎ (s.state ≡ started) ⊎ (s.state ≡ stopping) ⊎ (s.state ≡ invalid))
            × (listen s endpoint ≡ (failure, s)))
  unfolding listen
  listen_lem s endpoint = ground arith

  -- What holds of the service with either address holds after the call.
  pub listen-either :
      (P : Service T → Type 0) (s : Service T) (endpoint : ℕ)
      → P s
      → P (record s { host_listen = endpoint })
      → P (listen s endpoint).1
  listen-either P s endpoint before after = elim (listen_lem s endpoint) [
    | inl (_, e) ↦ subst P (sym (ap (λ r. r.1) e)) after
    | inr (_, e) ↦ subst P (sym (ap (λ r. r.1) e)) before
  ]

  await_stop_at-stop_at :
      (x : ServiceState) (join : Service T → Option (Status × Service T)) (s : Service T)
      → (r : Status × Service T) → join (record s { state = stopping }) ≡ some r
      → await_stop_at x join s ≡ some (stop_at x (λ _. r) s)
  unfolding await_stop_at stop_at set_state
  await_stop_at-stop_at new join s r e = refl
  await_stop_at-stop_at stopping join s r e = refl
  await_stop_at-stop_at stopped join s r e = refl
  await_stop_at-stop_at error join s r e = refl
  await_stop_at-stop_at invalid join s r e = refl
  await_stop_at-stop_at starting join s r e = rw e refl
  await_stop_at-stop_at started join s r e = rw e refl

  -- Where the join returns `r`, the stop ends as with that join.
  pub await_stop-stop :
      (join : Service T → Option (Status × Service T)) (s : Service T) (r : Status × Service T)
      → join (record s { state = stopping }) ≡ some r
      → await_stop join s ≡ some (stop (λ _. r) s)
  unfolding await_stop stop
  await_stop-stop join s r e =
      unfold await_stop_at stop_at in await_stop_at-stop_at s.state join s r e
