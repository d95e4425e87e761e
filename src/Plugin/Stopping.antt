-- ===== src/Plugin/Stopping.antt =====
-- How `service_stop` ends, for a service that runs and for one that nothing stops.
use serverlynx.Prelude.{
  ℕ, zero, suc, ◌+◌, ◌≤◌, ◌<◌, ◌≡◌, ◌≢◌, refl, sym, ap, ◌∙◌, ◌⊎◌, inl, inr, some, Status, success,
  failure, arith,
}
use serverlynx.Tn.{Tn}
use serverlynx.Service.{Service, ServiceState, new, started, stopping, stopped}
use serverlynx.Service.Lifecycle.{stop}
use serverlynx.Service.Lifecycle.Laws.{stop_cases}
use serverlynx.Plugin.{
  wait_loop, service_state_wait, service_stop, stop_in, stop_started, await_stopped,
}
use serverlynx.Plugin.Waiting.{run, Stays, stays, service_state_wait_lem}

module _ {T : Tn} (others : ℕ → Service T → Service T) where
  -- A service that stays STOPPED is found so by the first load.
  await_stopped_lem :
      (fuel k : ℕ) (s : Service T)
      → 0 < fuel
      → (others k s).state ≡ stopped
      → await_stopped others fuel k s ≡ some (success, suc k, others k s)
  unfolding await_stopped service_state_wait wait_loop
  await_stopped_lem (suc fuel) k s enough e = rw (e, wait_loop) refl
  await_stopped_lem zero k s enough e = absurd (omega arith)

  -- What `svl_service_stop` gives then.
  joined_stop :
      (s : Service T) (join : Service T → Status × Service T)
      → s.state ≡ started
      → ((u : Service T) → (join u).0 ≡ success)
      → ((stop join s).0 ≡ success) × ((stop join s).1.state ≡ stopped)
  joined_stop s join e joins =
      let ok = joins (record s { state = stopping }) in
      elim (stop_cases s join) [
        | inl (_, inl (_, g)) ↦ (ap (λ p. p.0) g, ap (λ p. p.1.state) g)
        | inl (_, inr (bad, _)) ↦ absurd (ground arith)
        | inr (inl (idle, _)) ↦ absurd (ground arith)
        | inr (inr (bad, _)) ↦ absurd (ground arith)
      ]

  stop_started_lem :
      (fuel k : ℕ) (s : Service T) (join : Service T → Status × Service T)
      → 0 < fuel
      → Stays others started
      → Stays others stopped
      → s.state ≡ started
      → ((u : Service T) → (join u).0 ≡ success)
      → (t : Service T) × (t.state ≡ stopped)
        × (stop_started others fuel join k s ≡ some (success, suc (suc k), t))
  unfolding stop_started
  stop_started_lem fuel k s join enough run_on end_kept e joins =
      let t = (stop join (others k s)).1 in
      let (ok, end) = joined_stop (others k s) join (run_on k s e) joins in
      let kept = end_kept (suc k) t end in
      (others (suc k) t, kept, rw (ok, stop_started) (await_stopped_lem fuel (suc k) t enough kept))

  -- A service that the first load finds started, and of which the IO thread can be joined, is
  -- stopped: after three loads of the state, if nothing else moves it, the call succeeds and the service
  -- is STOPPED.
  pub service_stop-started :
      (fuel k : ℕ) (s : Service T) (join : Service T → Status × Service T)
      → 0 < fuel
      → Stays others started
      → Stays others stopped
      → (others k s).state ≡ started
      → ((u : Service T) → (join u).0 ≡ success)
      → (t : Service T) × (t.state ≡ stopped)
        × (service_stop others fuel join k s ≡ some (success, suc (suc (suc k)), t))
  unfolding service_stop stop_in
  service_stop-started fuel k s join enough run_on end_kept now joins =
      simp now (stop_started_lem fuel (suc k) (others k s) join enough run_on end_kept now joins)

  -- A wait of 500 ms for STOPPED fails where the service stays in another state.
  await_stopped-stuck :
      (fuel k : ℕ) (s : Service T) (x : ServiceState)
      → 10 ≤ fuel
      → x ≢ stopped
      → Stays others x
      → s.state ≡ x
      → await_stopped others fuel k s ≡ some (failure, k + 11, run others k 11 s)
  unfolding await_stopped
  await_stopped-stuck fuel k s x enough other keep e =
      elim (service_state_wait_lem others fuel stopped 10 k s (omega arith) enough) [
        | inr (_, g) ↦ g
        | inl (i, _, shown, _) ↦ absurd (other (sym (stays others x k (suc i) s keep e) ∙ shown))
      ]

  -- A service that was never started, or that is STOPPING, and that nothing moves from there: the
  -- call waits for STOPPED in vain, and fails after its twelve loads, never joining the IO thread.
  pub service_stop-stuck :
      (fuel k : ℕ) (s : Service T) (join : Service T → Status × Service T)
      → 10 ≤ fuel
      → ((s.state ≡ new) × Stays others new) ⊎ ((s.state ≡ stopping) × Stays others stopping)
      → service_stop others fuel join k s ≡ some (failure, k + 12, run others k 12 s)
  unfolding service_stop stop_in
  service_stop-stuck fuel k s join enough (inl (e, keep)) =
      let now = keep k s e in
      let next : suc k + 11 ≡ k + 12 = omega arith in
      simp (now, ← next)
        (await_stopped-stuck fuel (suc k) (others k s) new enough (λ p. ground arith) keep now)
  service_stop-stuck fuel k s join enough (inr (e, keep)) =
      let now = keep k s e in
      let next : suc k + 11 ≡ k + 12 = omega arith in
      simp (now, ← next)
        (await_stopped-stuck fuel (suc k) (others k s) stopping enough (λ p. ground arith) keep now)
