-- ===== src/Plugin/Lives.antt =====
-- What the calls of the plugin API do to a service one after another.
use serverlynx.Prelude.{
  ℕ, ◌<◌, ◌≤◌, ◌≡◌, ◌⊎◌, inl, inr, refl, Bool, true, none, some, List, arith, Status, success,
  failure,
}
use serverlynx.Tn.{Tn, IsTn}
use serverlynx.Service.{Service, new, starting, started, stopping, stopped, error, invalid}
use serverlynx.Service.Lifecycle.{listen, start, set_state}
use serverlynx.Service.Lifecycle.Laws.{IsIdle}
use serverlynx.Service.Setup.{Part, Memory, service_setup}
use serverlynx.Service.Setup.Laws.{service_setup_lem}
use serverlynx.Service.Setup.Parts.{whole}
use serverlynx.Plugin.Calls.{servlynx_setup, servlynx_cleanup, servlynx_start}
use serverlynx.Plugin.Waiting.{run, Stays}
use serverlynx.Plugin.Stopping.{service_stop-started, service_stop-stuck}

module _ {T : Tn} where
  -- A start of the plugin with an endpoint: an idle service takes the endpoint and starts; a service
  -- that failed takes the endpoint and the call fails; in any other state, also where the service
  -- runs, the call fails and nothing changes. Without an endpoint it is a start of the service.
  pub servlynx_start_lem :
      (s : Service T) (endpoint : ℕ)
      → ((IsIdle s.state
            × (servlynx_start true (some endpoint) (some s)
                ≡ (success, some (record s { host_listen = endpoint; state = starting }))))
          ⊎ ((s.state ≡ error)
              × (servlynx_start true (some endpoint) (some s)
                  ≡ (failure, some (record s { host_listen = endpoint }))))
          ⊎ (((s.state ≡ starting)
                ⊎ (s.state ≡ started)
                ⊎ (s.state ≡ stopping)
                ⊎ (s.state ≡ invalid))
              × (servlynx_start true (some endpoint) (some s) ≡ (failure, some s))))
  unfolding servlynx_start listen start set_state
  servlynx_start_lem s endpoint = ground arith

  -- A clean-up of a service that is STOPPING, or that was never started, and that nothing moves from
  -- there: it succeeds, and releases the service's memory while no call has joined the IO thread.
  pub servlynx_cleanup-stuck :
      (others : ℕ → Service T → Service T) (fuel k : ℕ) (join : Service T → Status × Service T)
      → (s : Service T) (held : List Part) → 10 ≤ fuel
      → ((s.state ≡ new) × Stays others new) ⊎ ((s.state ≡ stopping) × Stays others stopping)
      → servlynx_cleanup others fuel join k (some (some (s, held)))
        ≡ some (record {
          status = success;
          cell = some none;
          released = some (run others k 12 s);
          lost = held;
        })
  unfolding servlynx_cleanup
  servlynx_cleanup-stuck others fuel k join s held enough h =
      rw (service_stop-stuck others fuel k s join enough h, servlynx_cleanup) refl

  -- A service from NULL to NULL. The set-up either fails or stores a service that holds all ten parts;
  -- then a start begins it, and a clean-up whose first load finds it STARTED, whose thread can be
  -- joined and whose state nothing else moves, ends and succeeds, with `*service_ptr` NULL and the
  -- service STOPPED when its memory was released: but none of the ten parts is released.
  pub servlynx_life :
      (L : IsTn T) (raw : Service T) (m : Memory) (clears : Bool)
      → (others : ℕ → Service T → Service T) (fuel k : ℕ) (join : Service T → Status × Service T)
      → 0 < fuel
      → Stays others started
      → Stays others stopped
      → ((u : Service T) → u.state ≡ starting → (others k u).state ≡ started)
      → ((u : Service T) → (join u).0 ≡ success)
      → ((servlynx_setup true success (some raw) m clears (some none)).0 ≡ failure)
        ⊎ ((s x : Service T) × (servlynx_setup true success (some raw) m clears (some none)
              ≡ (success, some (some (s, whole))))
            × (servlynx_start true none (some s) ≡ (success, some (record s { state = starting })))
            × (x.state ≡ stopped)
            × (servlynx_cleanup others fuel join k
                  (some (some (record s { state = starting }, whole)))
                ≡ some (record {
                  status = success;
                  cell = some none;
                  released = some x;
                  lost = whole;
                })))
  unfolding servlynx_setup servlynx_start start set_state servlynx_cleanup
  servlynx_life L raw m clears others fuel k join enough run_on end_kept seen joins =
      let r = service_setup m clears raw 1000 in
      let s : Service T = record r.service { state = starting } in
      let (x, end, g) =
        service_stop-started others fuel k s join enough run_on end_kept (seen s refl) joins in
      elim (service_setup_lem L m clears raw 1000) [
        | inl (_, _, _, e, _) ↦ inl e
        | inr (ok, held, is_new, _, _, _, _, _, _) ↦
            inr (
              r.service,
              x,
              rw (ok, held) refl,
              simp is_new refl,
              end,
              rw (g, servlynx_cleanup) refl,
            )
      ]
