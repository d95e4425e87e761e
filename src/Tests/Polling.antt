-- ===== src/Tests/Polling.antt =====
-- The theorems on the calls of plugin.c, with an IO thread that lets a starting service be seen to run,
-- and on the set-up of a service.
use serverlynx.Prelude.{
  ◌∷◌, ℤ, pos, negsuc, ℕ, ◌≡◌, refl, ◌⊎◌, inr, true, false, none, some, [], arith, Status, success,
  failure,
}
use serverlynx.Service.{Service, ServiceState, new, starting, started, stopping, stopped}
use serverlynx.Service.Setup.{Memory, write_pool, service_setup, service_cleanup}
use serverlynx.Service.Setup.Laws.{cleanup-setup}
use serverlynx.Service.Setup.Parts.{whole}
use serverlynx.Service.IoThread.{
  Mem, tcp_memory, signal_memory, UvCall, loop_close, loop_close_again, push_all, io_thread,
}
use serverlynx.Service.IoThread.Laws.{io_thread_lem}
use serverlynx.Service.IoThread.Unprinted.{io_thread-unprinted}
use serverlynx.Plugin.{service_stop}
use serverlynx.Plugin.Waiting.{run, Stays}
use serverlynx.Plugin.Stopping.{service_stop-started, service_stop-stuck}
use serverlynx.Plugin.Calls.{servlynx_setup, servlynx_start, servlynx_cleanup}
use serverlynx.Plugin.Lives.{servlynx_life}
use serverlynx.Tests.Sample.{sample, sample-IsTn, in_state}

abbrev next_state : ServiceState → ServiceState
next_state starting = started
next_state x = x

abbrev others : ℕ → Service sample → Service sample
others k s = record s { state = next_state s.state }

others_started : Stays others started
others_started j u e = rw e refl

others_stopped : Stays others stopped
others_stopped j u e = rw e refl

others_stopping : Stays others stopping
others_stopping j u e = rw e refl

abbrev joined_well : Service sample → Status × Service sample
joined_well s = (success, record s { recv_msgs = 3 })

abbrev plenty : Memory
plenty part = true

-- Memory for the first three parts only.
abbrev scarce : Memory
scarce write_pool = false
scarce part = true

service_stop-started_example :
    (t : Service sample) × (t.state ≡ stopped)
    × (service_stop others 10 joined_well 0 (in_state started) ≡ some (success, 3, t))
service_stop-started_example =
    service_stop-started others 10 0 (in_state started) joined_well (omega arith) others_started
      others_stopped refl (λ u. refl)

service_stop-stuck_example :
    service_stop others 10 joined_well 0 (in_state stopping)
    ≡ some (failure, 12, run others 0 12 (in_state stopping))
service_stop-stuck_example =
    service_stop-stuck others 10 0 (in_state stopping) joined_well (omega arith)
      (inr (refl, others_stopping))

cleanup-setup_example :
    let r = service_setup plenty true (in_state new) 2 in
    (r.status ≡ failure) ⊎ (service_cleanup r.service r.held ≡ [])
cleanup-setup_example = cleanup-setup sample-IsTn plenty true (in_state new) 2

servlynx_life_example :
    ((servlynx_setup true success (some (in_state new)) plenty true (some none)).0 ≡ failure)
    ⊎ ((s x : Service sample) × (servlynx_setup true success
            (some (in_state new))
            plenty
            true
            (some none)
          ≡ (success, some (some (s, whole))))
        × (servlynx_start true none (some s) ≡ (success, some (record s { state = starting })))
        × (x.state ≡ stopped)
        × (servlynx_cleanup others 10 joined_well 0
              (some (some (record s { state = starting }, whole)))
            ≡ some
                (record { status = success; cell = some none; released = some x; lost = whole })))
servlynx_life_example =
    servlynx_life sample-IsTn (in_state new) plenty true others 10 0 joined_well (omega arith)
      others_started others_stopped (λ u e. rw e refl) (λ u. refl)

-- Every structure has memory, and no call of libuv fails but the last one.
abbrev address : Mem → ℕ
address x = 90

abbrev codes : UvCall → ℤ
codes loop_close = negsuc 15
codes loop_close_again = negsuc 15
codes x = pos 0

abbrev unchanged : Service sample → Service sample
unchanged s = s

io_thread_lem_example :
    let held =
      (io_thread address
        (negsuc 11)
        (λ x. true)
        codes
        false
        true
        unchanged
        unchanged
        (in_state starting)).1 in
    (held ≡ signal_memory ∷ []) ⊎ ((false ≡ false) × (held ≡ signal_memory ∷ tcp_memory ∷ []))
io_thread_lem_example =
    io_thread_lem address (negsuc 11) (λ x. true) codes false true unchanged unchanged
      (in_state starting) (λ x. refl) (λ u. refl) (λ u. refl) refl

io_thread-unprinted_example :
    (io_thread address
      (negsuc 11)
      (λ x. true)
      (λ x. pos 0)
      true
      false
      unchanged
      unchanged
      (in_state starting)).0.state
    ≡ starting
unfolding push_all
io_thread-unprinted_example =
    io_thread-unprinted address (negsuc 11) (λ x. true) (λ x. pos 0) unchanged unchanged
      (in_state starting) (8, []) (8, 7 ∷ 6 ∷ 5 ∷ 4 ∷ 3 ∷ 2 ∷ 1 ∷ 0 ∷ []) (λ x. refl) (λ x. refl)
      refl refl
