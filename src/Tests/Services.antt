-- ===== src/Tests/Services.antt =====
-- The theorems on the service's calls and threads, on a service of three links.
use serverlynx.Prelude.{
  ℕ, ◌+◌, ◌*◌, ◌≡◌, refl, ◌⊎◌, Bool, [], ◌∷◌, arith, Status, success, failure, count,
}
use mathlib.Core.Option.{some-ne-none}
use serverlynx.Service.{Service, new, starting, started, stopping, stopped, error, invalid}
use serverlynx.Service.Lifecycle.{start, stop, stop_signal, listen}
use serverlynx.Service.Lifecycle.Laws.{IsIdle, stop_cases, stop_signal_traps}
use serverlynx.Service.Threads.{IoStep, joining, looping}
use serverlynx.Service.Threads.Safety.{IsSafe, Reach-IsSafe}
use serverlynx.Service.Threads.LostStop.{rest, overwritten, stop_lost, overtaken, Reach-overtaken}
use serverlynx.Service.Config.{Sizes, Cfg, config_default_instance, config_setup_default}
use serverlynx.Service.Config.Exact.{config_setup_default_exact}
use serverlynx.Service.Updates.{release}
use serverlynx.Service.Updates.Laws.{
  Fits, Returned, updates, buffers_of, addresses, release-Returned, release_twice,
}
use serverlynx.Tests.Sample.{sample, sample-IsTn, in_state, a_read}

abbrev joined_well : Service sample → Status × Service sample
joined_well s = (success, record s { recv_msgs = 3 })

stop_cases_example :
    (((started ≡ starting) ⊎ (started ≡ started))
      × (((success ≡ success)
            × (stop joined_well (in_state started)
                ≡ (success, record (in_state stopped) { recv_msgs = 3 })))
          ⊎ ((success ≡ failure)
              × (stop joined_well (in_state started)
                  ≡ (failure, record (in_state error) { recv_msgs = 3 })))))
    ⊎ ((IsIdle started ⊎ (started ≡ stopping))
        × (stop joined_well (in_state started) ≡ (success, in_state started)))
    ⊎ (((started ≡ error) ⊎ (started ≡ invalid))
        × (stop joined_well (in_state started) ≡ (failure, in_state started)))
stop_cases_example = stop_cases (in_state started) joined_well

stop_signal_traps_example :
    (((new ≡ stopping) ⊎ (new ≡ stopped) ⊎ (new ≡ error))
      × (stop_signal (in_state new) ≡ (failure, in_state new)))
    ⊎ (((new ≡ new) ⊎ (new ≡ starting) ⊎ (new ≡ started) ⊎ (new ≡ invalid))
        × (stop_signal (in_state new) ≡ (success, in_state stopping))
        × ((join : Service sample → Status × Service sample)
            → stop join (in_state stopping) ≡ (success, in_state stopping))
        × ((launched : Bool) → start launched (in_state stopping) ≡ (failure, in_state stopping))
        × (stop_signal (in_state stopping) ≡ (failure, in_state stopping))
        × ((endpoint : ℕ) → listen (in_state stopping) endpoint ≡ (failure, in_state stopping)))
stop_signal_traps_example = stop_signal_traps (in_state new)

Reach-IsSafe_example : IsSafe overtaken
Reach-IsSafe_example = Reach-IsSafe Reach-overtaken

stop_lost_example :
    IoStep overtaken (overwritten overtaken)
    × (overwritten overtaken ≡ overwritten overtaken)
    × (started ≡ started)
    × (joining ≡ joining)
    × (looping ≡ looping)
stop_lost_example = stop_lost overtaken (overwritten overtaken) refl refl rest

abbrev sizes : Sizes
sizes = record { event_base = 64; cmd_base = 48; write_req = 120 }

config_setup_default_exact_example :
    let (r, d) = config_setup_default sizes config_default_instance 10 in
    (r ≡ success)
    × (d.link_buffer_inbound_count ≡ 40)
    × (d.link_buffer_outbound_count ≡ 40)
    × (d.event_count ≡ 40)
    × (d.cmd_count ≡ 40)
    × (d.write_req_count ≡ 40)
    × (d.total_heap_size ≡ 7878240)
config_setup_default_exact_example =
    config_setup_default_exact sizes config_default_instance 10 (omega arith) (omega arith)
      (omega arith) (omega arith) (omega arith)

abbrev no_events : Cfg
no_events = record config_default_instance { event_mult = 0 }

fits : Fits (updates (in_state started)) (in_state started)
fits = (some-ne-none _, some-ne-none _, tt)

release-Returned_example :
    (t : Service sample) × (release (in_state started) ≡ (success, t))
    × Returned sample-IsTn (updates (in_state started)) (in_state started) t
release-Returned_example = release-Returned sample-IsTn (in_state started) fits

release_twice_example :
    let u = (release (release (in_state started)).1).1 in
    (count 21 u.pool_read
      ≡ 2 * count 21 (buffers_of (updates (in_state started)))
        + count 21 (in_state started).pool_read)
    × (count 21 u.events.0
        ≡ 2 * count 21 (addresses (updates (in_state started)))
          + count 21 (in_state started).events.0)
release_twice_example =
    release_twice sample-IsTn (in_state started) fits (some-ne-none _, some-ne-none _, tt) 21

-- A service with one read event that waits.
abbrev waiting : Service sample
waiting = record (in_state started) {
  events = (3 ∷ [], a_read ∷ []);
  event_updates = [];
  event_updates_count = 0;
}
