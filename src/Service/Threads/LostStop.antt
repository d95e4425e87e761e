-- ===== src/Service/Threads/LostStop.antt =====
-- The race between `svl_service_stop` and the IO thread's test of the state before its store.
use serverlynx.Prelude.{ap, ◌∙◌, ◌≡◌, refl, inl, arith}
use serverlynx.Service.{new, starting, started, stopping}
use serverlynx.Service.Threads.{
  at_rest, start_read, stop_read, launching, joining, absent, setting_up, checked, looping, Threads,
  MainStep, IoStep, Step, start_load, start_return, start_store, launch, launch_fails, stop_load,
  stop_return, stop_store, join, join_fails, setup_fails, setup_quits, check, check_fails, store,
  timer, run_returns, loop_closes, loop_close_fails, Reach, here, next,
}

-- Any number of steps of the two threads in which no signal arrives.
pub data Unsignalled (s : Threads) : Threads → Type 0 where
  rest : Unsignalled s s
  main_next : {t u : Threads} → Unsignalled s t → MainStep t u → Unsignalled s u
  io_next : {t u : Threads} → Unsignalled s t → IoStep t u → Unsignalled s u

-- A stop that waits for a thread that runs on.
IsLost : Threads → Type 0
IsLost s = (s.state ≡ started) × (s.main ≡ joining) × (s.io ≡ looping)

no_main : {s t : Threads} → IsLost s → MainStep s t → ⊥
unfolding IsLost
no_main l (start_load p e) = cc
no_main l (start_return p c e) = cc
no_main l (start_store p c e) = cc
no_main l (launch p e) = cc
no_main l (launch_fails p e) = cc
no_main l (stop_load p e) = cc
no_main l (stop_return p c e) = cc
no_main l (stop_store p c e) = cc
no_main (_, _, l) (join p d e) = ground arith
no_main (_, _, l) (join_fails p d e) = ground arith

no_io : {s t : Threads} → IsLost s → IoStep s t → ⊥
unfolding IsLost
no_io (x, _, l) (setup_fails p e) = ground arith
no_io (x, _, l) (setup_quits p e) = ground arith
no_io (x, _, l) (check p c e) = ground arith
no_io (x, _, l) (check_fails p c e) = ground arith
no_io (x, _, l) (store p e) = ground arith
no_io (x, _, l) (timer p c e) = c x
no_io (x, _, l) (run_returns p e) = ground arith
no_io (x, _, l) (loop_closes p e) = ground arith
no_io (x, _, l) (loop_close_fails p e) = ground arith

lost_stays : {s t : Threads} → IsLost s → Unsignalled s t → t ≡ s
lost_stays l rest = refl
lost_stays {s} l (main_next {t} r m) = absurd (no_main {s = s} l (rw (lost_stays l r) at m))
lost_stays {s} l (io_next {t} r m) = absurd (no_io {s = s} l (rw (lost_stays l r) at m))

-- The store of STARTED over whatever `stop` has stored.
abbrev pub overwritten : Threads → Threads
overwritten s = record s { state = started; io = looping }

-- When a stop has stored STOPPING and waits for the IO thread, and that thread has tested for STARTING
-- before and not stored STARTED yet, then its store overwrites the stop, and from there on, however the
-- two threads run, nothing changes any more unless a signal arrives: the service is started, its loop
-- runs, and the stop waits for good.
pub stop_lost :
    (s u : Threads)
    → s.main ≡ joining
    → s.io ≡ checked
    → Unsignalled (overwritten s) u
    → IoStep s (overwritten s)
      × (u ≡ overwritten s)
      × (u.state ≡ started)
      × (u.main ≡ joining)
      × (u.io ≡ looping)
unfolding IsLost
stop_lost s u m p r =
    let same : u ≡ overwritten s = lost_stays (refl, m, refl) r in
    (store p refl, same, ap (λ v. v.state) same, ap (λ v. v.main) same ∙ m, ap (λ v. v.io) same)

-- The interleaving that leads there.
abbrev pub overtaken : Threads
overtaken = record { state = stopping; main = joining; io = checked }

pub Reach-overtaken : Reach overtaken
Reach-overtaken = next r5 (Step.main (stop_store refl (inl refl) refl))
  where
    r1 : Reach (record { state = new; main = start_read new; io = absent })
    r1 = next here (Step.main (start_load refl refl))

    r2 : Reach (record { state = starting; main = launching; io = absent })
    r2 = next r1 (Step.main (start_store refl (inl refl) refl))

    r3 : Reach (record { state = starting; main = at_rest; io = setting_up })
    r3 = next r2 (Step.main (launch refl refl))

    r4 : Reach (record { state = starting; main = at_rest; io = checked })
    r4 = next r3 (Step.io (check refl refl refl))

    r5 : Reach (record { state = starting; main = stop_read starting; io = checked })
    r5 = next r4 (Step.main (stop_load refl refl))
