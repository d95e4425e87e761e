-- ===== src/Service/Threads/Safety.antt =====
-- What holds in every interleaving of the two threads.
use serverlynx.Prelude.{◌≡◌, refl, ◌⊎◌, inl, inr, arith}
use serverlynx.Service.{ServiceState, starting, started, stopping, error}
use serverlynx.Service.Threads.{
  start_read, launching, IoPc, absent, checked, looping, signal_read, closing, leaving, done,
  Threads, CanStart, MainStep, IoStep, SignalStep, Step, start_load, start_return, start_store,
  launch, launch_fails, stop_load, stop_return, stop_store, join, join_fails, setup_fails,
  setup_quits, check, check_fails, store, timer, run_returns, loop_closes, loop_close_fails,
  signal_load, signal_return, signal_store, Reach, here, next,
}

-- No IO thread runs.
abbrev pub NoThread : Threads → Type 0
NoThread s = (s.io ≡ absent) ⊎ (s.io ≡ done)

pub record IsSafe (s : Threads) : Type 0 where
  -- In the states NEW and STOPPED no IO thread runs.
  pub quiet : CanStart s.state → NoThread s
  -- Nor when `start` has found it so, nor when it is about to launch one.
  pub read_quiet : (x : ServiceState) → s.main ≡ start_read x → CanStart x → NoThread s
  pub launch_quiet : s.main ≡ launching → NoThread s × (s.state ≡ starting)

main-IsSafe : {s t : Threads} → MainStep s t → IsSafe s → IsSafe t
main-IsSafe (start_load p e) h = rw e (record {
  quiet = h.quiet;
  read_quiet = λ x q c. ground (arith, h.quiet);
  launch_quiet = λ q. cc;
})
main-IsSafe (start_return p c e) h =
    rw e (record { quiet = h.quiet; read_quiet = λ x q. cc; launch_quiet = λ q. cc })
main-IsSafe (start_store {x} p c e) h = rw e (record {
  quiet = λ q. ground arith;
  read_quiet = λ y q. cc;
  launch_quiet = λ q. (h.read_quiet x p c, refl);
})
main-IsSafe (launch p e) h =
    let (_, st) = h.launch_quiet p in
    rw e (record { quiet = λ q. ground arith; read_quiet = λ x q. cc; launch_quiet = λ q. cc })
main-IsSafe (launch_fails p e) h =
    rw e (record { quiet = h.quiet; read_quiet = λ x q. cc; launch_quiet = λ q. cc })
main-IsSafe (stop_load p e) h =
    rw e (record { quiet = h.quiet; read_quiet = λ x q. cc; launch_quiet = λ q. cc })
main-IsSafe (stop_return p c e) h =
    rw e (record { quiet = h.quiet; read_quiet = λ x q. cc; launch_quiet = λ q. cc })
main-IsSafe (stop_store p c e) h =
    rw e (record { quiet = λ q. ground arith; read_quiet = λ x q. cc; launch_quiet = λ q. cc })
main-IsSafe (join p d e) h =
    rw e (record { quiet = λ _. inr d; read_quiet = λ x q. cc; launch_quiet = λ q. cc })
main-IsSafe (join_fails p d e) h =
    rw e (record { quiet = λ _. inl d; read_quiet = λ x q. cc; launch_quiet = λ q. cc })

-- While a thread runs, a step of its own is safe unless it leads to NEW or STOPPED and runs on.
running-IsSafe :
    (s : Threads) (x : ServiceState) (y : IoPc)
    → IsSafe s
    → ¬ NoThread s
    → (CanStart x → NoThread (record s { state = x; io = y }))
    → IsSafe (record s { state = x; io = y })
running-IsSafe s x y h busy q = record {
  quiet = q;
  read_quiet = λ z p c. absurd (busy (h.read_quiet z p c));
  launch_quiet = λ p. absurd (busy (h.launch_quiet p).0);
}

io-IsSafe : {s t : Threads} → IoStep s t → IsSafe s → IsSafe t
io-IsSafe {s} (setup_fails p e) h =
    rw e (running-IsSafe s error done h (ground arith) (λ _. inr refl))
io-IsSafe {s} (setup_quits p e) h =
    rw e (running-IsSafe s s.state done h (ground arith) (λ _. inr refl))
io-IsSafe {s} (check p c e) h =
    rw e (running-IsSafe s s.state checked h (ground arith) (λ q. ground arith))
io-IsSafe {s} (check_fails p c e) h =
    rw e (running-IsSafe s s.state leaving h (ground arith) (λ q. ground (arith, h.quiet q)))
io-IsSafe {s} (store p e) h =
    rw e (running-IsSafe s started looping h (ground arith) (λ q. ground arith))
io-IsSafe {s} (timer p c e) h =
    rw e (running-IsSafe s s.state closing h (ground arith) (λ q. ground (arith, h.quiet q)))
io-IsSafe {s} (run_returns p e) h =
    rw e (running-IsSafe s s.state leaving h (ground arith) (λ q. ground (arith, h.quiet q)))
io-IsSafe {s} (loop_closes p e) h =
    rw e (running-IsSafe s s.state done h (ground arith) (λ _. inr refl))
io-IsSafe {s} (loop_close_fails p e) h =
    rw e (running-IsSafe s error done h (ground arith) (λ _. inr refl))

signal-IsSafe : {s t : Threads} → SignalStep s t → IsSafe s → IsSafe t
signal-IsSafe {s} (signal_load p e) h = rw e (
    running-IsSafe s s.state (signal_read s.state) h (ground arith)
      (λ q. ground (arith, h.quiet q)))
signal-IsSafe {s} (signal_return p c e) h =
    rw e (running-IsSafe s s.state looping h (ground arith) (λ q. ground (arith, h.quiet q)))
signal-IsSafe {s} (signal_store p c e) h =
    rw e (running-IsSafe s stopping looping h (ground arith) (λ q. ground arith))

Step-IsSafe : {s t : Threads} → Step s t → IsSafe s → IsSafe t
Step-IsSafe (Step.main m) h = main-IsSafe m h
Step-IsSafe (Step.io m) h = io-IsSafe m h
Step-IsSafe (Step.signal m) h = signal-IsSafe m h

-- In every interleaving of the two threads from a new service, no IO thread runs whenever the state
-- is NEW or STOPPED, when a start has read one of them, or when a start is about to launch a thread:
-- so there is never a second IO thread, and STOPPED means that the last one has returned.
pub Reach-IsSafe : {s : Threads} → Reach s → IsSafe s
Reach-IsSafe here = record { quiet = λ _. inl refl; read_quiet = λ x p. cc; launch_quiet = λ p. cc }
Reach-IsSafe (next r m) = Step-IsSafe m (Reach-IsSafe r)
