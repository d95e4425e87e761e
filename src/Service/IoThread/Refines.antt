-- ===== src/Service/IoThread/Refines.antt =====
-- The IO thread as one function against the steps of `Service.Threads`.
use serverlynx.Prelude.{
  ℕ, ℤ, arith, ◌≡◌, ◌≢◌, refl, ◌∙◌, inl, inr, Bool, true, false, none, List, [], ◌∷◌, if◌then◌else◌,
  Option-cases, Bool-cases,
}
use serverlynx.Tn.{Tn}
use serverlynx.Service.{Service, ServiceState, starting, started}
use serverlynx.Service.Lifecycle.{set_state}
use serverlynx.Service.Threads.{
  MainPc, IoPc, setting_up, checked, looping, closing, leaving, Threads, Step, setup_fails, done,
  setup_quits, check, check_fails, store, run_returns, loop_closes, loop_close_fails,
}
use serverlynx.Io.{is_zero}
use serverlynx.Service.IoThread.{
  Mem, UvCall, loop_close, loop_close_again, Stage, goes, quits, and_then, acquire_all, call_all,
  make_requests, listen_on, run_loop, clean, end_thread, prepare, io_thread, push_all, is_starting,
  loop_calls, listen_calls, point, loop_memory, tcp_memory, timer_memory, prep_memory, check_memory,
  signal_memory, requests_memory, request_list,
}
use serverlynx.Service.IoThread.Laws.{AllOf, AllOf-and_then, call_all-AllOf, if_either}

-- Any number of steps of the two threads.
pub data Steps : Threads → Threads → Type 0 where
  stays : {s : Threads} → Steps s s
  then_step : {s t u : Threads} → Steps s t → Step t u → Steps s u

joined_path : {s t u : Threads} → Steps s t → Steps t u → Steps s u
joined_path p stays = p
joined_path p (then_step q m) = then_step (joined_path p q) m

abbrev one_step : {s t : Threads} → Step s t → Steps s t
one_step m = then_step stays m

is_starting→eq : (x : ServiceState) → is_starting x ≡ true → x ≡ starting
is_starting→eq x h = ground arith

is_starting→ne : (x : ServiceState) → is_starting x ≡ false → x ≢ starting
is_starting→ne x h e = ground arith

module _ {T : Tn} where
  -- The service as the two threads see it.
  abbrev pub view : Service T → MainPc → IoPc → Threads
  view s m pc = record { state = s.state; main = m; io = pc }

  abbrev InState : ServiceState → Service T → List Mem → Type 0
  InState x s held = s.state ≡ x

  acquire_all-state :
      (address : Mem → ℕ) (enomem : ℤ) (memory : Mem → Bool) (xs : List Mem) (x : ServiceState)
      (s : Service T) (held : List Mem)
      → s.state ≡ x
      → AllOf (InState x) (acquire_all address enomem memory xs s held)
  unfolding acquire_all
  acquire_all-state address enomem memory [] x s held e = e
  acquire_all-state address enomem memory (y ∷ ys) x s held e = elim (Bool-cases (memory y)) [
    | inl f ↦
        rw (f, acquire_all)
          (acquire_all-state address enomem memory ys x (point address y s) (y ∷ held)
            (point-state y ∙ e))
    | inr f ↦ rw (f, acquire_all) e
  ]
    where
      point-state : (y : Mem) → (point address y s).state ≡ s.state
      point-state loop_memory = refl
      point-state tcp_memory = refl
      point-state timer_memory = refl
      point-state prep_memory = refl
      point-state check_memory = refl
      point-state signal_memory = refl
      point-state requests_memory = refl
      point-state request_list = refl

  make_requests-state :
      (enomem : ℤ) (x : ServiceState) (s : Service T) (held : List Mem)
      → s.state ≡ x
      → AllOf (InState x) (make_requests enomem s held)
  unfolding make_requests
  make_requests-state enomem x s held e = elim (Option-cases (T.list.setup s.buffer_count)) [
    | inl f ↦ rw (f, make_requests) e
    | inr (l, f) ↦ elim (Option-cases (push_all T.list s.buffer_count 0 l)) [
      | inl g ↦ rw (f, make_requests) (rw (g, make_requests) e)
      | inr (l', g) ↦ rw (f, make_requests) (rw (g, make_requests) e)
    ]
  ]

  listen_on-state :
      (code : UvCall → ℤ) (listens printed : Bool) (x : ServiceState) (s : Service T)
      (held : List Mem)
      → s.state ≡ x
      → AllOf (InState x) (listen_on code listens printed s held)
  unfolding listen_on
  listen_on-state code false printed x s held e = e
  listen_on-state code true printed x s held e =
      AllOf-and_then (InState x) (InState x) (call_all code listen_calls s held) _
        (unfold call_all in call_all-AllOf (InState x) code listen_calls s held e) (λ t h q. q)
        (λ t h q. elim (Bool-cases printed) [ inl f ↦ rw f q | inr f ↦ rw f q ])

  -- Up to the test for STARTING, the thread does not store to the state.
  prepare-state :
      (address : Mem → ℕ) (enomem : ℤ) (memory : Mem → Bool) (code : UvCall → ℤ)
      (listens printed : Bool) (s : Service T)
      → AllOf (InState s.state) (prepare address enomem memory code listens printed s)
  unfolding prepare
  prepare-state address enomem memory code listens printed s =
      let P = InState s.state in
      AllOf-and_then P P _ _
        (AllOf-and_then P P _ _
          (AllOf-and_then P P _ _
            (unfold acquire_all in
              acquire_all-state address enomem memory
                (loop_memory ∷ tcp_memory ∷ timer_memory ∷ prep_memory ∷ check_memory
                  ∷ signal_memory ∷ requests_memory ∷ [])
                s.state
                (record s {
                  tcp_handle = none;
                  uv_accept_timer = none;
                  uv_prep = none;
                  uv_check = none;
                })
                [] refl)
            (λ t h q. q)
            (λ t h q. unfold make_requests in make_requests-state enomem s.state t h q))
          (λ t h q. q) (λ t h q. unfold call_all in call_all-AllOf P code loop_calls t h q))
        (λ t h q. q)
        (λ t h q. unfold listen_on in listen_on-state code listens printed s.state t h q)

  -- The end of the loop, from where `uv_loop_close` is called.
  leaving_path :
      (code : UvCall → ℤ) (v : Service T) (held : List Mem) (m : MainPc)
      → Steps (view v m leaving) (
          view
            (end_thread (
              if is_zero (code loop_close)
              then goes v held
              else call_all code (loop_close_again ∷ []) v held)).0
            m
            done)
  unfolding end_thread clean set_state call_all
  leaving_path code v held m = elim (Bool-cases (is_zero (code loop_close))) [
    | inl e ↦ rw e (one_step (Step.io (loop_closes refl refl)))
    | inr e ↦ elim (Bool-cases (is_zero (code loop_close_again))) [
      | inl f ↦ rw e (rw (f, call_all) (one_step (Step.io (loop_closes refl refl))))
      | inr f ↦ rw e (rw (f, call_all) (rw f (one_step (Step.io (loop_close_fails refl refl)))))
    ]
  ]

  -- From the test for STARTING on.
  run_loop-Steps :
      (code : UvCall → ℤ) (run : Service T → Service T) (u : Service T) (held : List Mem)
      (m : MainPc)
      → ((n : MainPc) (v : Service T)
          → v.state ≡ started
          → (n' : MainPc) × Steps (view v n looping) (view (run v) n' closing))
      → (m' : MainPc) × Steps
          (view u m setting_up)
          (view (end_thread (run_loop code run u held)).0 m' done)
  unfolding run_loop set_state
  run_loop-Steps code run u held m run_path = elim (Bool-cases (is_starting u.state)) [
    | inl e ↦
        let begun : Service T = record u { state = started } in
        let (m', p) = run_path m begun refl in
        let tested : Step (view u m setting_up) (view u m checked) =
          Step.io (check refl (is_starting→eq u.state e) refl) in
        let stored : Step (view u m checked) (view begun m looping) = Step.io (store refl refl) in
        let returned : Step (view (run begun) m' closing) (view (run begun) m' leaving) =
          Step.io (run_returns refl refl) in
        (
          m',
          rw e (
              joined_path (then_step (then_step stays tested) stored) (
                joined_path (then_step p returned)
                  (unfold call_all end_thread in leaving_path code (run begun) held m'))),
        )
    | inr e ↦
        let left : Step (view u m setting_up) (view u m leaving) =
          Step.io (check_fails refl (is_starting→ne u.state e) refl) in
        (
          m,
          rw e (
              joined_path (one_step left)
                (unfold call_all end_thread in leaving_path code u held m)),
        )
  ]

  -- How the thread ends from where its preparation leaves it.
  prepared_path :
      (code : UvCall → ℤ) (before run : Service T → Service T) (s : Service T) (m : MainPc)
      → ((n : MainPc) (v : Service T)
          → (n' : MainPc) × Steps (view v n setting_up) (view (before v) n' setting_up))
      → ((n : MainPc) (v : Service T)
          → v.state ≡ started
          → (n' : MainPc) × Steps (view v n looping) (view (run v) n' closing))
      → (st : Stage T) → AllOf (InState s.state) st
      → (m' : MainPc) × Steps
          (view s m setting_up)
          (view (end_thread (and_then st (λ t held. run_loop code run (before t) held))).0 m' done)
  unfolding end_thread clean set_state
  prepared_path code before run s m before_path run_path (goes t held) e =
      let (n, p) = before_path m t in
      let after : (n' : MainPc) × Steps (view (before t) n setting_up)
            (view (end_thread (run_loop code run (before t) held)).0 n' done) =
        unfold run_loop end_thread in run_loop-Steps code run (before t) held n run_path in
      (after.0, rw⁻¹ e (joined_path p after.1))
  prepared_path code before run s m before_path run_path (quits ret t held) e =
      elim (Bool-cases (is_zero ret)) [
        | inl f ↦ (m, rw f (rw e (one_step (Step.io (setup_quits refl refl)))))
        | inr f ↦ (m, rw f (one_step (Step.io (setup_fails refl refl))))
      ]

  -- The IO thread as one function takes only steps of the two threads: whatever its allocations and its
  -- calls of libuv return, there is a path of steps from the service that it begins with, set up from its
  -- beginning, to the service that it leaves, with the thread returned. It is assumed that what the main
  -- thread does until the test for STARTING is such a path, and that the run of the loop is one from a
  -- started service to the closing of the handles.
  pub io_thread-Steps :
      (address : Mem → ℕ) (enomem : ℤ) (memory : Mem → Bool) (code : UvCall → ℤ)
      (listens printed : Bool) (before run : Service T → Service T) (s : Service T) (m : MainPc)
      → ((n : MainPc) (v : Service T)
          → (n' : MainPc) × Steps (view v n setting_up) (view (before v) n' setting_up))
      → ((n : MainPc) (v : Service T)
          → v.state ≡ started
          → (n' : MainPc) × Steps (view v n looping) (view (run v) n' closing))
      → (m' : MainPc) × Steps
          (view s m setting_up)
          (view (io_thread address enomem memory code listens printed before run s).0 m' done)
  unfolding io_thread
  io_thread-Steps address enomem memory code listens printed before run s m before_path run_path =
      let st = prepare address enomem memory code listens printed s in
      let stage = and_then st (λ t held. run_loop code run (before t) held) in
      if_either (λ r. (m' : MainPc) × Steps (view s m setting_up) (view r.0 m' done)) s.priv_set
        (end_thread stage) (s, [])
        (unfold end_thread run_loop prepare in
          prepared_path code before run s m before_path run_path st
            (prepare-state address enomem memory code listens printed s))
        (m, one_step (Step.io (setup_quits refl refl)))
