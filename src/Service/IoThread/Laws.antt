-- ===== src/Service/IoThread/Laws.antt =====
-- What the IO thread holds when it has ended.
use serverlynx.Prelude.{
  ℕ, ℤ, ◌≡◌, refl, ◌⊎◌, inl, inr, Bool, true, false, Option, none, some, List, [], ◌∷◌,
  if◌then◌else◌, Option-cases, Bool-cases,
}
use serverlynx.Tn.{Tn}
use serverlynx.Service.{Service, started}
use serverlynx.Service.Lifecycle.{set_state}
use serverlynx.Io.{is_zero}
use serverlynx.Service.IoThread.{
  Mem, loop_memory, tcp_memory, timer_memory, prep_memory, check_memory, signal_memory,
  requests_memory, request_list, UvCall, loop_close, loop_close_again, Stage, goes, quits, and_then,
  acquire_all, call_all, make_requests, listen_on, run_loop, clean, end_thread, prepare, io_thread,
  leftover, push_all, is_starting, loop_calls, listen_calls,
}

-- All structures, the last one first.
abbrev pub structures : List Mem
structures =
    requests_memory ∷ signal_memory ∷ check_memory ∷ prep_memory ∷ timer_memory ∷ tcp_memory
    ∷ loop_memory ∷ []

module _ {T : Tn} where
  -- A stage with this property of the service and of what is held, wherever it goes.
  abbrev pub AllOf : (Service T → List Mem → Type 0) → Stage T → Type 0
  AllOf P (goes s held) = P s held
  AllOf P (quits ret s held) = P s held

  pub AllOf-and_then :
      (P Q : Service T → List Mem → Type 0) (st : Stage T) (f : Service T → List Mem → Stage T)
      → AllOf P st
      → ((s : Service T) (held : List Mem) → P s held → Q s held)
      → ((s : Service T) (held : List Mem) → P s held → AllOf Q (f s held))
      → AllOf Q (and_then st f)
  AllOf-and_then P Q (goes s held) f p w k = k s held p
  AllOf-and_then P Q (quits ret s held) f p w k = w s held p

  AllOf-weaken :
      (P Q : Service T → List Mem → Type 0) (st : Stage T)
      → AllOf P st
      → ((s : Service T) (held : List Mem) → P s held → Q s held)
      → AllOf Q st
  AllOf-weaken P Q (goes s held) p w = w s held p
  AllOf-weaken P Q (quits ret s held) p w = w s held p

  pub call_all-AllOf :
      (P : Service T → List Mem → Type 0) (code : UvCall → ℤ) (xs : List UvCall) (s : Service T)
      (held : List Mem)
      → P s held
      → AllOf P (call_all code xs s held)
  unfolding call_all
  call_all-AllOf P code [] s held p = p
  call_all-AllOf P code (x ∷ xs) s held p = elim (Bool-cases (is_zero (code x))) [
    | inl e ↦ rw (e, call_all) (call_all-AllOf P code xs s held p)
    | inr e ↦ rw (e, call_all) p
  ]

  -- Every structure is held, with or without the list of requests, and the pointer to the listener is
  -- `tcp`.
  abbrev pub Full : Option ℕ → Service T → List Mem → Type 0
  Full tcp s held =
      (s.tcp_handle ≡ tcp) × ((held ≡ structures) ⊎ (held ≡ request_list ∷ structures))

  -- The same, with the listener's pointer NULL only where there is no listener.
  abbrev pub Ready : Bool → ℕ → Service T → List Mem → Type 0
  Ready listens a s held = Full (some a) s held ⊎ ((listens ≡ false) × Full none s held)

  make_requests-Full :
      (enomem : ℤ) (a : ℕ) (s : Service T)
      → s.tcp_handle ≡ some a
      → AllOf (Full (some a)) (make_requests enomem s structures)
  unfolding make_requests
  make_requests-Full enomem a s e = elim (Option-cases (T.list.setup s.buffer_count)) [
    | inl f ↦ rw (f, make_requests) (e, inl refl)
    | inr (l, f) ↦ elim (Option-cases (push_all T.list s.buffer_count 0 l)) [
      | inl g ↦ rw (f, make_requests) (rw (g, make_requests) (e, inr refl))
      | inr (l', g) ↦ rw (f, make_requests) (rw (g, make_requests) (e, inr refl))
    ]
  ]

  listen_on-Ready :
      (code : UvCall → ℤ) (listens printed : Bool) (a : ℕ) (s : Service T) (held : List Mem)
      → Full (some a) s held
      → AllOf (Ready listens a) (listen_on code listens printed s held)
  unfolding listen_on
  listen_on-Ready code false printed a s held (e, h) = inr (refl, (refl, h))
  listen_on-Ready code true printed a s held p =
      AllOf-and_then (Full (some a)) (Ready true a) (call_all code listen_calls s held) _
        (unfold call_all in call_all-AllOf (Full (some a)) code listen_calls s held p)
        (λ t h q. inl q)
        (λ t h q. elim (Bool-cases printed) [ inl e ↦ rw e (inl q) | inr e ↦ rw e (inl q) ])

  -- What `cleanup` leaves of that.
  leftover-Ready :
      (listens : Bool) (a : ℕ) (s : Service T) (held : List Mem)
      → Ready listens a s held
      → (leftover s.tcp_handle held ≡ signal_memory ∷ [])
        ⊎ ((listens ≡ false) × (leftover s.tcp_handle held ≡ signal_memory ∷ tcp_memory ∷ []))
  leftover-Ready listens a s held (inl (e, inl h)) = inl (rw (e, h) refl)
  leftover-Ready listens a s held (inl (e, inr h)) = inl (rw (e, h) refl)
  leftover-Ready listens a s held (inr (off, (e, inl h))) = inr (off, rw (e, h) refl)
  leftover-Ready listens a s held (inr (off, (e, inr h))) = inr (off, rw (e, h) refl)

  end_thread-leftover :
      (P : List Mem → Type 0) (st : Stage T)
      → AllOf (λ s held. P (leftover s.tcp_handle held)) st
      → P (end_thread st).1
  unfolding end_thread clean set_state
  end_thread-leftover P (goes s held) p = p
  end_thread-leftover P (quits ret s held) p = elim (Bool-cases (is_zero ret)) [
    | inl e ↦ rw e p
    | inr e ↦ rw e p
  ]

  prepare-Ready :
      (address : Mem → ℕ) (enomem : ℤ) (memory : Mem → Bool) (code : UvCall → ℤ)
      (listens printed : Bool) (s : Service T)
      → ((x : Mem) → memory x ≡ true)
      → AllOf
          (Ready listens (address tcp_memory))
          (prepare address enomem memory code listens printed s)
  unfolding prepare acquire_all
  prepare-Ready address enomem memory code listens printed s enough =
      let a = address tcp_memory in
      let P = Full (some a) in
      rw
        (
          enough loop_memory,
          enough tcp_memory,
          enough timer_memory,
          enough prep_memory,
          enough check_memory,
          enough signal_memory,
          enough requests_memory,
        )
        (AllOf-and_then P (Ready listens a) _ _
          (AllOf-and_then P P _ _ (unfold make_requests in make_requests-Full enomem a _ refl)
            (λ t h q. q) (λ t h q. unfold call_all in call_all-AllOf P code loop_calls t h q))
          (λ t h q. inl q)
          (λ t h q. unfold listen_on in listen_on-Ready code listens printed a t h q))

  -- The test and the loop keep what is held, where the main thread and the callbacks leave the pointer
  -- to the listener alone.
  run_loop-Ready :
      (listens : Bool) (a : ℕ) (code : UvCall → ℤ) (run : Service T → Service T) (s : Service T)
      (held : List Mem)
      → ((u : Service T) → (run u).tcp_handle ≡ u.tcp_handle)
      → Ready listens a s held
      → AllOf (Ready listens a) (run_loop code run s held)
  unfolding run_loop set_state
  run_loop-Ready listens a code run s held keeps p =
      let t = if is_starting s.state then run (record s { state = started }) else s in
      let same : t.tcp_handle ≡ s.tcp_handle = elim (Bool-cases (is_starting s.state)) [
        | inl e ↦ rw e (keeps (record s { state = started }))
        | inr e ↦ rw e refl
      ] in
      let q : Ready listens a t held = rw same p in
      elim (Bool-cases (is_zero (code loop_close))) [
        | inl e ↦ rw (e, run_loop) q
        | inr e ↦
            rw (e, run_loop)
              (unfold call_all in
                call_all-AllOf (Ready listens a) code (loop_close_again ∷ []) t held q)
      ]

  -- What holds of both branches.
  pub if_either :
      (P : Service T × List Mem → Type 0) (b : Bool) (x y : Service T × List Mem)
      → P x
      → P y
      → P (if b then x else y)
  if_either P true x y p q = p
  if_either P false x y p q = q

  if_true-held :
      (P : List Mem → Type 0) (b : Bool) (x y : Service T × List Mem)
      → b ≡ true
      → P x.1
      → P (if b then x else y).1
  if_true-held P b x y e p = rw e p

  -- With memory for every structure, and whatever the calls of libuv and of the listener return, the
  -- IO thread ends without releasing its signal handle; and if the host's address names no listener, it
  -- may also keep the memory for one. Nothing else stays. It is assumed that the main thread and the
  -- callbacks leave the pointer to the listener alone.
  pub io_thread_lem :
      (address : Mem → ℕ) (enomem : ℤ) (memory : Mem → Bool) (code : UvCall → ℤ)
      (listens printed : Bool) (before run : Service T → Service T) (s : Service T)
      → ((x : Mem) → memory x ≡ true)
      → ((u : Service T) → (before u).tcp_handle ≡ u.tcp_handle)
      → ((u : Service T) → (run u).tcp_handle ≡ u.tcp_handle)
      → s.priv_set ≡ true
      → let held = (io_thread address enomem memory code listens printed before run s).1 in
        (held ≡ signal_memory ∷ []) ⊎ ((listens ≡ false) × (held ≡ signal_memory ∷ tcp_memory ∷ []))
  unfolding io_thread
  io_thread_lem address enomem memory code listens printed before run s enough keeps run_keeps set =
      let a = address tcp_memory in
      let P : List Mem → Type 0 = λ held.
        (held ≡ signal_memory ∷ [])
        ⊎ ((listens ≡ false) × (held ≡ signal_memory ∷ tcp_memory ∷ [])) in
      let stage =
        and_then (prepare address enomem memory code listens printed s)
          (λ t held. run_loop code run (before t) held) in
      let stands : AllOf (Ready listens a) stage =
        AllOf-and_then (Ready listens a) (Ready listens a) _ _
          (unfold prepare in prepare-Ready address enomem memory code listens printed s enough)
          (λ t h q. q)
          (λ t h q.
            unfold run_loop in
            run_loop-Ready listens a code run (before t) h run_keeps (rw (keeps t) q)) in
      if_true-held P s.priv_set (end_thread stage) (s, []) set
        (unfold end_thread in
          end_thread-leftover P stage
            (AllOf-weaken (Ready listens a) _ stage stands (leftover-Ready listens a)))
