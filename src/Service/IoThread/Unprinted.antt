-- ===== src/Service/IoThread/Unprinted.antt =====
-- How the IO thread ends when the text of the listener's address cannot be made.
use serverlynx.Prelude.{ℕ, ℤ, pos, ◌≡◌, refl, ap, ◌∙◌, Bool, true, false, some, List, [], ◌∷◌}
use serverlynx.Tn.{Tn}
use serverlynx.Service.{Service}
use serverlynx.Io.{is_zero}
use serverlynx.Service.IoThread.{
  Mem, loop_memory, tcp_memory, timer_memory, prep_memory, check_memory, signal_memory,
  requests_memory, request_list, UvCall, goes, quits, and_then, acquire_all, call_all,
  make_requests, listen_on, run_loop, clean, end_thread, prepare, io_thread, push_all, loop_calls,
  listen_calls,
}
use serverlynx.Service.IoThread.Laws.{structures, if_either}

module _ {T : Tn} where
  call_all-goes :
      (code : UvCall → ℤ) (xs : List UvCall) (s : Service T) (held : List Mem)
      → ((x : UvCall) → code x ≡ pos 0)
      → call_all code xs s held ≡ goes s held
  unfolding call_all
  call_all-goes code [] s held fine = refl
  call_all-goes code (x ∷ xs) s held fine =
      let zero_code : is_zero (code x) ≡ true = ap is_zero (fine x) in
      rw (zero_code, call_all) (call_all-goes code xs s held fine)

  -- The service once the pointers are set and the requests are free.
  prepared : (Mem → ℕ) → T.list.Carrier → Service T → Service T
  prepared address l s = record s {
    tcp_handle = some (address tcp_memory);
    uv_accept_timer = some (address timer_memory);
    uv_prep = some (address prep_memory);
    uv_check = some (address check_memory);
    uv_signal = some (address signal_memory);
    send_req_list = l;
  }

  prepare-quits :
      (address : Mem → ℕ) (enomem : ℤ) (memory : Mem → Bool) (code : UvCall → ℤ) (s : Service T)
      (l l' : T.list.Carrier)
      → ((x : Mem) → memory x ≡ true)
      → ((x : UvCall) → code x ≡ pos 0)
      → T.list.setup s.buffer_count ≡ some l
      → push_all T.list s.buffer_count 0 l ≡ some l'
      → prepare address enomem memory code true false s
        ≡ quits (pos 0) (prepared address l' s) (request_list ∷ structures)
  unfolding prepare acquire_all make_requests listen_on prepared call_all
  prepare-quits address enomem memory code s l l' enough fine set filled =
      let u = prepared address s.send_req_list s in
      let v = prepared address l' s in
      let held = request_list ∷ structures in
      let requests : make_requests enomem u structures ≡ goes v held =
        rw (set, make_requests) (rw (filled, make_requests) refl) in
      let looped : call_all code loop_calls v held ≡ goes v held =
        call_all-goes code loop_calls v held fine in
      let last : listen_on code true false v held ≡ quits (pos 0) v held =
        ap (λ x. and_then x (λ t h. quits (pos 0) t h))
          (call_all-goes code listen_calls v held fine) in
      rw
        (
          enough loop_memory,
          enough tcp_memory,
          enough timer_memory,
          enough prep_memory,
          enough check_memory,
          enough signal_memory,
          enough requests_memory,
        )
        (ap (λ x. and_then (and_then x (call_all code loop_calls)) (listen_on code true false))
            requests
          ∙ ap (λ x. and_then x (listen_on code true false)) looped
          ∙ last)

  -- Where every allocation and every call of libuv succeeds, and only the text of the listener's address
  -- cannot be made, the thread ends without its loop, and leaves the service in the state in which it
  -- found it: STARTING stays, and no ERROR is stored.
  pub io_thread-unprinted :
      (address : Mem → ℕ) (enomem : ℤ) (memory : Mem → Bool) (code : UvCall → ℤ)
      (before run : Service T → Service T) (s : Service T) (l l' : T.list.Carrier)
      → ((x : Mem) → memory x ≡ true)
      → ((x : UvCall) → code x ≡ pos 0)
      → T.list.setup s.buffer_count ≡ some l
      → push_all T.list s.buffer_count 0 l ≡ some l'
      → (io_thread address enomem memory code true false before run s).0.state ≡ s.state
  unfolding io_thread end_thread clean prepared
  io_thread-unprinted address enomem memory code before run s l l' enough fine set filled =
      let quit = prepare-quits address enomem memory code s l l' enough fine set filled in
      let ended =
        ap (λ x. (end_thread (and_then x (λ t h. run_loop code run (before t) h))).0.state) quit in
      if_either (λ p. p.0.state ≡ s.state) s.priv_set
        (end_thread (
          and_then (prepare address enomem memory code true false s)
            (λ t h. run_loop code run (before t) h)))
        (s, []) ended refl
