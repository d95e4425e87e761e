-- ===== src/Service/IoThread.antt =====
-- `svl_service_io_thread` of svlynx/service.c, as it runs from its start to its end: what it acquires,
-- the calls of libuv and their codes, the two stores of the state, and what it releases. `memory` is
-- whether there is memory for a structure, `address` its address, `code` what a call returns. What the
-- calls change inside libuv is left out. `before` is what the main thread does to the service until
-- the test for STARTING, `run` is `uv_run` with the callbacks and with what the main thread does
-- meanwhile.
pub mod Laws
pub mod Refines
pub mod Unprinted
use serverlynx.Prelude.{
  ℕ, zero, suc, ℤ, pos, negsuc, Bool, true, false, Option, none, some, List, [], ◌∷◌, if◌then◌else◌,
}
use serverlynx.Tn.{Tn}
use serverlynx.Tn.ListPtr.{ListPtr as ListPtrOps}
use serverlynx.Service.{Service, ServiceState, starting, started, error}
use serverlynx.Service.Lifecycle.{set_state}
use serverlynx.Io.{is_zero}

pub data Mem : Type 0 where
  loop_memory tcp_memory timer_memory prep_memory check_memory signal_memory : Mem
  requests_memory request_list : Mem

pub data UvCall : Type 0 where
  loop_init timer_init timer_start prepare_init prepare_start check_init check_start : UvCall
  signal_init signal_start tcp_init tcp_nodelay tcp_bind tcp_listen : UvCall
  loop_close loop_close_again : UvCall

-- The calls that make the loop and its handles, and those that make the listener.
abbrev pub loop_calls : List UvCall
loop_calls =
    loop_init ∷ timer_init ∷ timer_start ∷ prepare_init ∷ prepare_start ∷ check_init ∷ check_start
    ∷ signal_init ∷ signal_start ∷ []

abbrev pub listen_calls : List UvCall
listen_calls = tcp_init ∷ tcp_nodelay ∷ tcp_bind ∷ tcp_listen ∷ []

abbrev pub is_starting : ServiceState → Bool
is_starting starting = true
is_starting _ = false

-- What cleanup leaves: the signal handle, and the listener's if the pointer to it is NULL.
abbrev pub stays_held : Option ℕ → Mem → Bool
stays_held tcp signal_memory = true
stays_held none tcp_memory = true
stays_held tcp _ = false

abbrev pub leftover : Option ℕ → List Mem → List Mem
leftover tcp [] = []
leftover tcp (x ∷ xs) = if stays_held tcp x then x ∷ leftover tcp xs else leftover tcp xs

-- The loop that fills the list of requests: `rounds` more from `i` on. In C the counter is an `int`, which
-- is left out: it overflows where there are more than 2^31 - 1 requests.
unfoldable pub push_all : (P : ListPtrOps) → ℕ → ℕ → P.Carrier → Option P.Carrier
push_all P zero i l = some l
push_all P (suc rounds) i l = elim (P.push_back l i) [
  | none ↦ none
  | some l' ↦ push_all P rounds (suc i) l'
]

-- Where the thread stands: it goes on, or it has jumped to `cleanup` with this code in `ret`.
pub data Stage (T : Tn) : Type 0 where
  goes : Service T → List Mem → Stage T
  quits : ℤ → Service T → List Mem → Stage T

module _ {T : Tn} where
  abbrev pub and_then : Stage T → (Service T → List Mem → Stage T) → Stage T
  and_then (goes s held) f = f s held
  and_then (quits ret s held) f = quits ret s held

  module _ (address : Mem → ℕ) where
    abbrev pub point : Mem → Service T → Service T
    point tcp_memory s = record s { tcp_handle = some (address tcp_memory) }
    point timer_memory s = record s { uv_accept_timer = some (address timer_memory) }
    point prep_memory s = record s { uv_prep = some (address prep_memory) }
    point check_memory s = record s { uv_check = some (address check_memory) }
    point signal_memory s = record s { uv_signal = some (address signal_memory) }
    point _ s = s

    -- `enomem` is `UV_ENOMEM`.
    acquire_all : ℤ → (Mem → Bool) → List Mem → Service T → List Mem → Stage T
    acquire_all enomem memory [] s held = goes s held
    acquire_all enomem memory (x ∷ xs) s held =
        let rest = acquire_all enomem memory xs (point x s) (x ∷ held) in
        if memory x then rest else quits enomem s held

  -- Calls of libuv, each guarded.
  pub call_all : (UvCall → ℤ) → List UvCall → Service T → List Mem → Stage T
  call_all code [] s held = goes s held
  call_all code (x ∷ xs) s held =
      let rest = call_all code xs s held in if is_zero (code x) then rest else quits (code x) s held

  make_requests : ℤ → Service T → List Mem → Stage T
  make_requests enomem s held = elim (T.list.setup s.buffer_count) [
    | none ↦ quits enomem s held
    | some l ↦ elim (push_all T.list s.buffer_count 0 l) [
      | none ↦ quits enomem s (request_list ∷ held)
      | some l' ↦ goes (record s { send_req_list = l' }) (request_list ∷ held)
    ]
  ]

  -- The listener. `listens` is whether the host's address is one of IPv4 or IPv6, `printed` whether
  -- `tn_endpoint_string_get` succeeds, whose result is not stored in `ret`.
  listen_on : (UvCall → ℤ) → Bool → Bool → Service T → List Mem → Stage T
  unfolding call_all
  listen_on code false printed s held = goes (record s { tcp_handle = none }) held
  listen_on code true printed s held =
      and_then (call_all code listen_calls s held)
        (λ t h. if printed then goes t h else quits (pos 0) t h)

  -- The test for STARTING, the loop, and its end.
  run_loop : (UvCall → ℤ) → (Service T → Service T) → Service T → List Mem → Stage T
  unfolding set_state call_all
  run_loop code run s held =
      let t = if is_starting s.state then run (set_state s started) else s in
      if is_zero (code loop_close)
      then goes t held
      else call_all code (loop_close_again ∷ []) t held

  -- From `cleanup` on: the service, and what is still held.
  clean : Service T → List Mem → Service T × List Mem
  clean s held = (s, leftover s.tcp_handle held)

  end_thread : Stage T → Service T × List Mem
  unfolding clean set_state
  end_thread (goes s held) = clean s held
  end_thread (quits ret s held) = clean (if is_zero ret then s else set_state s error) held

  -- Everything up to the test for STARTING.
  prepare : (Mem → ℕ) → ℤ → (Mem → Bool) → (UvCall → ℤ) → Bool → Bool → Service T → Stage T
  unfolding acquire_all make_requests call_all listen_on
  prepare address enomem memory code listens printed s =
      and_then
        (and_then
          (and_then
            (acquire_all address enomem memory
              (loop_memory ∷ tcp_memory ∷ timer_memory ∷ prep_memory ∷ check_memory ∷ signal_memory
                ∷ requests_memory ∷ [])
              (record s {
                tcp_handle = none;
                uv_accept_timer = none;
                uv_prep = none;
                uv_check = none;
              })
              [])
            (make_requests enomem))
          (call_all code loop_calls))
        (listen_on code listens printed)

  unfoldable pub io_thread :
      (Mem → ℕ)
      → ℤ
      → (Mem → Bool)
      → (UvCall → ℤ)
      → Bool
      → Bool
      → (Service T → Service T)
      → (Service T → Service T)
      → Service T
      → Service T × List Mem
  unfolding prepare run_loop end_thread
  io_thread address enomem memory code listens printed before run s =
      if s.priv_set
      then end_thread (
          and_then (prepare address enomem memory code listens printed s)
            (λ t held. run_loop code run (before t) held))
      else (s, [])
