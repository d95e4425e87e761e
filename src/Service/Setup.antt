-- ===== src/Service/Setup.antt =====
-- `svl_service_setup` and `svl_service_cleanup` of svlynx/service.c. Beside the service stands what of
-- the program's memory and of the libraries' containers it holds: `held` lists each part that has been
-- acquired and not yet released, the last one first.
pub mod Laws
pub mod Parts
use serverlynx.Prelude.{
  ℕ, zero, suc, ◌*◌, ◌%◌, ◌^◌, ◌==◌, Bool, true, false, Option, none, some, List, [], ◌∷◌,
  if◌then◌else◌, Status, success, failure,
}
use serverlynx.Tn.{Tn}
use serverlynx.Tn.Queue.{QueueOps}
use serverlynx.Link.{zero_link}
use serverlynx.Link.List.{LinkList, setup}
use serverlynx.Service.{Service, ServiceState, WriteReq, new}

pub data Part : Type 0 where
  priv_memory link_array read_pool write_pool command_list event_list : Part
  update_array request_array free_queue ready_queue : Part

-- What the `cleanup` of `svl_service_setup` releases: three arrays, as far as they are there.
abbrev pub is_released : Part → Bool
is_released priv_memory = true
is_released update_array = true
is_released request_array = true
is_released _ = false

abbrev pub without_arrays : List Part → List Part
without_arrays [] = []
without_arrays (x ∷ xs) = if is_released x then without_arrays xs else x ∷ without_arrays xs

abbrev pub part_number : Part → ℕ
part_number priv_memory = 0
part_number link_array = 1
part_number read_pool = 2
part_number write_pool = 3
part_number command_list = 4
part_number event_list = 5
part_number update_array = 6
part_number request_array = 7
part_number free_queue = 8
part_number ready_queue = 9

-- One release of a part.
abbrev pub without : Part → List Part → List Part
without p [] = []
without p (x ∷ xs) = if part_number x == part_number p then xs else x ∷ without p xs

-- What a call returns, and what it leaves.
pub record Setting (T : Tn) : Type 0 where
  pub status : Status
  pub service : Service T
  pub held : List Part

abbrev pub max_recv : ℕ
max_recv = 65535

-- Whether there is memory for each part.
abbrev pub Memory : Type 0
Memory = Part → Bool

abbrev pub given {ℓ} : {A : Type ℓ} → Memory → Part → Option A → Option A
given m p o = if m p then o else none

-- The loop over the write requests, which are numbered: `rounds` more from `i` on.
unfoldable pub push_requests : (Q : QueueOps) → ℕ → ℕ → Q.Carrier → Status × Q.Carrier
push_requests Q zero i q = (success, q)
push_requests Q (suc rounds) i q = elim (Q.push q i) [
  | none ↦ (failure, q)
  | some q' ↦ push_requests Q rounds (suc i) q'
]

module _ {T : Tn} where
  -- `memset` of the service; the world, the buffers' heap and the globals are no part of it. `priv`
  -- points nowhere, so its fields are not there yet.
  abbrev pub zeroed : Service T → Service T
  zeroed s = record s {
    state = new;
    host_listen = 0;
    client_count_max = 0;
    buffer_count = 0;
    link_list = record {
      client_map = λ _. zero_link;
      clients_max = 0;
      client_list_free = T.list.zeroed;
      client_list_open = T.list.zeroed;
    };
    pool_read = T.pool.zeroed;
    pool_write = T.pool.zeroed;
    cmds = T.cmds.zeroed;
    events = T.events.zeroed;
    event_updates = [];
    event_updates_count = 0;
    write_reqs_free = T.queue.zeroed;
    write_reqs_ready = T.queue.zeroed;
    priv_set = false;
  }

  -- `memset` of the private structure.
  abbrev pub with_priv : Service T → Service T
  with_priv s = record s {
    priv_set = true;
    tcp_handle = none;
    uv_accept_timer = none;
    uv_prep = none;
    uv_check = none;
    uv_signal = none;
    send_req = λ _. record { link = 0; buf_base = 0; buf_len = 0; cmd_id = 0 };
    send_req_list = T.list.zeroed;
  }

  -- `cleanup`. `clears` is whether `TN_MEM_RELEASE` also sets the pointer to NULL.
  give_up : Bool → Service T → List Part → Setting T
  give_up clears s held = record {
    status = failure;
    service = record s { priv_set = if clears then false else s.priv_set };
    held = without_arrays held;
  }

  finish : Bool → Service T → List Part → Status × T.queue.Carrier → Setting T
  unfolding give_up
  finish clears s held (failure, q) = give_up clears (record s { write_reqs_free = q }) held
  finish clears s held (success, q) = record {
    status = success;
    service = record s { write_reqs_free = q };
    held = held;
  }

  make_queues : Memory → Bool → Service T → List Part → Setting T
  unfolding give_up finish
  make_queues m clears s held = elim (given m free_queue (T.queue.setup s.buffer_count)) [
    | none ↦ give_up clears s held
    | some q ↦ elim (given m ready_queue (T.queue.setup s.buffer_count)) [
      | none ↦ give_up clears (record s { write_reqs_free = q }) (free_queue ∷ held)
      | some r ↦
          finish clears (record s { write_reqs_ready = r }) (ready_queue ∷ free_queue ∷ held)
            (push_requests T.queue s.buffer_count 0 q)
    ]
  ]

  make_arrays : Memory → Bool → Service T → List Part → Setting T
  unfolding make_queues
  make_arrays m clears s held = elim (m update_array) [
    | false ↦ give_up clears s held
    | true ↦ elim (m request_array) [
      | false ↦ give_up clears s (update_array ∷ held)
      | true ↦ make_queues m clears s (request_array ∷ update_array ∷ held)
    ]
  ]

  make_lists : Memory → Bool → Service T → List Part → Setting T
  unfolding make_arrays
  make_lists m clears s held = elim (given m command_list (T.cmds.setup s.buffer_count)) [
    | none ↦ give_up clears s held
    | some c ↦ elim (given m event_list (T.events.setup s.buffer_count)) [
      | none ↦ give_up clears (record s { cmds = c }) (command_list ∷ held)
      | some e ↦
          make_arrays m clears (record s { cmds = c; events = e })
            (event_list ∷ command_list ∷ held)
    ]
  ]

  make_pools : Memory → Bool → Service T → List Part → Setting T
  unfolding make_lists
  make_pools m clears s held = elim (given m read_pool (T.pool.setup s.buffer_count max_recv)) [
    | none ↦ give_up clears s held
    | some p ↦ elim (given m write_pool (T.pool.setup s.buffer_count max_recv)) [
      | none ↦ give_up clears (record s { pool_read = p }) (read_pool ∷ held)
      | some q ↦
          make_lists m clears (record s { pool_read = p; pool_write = q })
            (write_pool ∷ read_pool ∷ held)
    ]
  ]

  make_links : Memory → Bool → Service T → Setting T
  unfolding make_pools
  make_links m clears s = elim (setup T.list (m link_array) s.client_count_max) [
    | none ↦ give_up clears s (priv_memory ∷ [])
    | some l ↦
        make_pools m clears
          (record s { link_list = l; buffer_count = (s.client_count_max * 4) % 2 ^ 64 })
          (link_array ∷ priv_memory ∷ [])
  ]

  unfoldable pub service_setup : Memory → Bool → Service T → ℕ → Setting T
  unfolding make_links
  service_setup m clears s max_clients =
      let t = record (zeroed s) { client_count_max = max_clients } in
      elim (m priv_memory) [
        | false ↦ record { status = failure; service = t; held = [] }
        | true ↦ make_links m clears (with_priv t)
      ]

  unfoldable pub service_cleanup : Service T → List Part → List Part
  service_cleanup s held =
      if s.priv_set
      then without priv_memory (
          without request_array (
            without update_array (
              without ready_queue (
                without free_queue (
                  without event_list (
                    without command_list
                      (without write_pool (without read_pool (without link_array held)))))))))
      else held
