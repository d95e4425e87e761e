-- ===== src/Service/Setup/Laws.antt =====
-- What the set-up of a service acquires and leaves, on every branch.
use serverlynx.Prelude.{
  ℕ, ◌*◌, ◌%◌, ◌^◌, ◌≡◌, refl, sym, ap, ◌∙◌, ◌⊎◌, inl, inr, Bool, true, false, some, List, [], ◌∷◌,
  ◌++◌, Option-cases, Bool-cases, Status, success, failure,
}
use mathlib.Core.Option.{some-ne-none}
use serverlynx.Tn.{Tn, IsTn}
use serverlynx.Link.List.{LinkList, setup}
use serverlynx.Link.List.Invariant.{IsWellFormed, IsFresh}
use serverlynx.Link.List.Held.{setup-eq-some}
use serverlynx.Service.{Service, new}
use serverlynx.Service.Setup.Parts.{whole, range, push_requests_lem, took, had}
use serverlynx.Service.Setup.{
  Part, priv_memory, link_array, read_pool, write_pool, command_list, event_list, update_array,
  request_array, free_queue, ready_queue, without_arrays, Setting, Memory, given, with_priv, zeroed,
  push_requests, finish, give_up, make_queues, make_arrays, make_lists, make_pools, make_links,
  max_recv, service_setup, service_cleanup,
}

module _ {T : Tn} (L : IsTn T) where
  -- A set-up that failed, with what had been acquired by then but the arrays.
  abbrev pub Stopped : Setting T → Type 0
  Stopped r =
      (later had : List Part) × (later ++ had ≡ whole)
      × (r.status ≡ failure)
      × (r.held ≡ without_arrays had)

  -- How the rest of a set-up ends, from the service `s` on.
  abbrev pub Ends : Service T → Setting T → Type 0
  Ends s r =
      Stopped r
      ⊎ ((r.status ≡ success)
          × (r.held ≡ whole)
          × (r.service.state ≡ s.state)
          × (r.service.priv_set ≡ s.priv_set)
          × (r.service.client_count_max ≡ s.client_count_max)
          × (r.service.buffer_count ≡ s.buffer_count)
          × (r.service.link_list ≡ s.link_list)
          × (L.queue.items r.service.write_reqs_free ≡ range 0 s.buffer_count)
          × (L.queue.items r.service.write_reqs_ready ≡ []))

  finish_lem :
      (clears : Bool) (s : Service T) (r : Status × T.queue.Carrier)
      → (r.0 ≡ success → L.queue.items r.1 ≡ range 0 s.buffer_count)
      → L.queue.items s.write_reqs_ready ≡ []
      → Ends s (finish clears s whole r)
  unfolding finish give_up
  finish_lem clears s (failure, q) all ready = inl (took 10, had 10, refl, refl, refl)
  finish_lem clears s (success, q) all ready =
      inr (refl, refl, refl, refl, refl, refl, refl, all refl, ready)

  make_queues_lem :
      (m : Memory) (clears : Bool) (s : Service T)
      → Ends s (
          make_queues m clears s (
            request_array ∷ update_array ∷ event_list ∷ command_list ∷ write_pool ∷ read_pool
            ∷ link_array ∷ priv_memory ∷ []))
  unfolding make_queues give_up
  make_queues_lem m clears s =
      elim (Option-cases (given m free_queue (T.queue.setup s.buffer_count))) [
        | inl e ↦ rw (e, make_queues) (inl (took 8, had 8, refl, refl, refl))
        | inr (q, e) ↦ elim (Option-cases (given m ready_queue (T.queue.setup s.buffer_count))) [
          | inl f ↦ rw (e, make_queues) (rw f (inl (took 9, had 9, refl, refl, refl)))
          | inr (r, f) ↦
              rw (e, make_queues)
                (rw f (
                  finish_lem clears (record s { write_reqs_ready = r }) _ (pushed q e)
                    (new_queue ready_queue r f)))
        ]
      ]
    where
      new_queue :
          (p : Part) (q : T.queue.Carrier)
          → given m p (T.queue.setup s.buffer_count) ≡ some q
          → L.queue.items q ≡ []
      new_queue p q e = elim (Bool-cases (m p)) [
        | inl b ↦ (L.queue.items-setup s.buffer_count q (rw b at e)).0
        | inr b ↦ absurd (some-ne-none _ (sym (rw b at e)))
      ]

      pushed :
          (q : T.queue.Carrier)
          → given m free_queue (T.queue.setup s.buffer_count) ≡ some q
          → (push_requests T.queue s.buffer_count 0 q).0 ≡ success
          → L.queue.items (push_requests T.queue s.buffer_count 0 q).1 ≡ range 0 s.buffer_count
      pushed q e done =
          let r = push_requests T.queue s.buffer_count 0 q in
          push_requests_lem L.queue s.buffer_count 0 q r.1
            (ap (λ (x : Status). let y : Status × T.queue.Carrier = (x, r.1) in y) done)
          ∙ ap (λ l. l ++ range 0 s.buffer_count) (new_queue free_queue q e)

  make_arrays_lem :
      (m : Memory) (clears : Bool) (s : Service T)
      → Ends s (
          make_arrays m clears s
            (event_list ∷ command_list ∷ write_pool ∷ read_pool ∷ link_array ∷ priv_memory ∷ []))
  unfolding make_arrays give_up
  make_arrays_lem m clears s = elim (Bool-cases (m update_array)) [
    | inr e ↦ rw (e, make_arrays) (inl (took 6, had 6, refl, refl, refl))
    | inl e ↦ elim (Bool-cases (m request_array)) [
      | inr f ↦ rw (e, make_arrays) (rw f (inl (took 7, had 7, refl, refl, refl)))
      | inl f ↦ rw (e, make_arrays) (rw f (make_queues_lem m clears s))
    ]
  ]

  make_lists_lem :
      (m : Memory) (clears : Bool) (s : Service T)
      → Ends s (make_lists m clears s (write_pool ∷ read_pool ∷ link_array ∷ priv_memory ∷ []))
  unfolding make_lists give_up
  make_lists_lem m clears s =
      elim (Option-cases (given m command_list (T.cmds.setup s.buffer_count))) [
        | inl e ↦ rw (e, make_lists) (inl (took 4, had 4, refl, refl, refl))
        | inr (c, e) ↦ elim (Option-cases (given m event_list (T.events.setup s.buffer_count))) [
          | inl f ↦ rw (e, make_lists) (rw f (inl (took 5, had 5, refl, refl, refl)))
          | inr (v, f) ↦
              rw (e, make_lists)
                (rw f (make_arrays_lem m clears (record s { cmds = c; events = v })))
        ]
      ]

  make_pools_lem :
      (m : Memory) (clears : Bool) (s : Service T)
      → Ends s (make_pools m clears s (link_array ∷ priv_memory ∷ []))
  unfolding make_pools give_up
  make_pools_lem m clears s =
      elim (Option-cases (given m read_pool (T.pool.setup s.buffer_count max_recv))) [
        | inl e ↦ rw (e, make_pools) (inl (took 2, had 2, refl, refl, refl))
        | inr (p, e) ↦
            elim (Option-cases (given m write_pool (T.pool.setup s.buffer_count max_recv))) [
              | inl f ↦ rw (e, make_pools) (rw f (inl (took 3, had 3, refl, refl, refl)))
              | inr (q, f) ↦
                  rw (e, make_pools)
                    (rw f (make_lists_lem m clears (record s { pool_read = p; pool_write = q })))
            ]
      ]

  -- A service that is set up.
  abbrev pub Complete : ℕ → Setting T → Type 0
  Complete max_clients r =
      (r.status ≡ success)
      × (r.held ≡ whole)
      × (r.service.state ≡ new)
      × (r.service.priv_set ≡ true)
      × (r.service.client_count_max ≡ max_clients)
      × (r.service.buffer_count ≡ (max_clients * 4) % 2 ^ 64)
      × (IsWellFormed L.list r.service.link_list × IsFresh L.list max_clients r.service.link_list)
      × (L.queue.items r.service.write_reqs_free ≡ range 0 ((max_clients * 4) % 2 ^ 64))
      × (L.queue.items r.service.write_reqs_ready ≡ [])

  setup_links :
      (b : Bool) (n : ℕ) (l : LinkList T.list)
      → setup T.list b n ≡ some l
      → IsWellFormed L.list l × IsFresh L.list n l
  unfolding setup
  setup_links true n l e = setup-eq-some L.list 0 n l e
  setup_links false n l e = cc

  make_links_lem :
      (m : Memory) (clears : Bool) (s : Service T)
      → s.state ≡ new
      → s.priv_set ≡ true
      → Stopped (make_links m clears s) ⊎ Complete s.client_count_max (make_links m clears s)
  unfolding make_links give_up
  make_links_lem m clears s e f =
      elim (Option-cases (setup T.list (m link_array) s.client_count_max)) [
        | inl g ↦ rw (g, make_links) (inl (took 1, had 1, refl, refl, refl))
        | inr (l, g) ↦
            let t : Service T = record s {
              link_list = l;
              buffer_count = (s.client_count_max * 4) % 2 ^ 64;
            } in
            rw (g, make_links)
              (elim (make_pools_lem m clears t) [
                | inl stop ↦ inl stop
                | inr (ok, held, state, priv, max, count, links, free, ready) ↦ inr (
                  ok,
                  held,
                  state ∙ e,
                  priv ∙ f,
                  max,
                  count,
                  rw links (setup_links (m link_array) s.client_count_max l g),
                  free,
                  ready,
                )
              ])
      ]

  pub service_setup_lem :
      (m : Memory) (clears : Bool) (s : Service T) (max_clients : ℕ)
      → let r = service_setup m clears s max_clients in Stopped r ⊎ Complete max_clients r
  unfolding service_setup
  service_setup_lem m clears s n =
      let t = record (zeroed s) { client_count_max = n } in
      elim (Bool-cases (m priv_memory)) [
        | inl e ↦ rw (e, service_setup) (make_links_lem m clears (with_priv t) refl refl)
        | inr e ↦ rw (e, service_setup) (inl (took 0, had 0, refl, refl, refl))
      ]

  -- After a set-up that has not failed, a clean-up releases every part that the service holds.
  pub cleanup-setup :
      (m : Memory) (clears : Bool) (s : Service T) (max_clients : ℕ)
      → let r = service_setup m clears s max_clients in
        (r.status ≡ failure) ⊎ (service_cleanup r.service r.held ≡ [])
  unfolding service_cleanup
  cleanup-setup m clears s n = elim (service_setup_lem m clears s n) [
    | inl (_, _, _, e, _) ↦ inl e
    | inr (_, held, _, priv, _, _, _, _, _) ↦ inr (rw (held, priv) refl)
  ]
