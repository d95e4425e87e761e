-- ===== src/Io/Receiving/Laws.antt =====
-- What becomes of the read buffer of a link, and what a receive reports.
use serverlynx.Prelude.{
  ptr, ℕ, zero, suc, ℤ, pos, negsuc, ◌+◌, ◌%◌, ◌^◌, ◌≡◌, refl, ap, ◌∙◌, ◌⊎◌, inl, inr, Bool, true,
  false, Option, none, some, [], ◌∷◌, ◌++◌, count, count-append, arith, Option-cases, Bool-cases,
}
use serverlynx.Tn.{Tn, IsTn}
use serverlynx.Tn.Events.{Event, client_read}
use serverlynx.Tn.Uv.{close_link_cb}
use serverlynx.Link.{LinkState}
use serverlynx.Service.{Service}
use serverlynx.Service.Updates.Laws.{buffers_of, buffers_of-append}
use serverlynx.Io.{link_at}
use serverlynx.Io.Links.{opt, link_at-set_link}
use serverlynx.Io.Receiving.{
  alloc_with, on_recv_alloc_cb, recv_failed, recv_closed, push_read, deliver, counted_recv,
  received, on_recv_cb,
}

module _ {T : Tn} (L : IsTn T) where
  -- How often a buffer stands in the read pool, with the link `p`, and in the events that wait for
  -- the main thread.
  abbrev pub holders : Service T → ℕ → ℕ → ℕ
  holders s p a =
      count a (L.pool.items s.pool_read)
      + count a (opt (link_at s p).read_buffer)
      + count a (buffers_of (L.events.ready s.events))

  alloc_with-holders :
      (o : Option ℕ) (s : Service T) (p a : ℕ)
      → (link_at s p).read_buffer ≡ o
      → holders (alloc_with o s p).1 p a
        ≡ count a (L.pool.items s.pool_read)
          + count a (opt o)
          + count a (buffers_of (L.events.ready s.events))
  unfolding alloc_with
  alloc_with-holders (some b) s p a e = rw e refl
  alloc_with-holders none s p a e = elim (Option-cases (T.pool.pop_back s.pool_read)) [
    | inl f ↦ rw (f, alloc_with) (rw e refl)
    | inr ((b, pool), f) ↦
        let popped = L.pool.count-pop_back s.pool_read pool b f a in
        let held =
          ap (λ l. count a (opt l.read_buffer))
            (link_at-set_link s p (record (link_at s p) { read_buffer = some b })) in
        rw (f, alloc_with) (omega arith)
  ]

  -- `on_recv_alloc_cb` gives a link that has no buffer one from the pool if there is one, and never
  -- takes a second: every buffer is held as often as before.
  pub alloc-holders :
      (s : Service T) (p a : ℕ) → holders (on_recv_alloc_cb s p).1 p a ≡ holders s p a
  unfolding on_recv_alloc_cb
  alloc-holders s p a = alloc_with-holders (link_at s p).read_buffer s p a refl

  -- The error code and the state of a link say nothing of its buffer.
  recv_failed-holders :
      (ret : ℤ) (s : Service T) (p a : ℕ) → holders (recv_failed ret s p) p a ≡ holders s p a
  unfolding recv_failed
  recv_failed-holders ret s p a =
      let held =
        ap (λ l. count a (opt l.read_buffer))
          (link_at-set_link s p (record (link_at s p) { error_code = ret })) in
      omega arith

  recv_closed-holders :
      (ret : ℤ) (s : Service T) (p h a : ℕ) → holders (recv_closed ret s p h) p a ≡ holders s p a
  unfolding recv_closed
  recv_closed-holders ret s p h a = elim (Bool-cases (T.uv.is_closing s.world h)) [
    | inl e ↦ rw (e, recv_closed) (unfold recv_failed in recv_failed-holders ret s p a)
    | inr e ↦
        let held =
          ap (λ l. count a (opt l.read_buffer))
            (link_at-set_link s p
              (record (link_at s p) { error_code = ret; state = LinkState.closing })) in
        rw (e, recv_closed) (omega arith)
  ]

  push_read-holders :
      (evt : Event) (s : Service T) (p b a : ℕ)
      → (link_at s p).read_buffer ≡ some b
      → evt.type ≡ client_read
      → evt.priv ≡ b
      → holders (push_read evt s p) p a ≡ holders s p a
  unfolding push_read
  push_read-holders evt s p b a e kind priv =
      elim (Option-cases (T.events.ready_push s.events evt)) [
        | inl f ↦ rw (f, push_read) (unfold recv_failed in recv_failed-holders T.recv_evtpush s p a)
        | inr (events, f) ↦
            let (queue, _) = L.events.ready_push_lem s.events events evt f in
            let held =
              ap (λ l. count a (opt l.read_buffer))
                (link_at-set_link s p (record (link_at s p) { read_buffer = none })) in
            let own = ap (λ o. count a (opt o)) e in
            rw (f, push_read)
              (rw (queue, buffers_of-append, count-append, kind, priv) (omega arith))
      ]

  -- A receive that delivers the buffer of its link hands it to the event; any other keeps it.
  deliver-holders :
      (s : Service T) (p b a : ℕ)
      → (link_at s p).read_buffer ≡ some b
      → holders (deliver s p b) p a ≡ holders s p a
  unfolding deliver
  deliver-holders s p b a e = elim (Option-cases (T.events.free_pop s.events client_read)) [
    | inl f ↦ rw (f, deliver) (unfold recv_failed in recv_failed-holders T.recv_evtpop s p a)
    | inr ((x, events), f) ↦
        let (kind, same, _) = L.events.free_pop_lem s.events events client_read x f in
        rw (f, deliver)
          (push_read-holders _ (record s { events = events }) p b a e kind refl
            ∙ ap
                (λ q.
                  count a (L.pool.items s.pool_read)
                  + count a (opt (link_at s p).read_buffer)
                  + count a (buffers_of q))
                same)
  ]

  received-holders :
      (s : Service T) (p b n a : ℕ)
      → (link_at s p).read_buffer ≡ some b
      → holders (received s p b n) p a ≡ holders s p a
  unfolding received
  received-holders s p b n a e = elim (Option-cases (T.buffers.add_length s.heap b n)) [
    | inl f ↦
        rw (f, received)
          (unfold recv_failed in recv_failed-holders T.recv_ebuf (counted_recv s n) p a)
    | inr (heap, f) ↦
        rw (f, received)
          (unfold deliver in deliver-holders (record (counted_recv s n) { heap = heap }) p b a e)
  ]

  -- Whatever libuv reports, and whatever fails on the way, `on_recv_cb` neither loses nor duplicates
  -- a read buffer: it stands as often as before in the read pool, with the link, and in the events
  -- that wait. Data arrives only for a link that has a buffer.
  pub recv-holders :
      (s : Service T) (p handle : ℕ) (nread : ℤ) (has_buf : Bool) (b a : ℕ)
      → (link_at s p).read_buffer ≡ some b
      → holders (on_recv_cb s p handle nread has_buf) p a ≡ holders s p a
  unfolding on_recv_cb
  recv-holders s p handle (negsuc n) has_buf b a e =
      unfold recv_closed in recv_closed-holders (negsuc n) s p handle a
  recv-holders s p handle (pos zero) has_buf b a e =
      unfold recv_failed in recv_failed-holders T.recv_error s p a
  recv-holders s p handle (pos (suc n)) false b a e =
      unfold recv_failed in recv_failed-holders T.recv_error s p a
  recv-holders s p handle (pos (suc n)) true b a e =
      rw (ap ptr e) (unfold received in received-holders s p b (suc n) a e)

  -- An error of the stream closes the link's handle once: the link becomes CLOSING and keeps the
  -- error, unless the handle is closing already, when only the error is kept.
  pub recv_error_lem :
      (s : Service T) (p handle n : ℕ) (has_buf : Bool)
      → let t = on_recv_cb s p handle (negsuc n) has_buf in
        ((link_at t p).error_code ≡ negsuc n)
        × (((T.uv.is_closing s.world handle ≡ true)
              × (t.world ≡ s.world)
              × ((link_at t p).state ≡ (link_at s p).state))
            ⊎ ((T.uv.is_closing s.world handle ≡ false)
                × (t.world ≡ T.uv.close s.world handle close_link_cb)
                × ((link_at t p).state ≡ LinkState.closing)))
  unfolding on_recv_cb
  recv_error_lem s p handle n has_buf = elim (Bool-cases (T.uv.is_closing s.world handle)) [
    | inl e ↦ rw (e, recv_closed) (ground arith, inl (refl, refl, ground arith))
    | inr e ↦ rw (e, recv_closed) (ground arith, inr (refl, refl, ground arith))
  ]

  -- The event for the data in the buffer `b` of a link.
  abbrev pub read_event : Service T → ℕ → ℕ → T.buffers.Heap → Event → Event
  read_event s p b heap x = record x {
    client_id = (link_at s p).id;
    priv = b;
    buffer = T.buffers.read_ptr heap b;
    len = T.buffers.read_length heap b;
  }

  -- A receive of data that nothing hinders queues one read event behind those that wait: it names
  -- the link and its buffer, with the bytes that are now to be read. The link has no buffer any
  -- more, and the two counters wrap at 2^64.
  pub recv_delivers :
      (s : Service T) (p handle n b : ℕ) {heap : T.buffers.Heap} {x : Event}
      {events events' : T.events.Carrier}
      → (link_at s p).read_buffer ≡ some b
      → T.buffers.add_length s.heap b (suc n) ≡ some heap
      → T.events.free_pop s.events client_read ≡ some (x, events)
      → T.events.ready_push events (read_event s p b heap x) ≡ some events'
      → let t = on_recv_cb s p handle (pos (suc n)) true in
        (L.events.ready t.events ≡ L.events.ready s.events ++ read_event s p b heap x ∷ [])
        × (x.type ≡ client_read)
        × ((link_at t p).read_buffer ≡ none)
        × (t.recv_msgs ≡ (s.recv_msgs + 1) % 2 ^ 64)
        × (t.recv_bytes ≡ (s.recv_bytes + suc n) % 2 ^ 64)
        × (t.heap ≡ heap)
  unfolding on_recv_cb received deliver push_read
  recv_delivers s p handle n b {heap} {x} {events} {events'} has fits popped pushed =
      let (kind, same, _) = L.events.free_pop_lem s.events events client_read x popped in
      let (queue, _) = L.events.ready_push_lem events events' _ pushed in
      rw (ap ptr has) (
        rw (fits, received)
          (rw (popped, deliver)
            (rw (pushed, push_read)
              (
                queue ∙ ap (λ q. q ++ read_event s p b heap x ∷ []) same,
                kind,
                ground arith,
                refl,
                refl,
                refl,
              ))))
