-- ===== src/Io/Closing/Laws.antt =====
-- What the closing of a link does to the link, to the list of links, to its buffer and to the events.
use serverlynx.Prelude.{
  ℕ, pos, ◌+◌, ◌≡◌, ◌≢◌, refl, ap, ◌∙◌, ◌<◌, ◌⊎◌, inl, inr, false, Option, none, some, ◌∷◌, count,
  elem, arith, Option-cases,
}
use serverlynx.Tn.{Tn, IsTn}
use serverlynx.Tn.Events.{Event, client_close}
use serverlynx.Link.{closed}
use serverlynx.Link.List.Opening.{close_lem}
use serverlynx.Service.{Service}
use serverlynx.Io.{kept, link_at, set_link}
use serverlynx.Io.Links.{LinksFine, free_of, set_link-LinksFine, opt}
use serverlynx.Io.Closing.{give_buffer, report_close, on_close_link_cb}

module _ {T : Tn} (L : IsTn T) where
  -- What is known between the return of the buffer and the report: the link is closed and has no
  -- buffer, and only it and the read pool have changed.
  record Emptied (s : Service T) (p : ℕ) (u : Service T) : Type 0 where
    fine : LinksFine L u
    free : free_of L u ≡ free_of L s
    size : u.link_list.clients_max ≡ s.link_list.clients_max
    events : u.events ≡ s.events
    state : (link_at u p).state ≡ closed
    buffer : (link_at u p).read_buffer ≡ none
    id : (link_at u p).id ≡ (link_at s p).id
    cmd : (link_at u p).cmd_close_id ≡ (link_at s p).cmd_close_id
    others : (q : ℕ) → p ≢ q → link_at u q ≡ link_at s q

  emptied : Service T → ℕ → Service T
  emptied s p =
      let l = link_at s p in
      give_buffer l.read_buffer (set_link s p (record l { state = closed })) p

  -- The same before the buffer is returned, when `read_buffer` is still `o`.
  give_buffer-Emptied :
      (s t : Service T) (p : ℕ) (o : Option ℕ)
      → LinksFine L s
      → t ≡ set_link s p (record (link_at s p) { state = closed })
      → (link_at s p).read_buffer ≡ o
      → Emptied s p (give_buffer o t p)
  unfolding give_buffer
  give_buffer-Emptied s t p none w e n = rw e (record {
    fine = set_link-LinksFine L s p _ refl w;
    free = refl;
    size = refl;
    events = refl;
    state = ground arith;
    buffer = ground arith;
    id = ground arith;
    cmd = ground arith;
    others = λ q h. ground arith;
  })
  give_buffer-Emptied s t p (some b) w e n = rw e (record {
    fine =
        set_link-LinksFine L (set_link s p (record (link_at s p) { state = closed })) p _ refl
          (set_link-LinksFine L s p _ refl w);
    free = refl;
    size = refl;
    events = refl;
    state = ground arith;
    buffer = ground arith;
    id = ground arith;
    cmd = ground arith;
    others = λ q h. ground arith;
  })

  report_close_lem :
      (s u : Service T) (p : ℕ) (x : Event) (events : T.events.Carrier)
      → Emptied s p u
      → p < s.link_list.clients_max
      → elem p (free_of L s) ≡ false
      → T.events.free_pop s.events client_close ≡ some (x, events)
      → let t = report_close u p in
        (free_of L t ≡ p ∷ free_of L s)
        × LinksFine L t
        × ((link_at t p).state ≡ closed)
        × ((link_at t p).read_buffer ≡ none)
        × (t.events
            ≡ kept
                (T.events.ready_push events (record x {
                  client_id = (link_at s p).id;
                  error_code = pos 0;
                  cmd_id = (link_at s p).cmd_close_id;
                }))
                events)
  unfolding report_close
  report_close_lem s u p x events m lt out e =
      let popped : T.events.free_pop u.events client_close ≡ some (x, events) = rw m.events e in
      let below : p < u.link_list.clients_max = (let z = m.size in omega arith) in
      let taken : elem p (free_of L u) ≡ false = rw m.free out in
      let (l', done, free, links, _, fine) = close_lem L.list u.link_list p m.fine below taken in
      rw (popped, report_close)
        (rw done (
          free ∙ ap (◌∷◌ p) m.free,
          fine,
          ap (λ f. (f p).state) links ∙ m.state,
          ap (λ f. (f p).read_buffer) links ∙ m.buffer,
          rw (m.id, m.cmd) refl,
        ))

  -- When a close event is free, a link that closes goes back to the free list, whether or not the
  -- event can be queued, and its close event names the link and the command that closed it. When
  -- none is free, nothing is reported and the link never comes back: it is closed, and still not
  -- free. In both cases it has no buffer any more, and the list of links stays well formed.
  pub on_close_link_cb_lem :
      (s : Service T) (p : ℕ)
      → LinksFine L s
      → p < s.link_list.clients_max
      → elem p (free_of L s) ≡ false
      → let t = on_close_link_cb s p in
        LinksFine L t
        × ((link_at t p).state ≡ closed)
        × ((link_at t p).read_buffer ≡ none)
        × (((T.events.free_pop s.events client_close ≡ none)
              × (t.events ≡ s.events)
              × (free_of L t ≡ free_of L s))
            ⊎ ((x : Event) × (events : T.events.Carrier) × (T.events.free_pop s.events client_close
                  ≡ some (x, events))
                × (t.events
                    ≡ kept
                        (T.events.ready_push events (record x {
                          client_id = (link_at s p).id;
                          error_code = pos 0;
                          cmd_id = (link_at s p).cmd_close_id;
                        }))
                        events)
                × (free_of L t ≡ p ∷ free_of L s)))
  unfolding on_close_link_cb
  on_close_link_cb_lem s p w lt out =
      elim (Option-cases (T.events.free_pop s.events client_close)) [
        | inl e ↦
            let stuck : T.events.free_pop u.events client_close ≡ none = rw m.events e in
            rw (stuck, report_close) (m.fine, m.state, m.buffer, inl (e, m.events, m.free))
        | inr ((x, events), e) ↦
            let (free, fine, state, buffer, reported) =
              report_close_lem s u p x events m lt out e in
            (fine, state, buffer, inr (x, events, e, reported, free))
      ]
    where
      u : Service T
      u =
          give_buffer (link_at s p).read_buffer
            (set_link s p (record (link_at s p) { state = closed })) p

      m : Emptied s p u
      m = give_buffer-Emptied s _ p (link_at s p).read_buffer w refl refl

  report_close-pool : (u : Service T) (p : ℕ) → (report_close u p).pool_read ≡ u.pool_read
  unfolding report_close
  report_close-pool u p = elim (Option-cases (T.events.free_pop u.events client_close)) [
    | inl e ↦ rw (e, report_close) refl
    | inr ((x, events), e) ↦ rw (e, report_close) refl
  ]

  give_buffer-pool :
      (o : Option ℕ) (s : Service T) (p : ℕ)
      → ((b : ℕ) → o ≡ some b → T.pool.push s.pool_read b ≢ none)
      → (a : ℕ)
      → count a (L.pool.items (give_buffer o s p).pool_read)
        ≡ count a (opt o) + count a (L.pool.items s.pool_read)
  unfolding give_buffer
  give_buffer-pool none s p fits a = omega arith
  give_buffer-pool (some b) s p fits a = elim (Option-cases (T.pool.push s.pool_read b)) [
    | inl e ↦ absurd (fits b refl e)
    | inr (pool, e) ↦ rw e (let c = L.pool.count-push _ pool b e a in omega arith)
  ]

  -- The buffer of a link that closes goes back to the read pool, once, unless the pool refuses it.
  pub on_close_link_cb-buffer :
      (s : Service T) (p : ℕ)
      → ((b : ℕ) → (link_at s p).read_buffer ≡ some b → T.pool.push s.pool_read b ≢ none)
      → (a : ℕ)
      → count a (L.pool.items (on_close_link_cb s p).pool_read)
        ≡ count a (opt (link_at s p).read_buffer) + count a (L.pool.items s.pool_read)
  unfolding on_close_link_cb
  on_close_link_cb-buffer s p fits a =
      let o = (link_at s p).read_buffer in
      let t = set_link s p (record (link_at s p) { state = closed }) in
      ap (λ pool. count a (L.pool.items pool)) (report_close-pool (give_buffer o t p) p)
      ∙ give_buffer-pool o t p fits a
