-- ===== src/Service/Updates/Holders.antt =====
-- Where the read buffers go that the main thread takes and gives back.
use serverlynx.Prelude.{
  ℕ, ◌+◌, ◌≤◌, ◌≡◌, refl, ap, List, [], ◌∷◌, count, count-append, arith, Option-cases, inl, inr,
}
use serverlynx.Tn.{Tn, IsTn}
use serverlynx.Tn.Events.{Event, EventType, client_read, client_open, client_close, other}
use serverlynx.Service.{Service}
use serverlynx.Service.Updates.{
  acquire, release, release_all, release_one, return_buffer, free_event,
}
use serverlynx.Service.Updates.Laws.{buffers_of, buffer_of, buffers_of-append, updates, take-length}
use serverlynx.Io.Holders.{in_links, held}

module _ {T : Tn} (L : IsTn T) where
  return_buffer-held :
      (k : EventType) (b : ℕ) (s : Service T) (a : ℕ)
      → held L (return_buffer k b s) a ≤ count a (buffer_of k b) + held L s a
  unfolding return_buffer
  return_buffer-held client_read b s a = elim (Option-cases (T.pool.push s.pool_read b)) [
    | inl e ↦ rw (e, return_buffer) (omega arith)
    | inr (pool, e) ↦ rw (e, return_buffer) (let c = L.pool.count-push _ pool b e a in omega arith)
  ]
  return_buffer-held client_open b s a = omega arith
  return_buffer-held client_close b s a = omega arith
  return_buffer-held other b s a = omega arith

  free_event-held : (x : Event) (s : Service T) (a : ℕ) → held L (free_event x s) a ≡ held L s a
  unfolding free_event
  free_event-held x s a = elim (Option-cases (T.events.free_push s.events x)) [
    | inl e ↦ rw (e, free_event) refl
    | inr (c, e) ↦
        let same = (L.events.free_push_lem s.events c x e).0 in
        rw (e, free_event)
          (ap
            (λ q.
              count a (L.pool.items s.pool_read)
              + in_links s.link_list.client_map s.link_list.clients_max a
              + count a (buffers_of q))
            same)
  ]

  -- A release brings back no more than the buffers of its events, whichever pushes fail.
  release_all-held :
      (xs : List Event) (s : Service T) (a : ℕ)
      → held L (release_all xs s) a ≤ count a (buffers_of xs) + held L s a
  unfolding release_all release_one
  release_all-held [] s a = omega arith
  release_all-held (x ∷ xs) s a =
      let t = return_buffer x.type x.priv s in
      let one = return_buffer-held x.type x.priv s a in
      let freed = free_event-held x t a in
      let rest = release_all-held xs (free_event x t) a in
      let both = count-append a (buffer_of x.type x.priv) (buffers_of xs) in omega arith

  pub release-held :
      (s : Service T) (a : ℕ)
      → held L (release s).1 a ≤ count a (buffers_of (updates s)) + held L s a
  unfolding release
  release-held s a = release_all-held (updates s) s a

  -- An acquire hands over what it takes from the queue.
  pub acquire-held :
      (s : Service T) (a : ℕ)
      → let t = (acquire s).2 in held L t a + count a (buffers_of (updates t)) ≡ held L s a
  unfolding acquire
  acquire-held s a = elim (Option-cases (T.events.ready_pop_all s.events s.buffer_count)) [
    | inl e ↦ rw (e, acquire) (omega arith)
    | inr ((xs, events), e) ↦
        let ready = (L.events.ready_pop_all_lem s.events events s.buffer_count xs e).0 in
        rw (e, acquire) (rw (ready, buffers_of-append, count-append, take-length xs) (omega arith))
  ]
