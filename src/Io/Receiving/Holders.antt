-- ===== src/Io/Receiving/Holders.antt =====
-- Receiving holds no buffer more often than before.
use serverlynx.Prelude.{
  ℕ, zero, suc, ℤ, pos, negsuc, ◌<◌, ◌≡◌, refl, ap, Option, none, some, count, count-append, arith,
  Option-cases, Bool-cases, true, false, inl, inr, Bool, ptr,
}
use serverlynx.Tn.{Tn, IsTn}
use serverlynx.Tn.Events.{Event, client_read}
use serverlynx.Service.{Service}
use serverlynx.Service.Updates.Laws.{buffers_of-append}
use serverlynx.Io.{link_at}
use serverlynx.Io.Links.{opt}
use serverlynx.Io.Receiving.{
  alloc_with, on_recv_alloc_cb, recv_failed, recv_closed, push_read, deliver, received,
  counted_recv, on_recv_cb,
}
use serverlynx.Io.Holders.{
  in_links-update, in_links-update_give, closing-NoMore, NoMore, same-NoMore, refl-NoMore,
  trans-NoMore, set_link-NoMore, free_pop-NoMore,
}

module _ {T : Tn} (L : IsTn T) where
  -- A link that has no buffer gets one from the pool.
  alloc_with-NoMore :
      (o : Option ℕ) (s : Service T) (p : ℕ)
      → (link_at s p).read_buffer ≡ o
      → NoMore L s (alloc_with o s p).1
  unfolding alloc_with
  alloc_with-NoMore (some b) s p e = refl-NoMore L s
  alloc_with-NoMore none s p e = elim (Option-cases (T.pool.pop_back s.pool_read)) [
    | inl f ↦ rw (f, alloc_with) (refl-NoMore L s)
    | inr ((b, pool), f) ↦
        rw (f, alloc_with)
          (record {
            hands = refl;
            fewer = λ a.
                (let popped = L.pool.count-pop_back s.pool_read pool b f a in
                  let given =
                    in_links-update_give s.link_list.client_map p s.link_list.clients_max a
                      (record (link_at s p) { read_buffer = some b }) in
                  omega arith);
          })
  ]

  recv_failed-NoMore : (ret : ℤ) (s : Service T) (p : ℕ) → NoMore L s (recv_failed ret s p)
  unfolding recv_failed
  recv_failed-NoMore ret s p = set_link-NoMore L s p _ (λ a. omega arith)

  recv_closed-NoMore : (ret : ℤ) (s : Service T) (p h : ℕ) → NoMore L s (recv_closed ret s p h)
  unfolding recv_closed
  recv_closed-NoMore ret s p h = elim (Bool-cases (T.uv.is_closing s.world h)) [
    | inl e ↦ rw (e, recv_closed) (set_link-NoMore L s p _ (λ a. omega arith))
    | inr e ↦ rw (e, recv_closed) (closing-NoMore L s p _ _ (λ a. omega arith))
  ]

  -- An event takes the buffer of its link of the array.
  push_read-NoMore :
      (x : Event) (s : Service T) (p b : ℕ)
      → p < s.link_list.clients_max
      → (link_at s p).read_buffer ≡ some b
      → x.type ≡ client_read
      → x.priv ≡ b
      → NoMore L s (push_read x s p)
  unfolding push_read recv_failed
  push_read-NoMore x s p b lt e kind priv = elim (Option-cases (T.events.ready_push s.events x)) [
    | inl f ↦ rw (f, push_read) (recv_failed-NoMore T.recv_evtpush s p)
    | inr (events, f) ↦
        rw (f, push_read)
          (record {
            hands = refl;
            fewer = λ a.
                (let queue = (L.events.ready_push_lem s.events events x f).0 in
                  let gone =
                    in_links-update s.link_list.client_map p s.link_list.clients_max a
                      (record (link_at s p) { read_buffer = none }) lt in
                  let own = ap (λ o. count a (opt o)) e in
                  rw (queue, buffers_of-append, count-append, kind, priv) (omega arith));
          })
  ]

  deliver-NoMore :
      (s : Service T) (p b : ℕ)
      → p < s.link_list.clients_max
      → (link_at s p).read_buffer ≡ some b
      → NoMore L s (deliver s p b)
  unfolding deliver
  deliver-NoMore s p b lt e = elim (Option-cases (T.events.free_pop s.events client_read)) [
    | inl f ↦ rw (f, deliver) (unfold recv_failed in recv_failed-NoMore T.recv_evtpop s p)
    | inr ((x, events), f) ↦
        let kind = (L.events.free_pop_lem s.events events client_read x f).0 in
        rw (f, deliver)
          (trans-NoMore L s (record s { events = events }) _
            (free_pop-NoMore L s client_read x events f)
            (push_read-NoMore _ (record s { events = events }) p b lt e kind refl))
  ]

  -- What was counted, and the bytes of the buffers, hold nothing.
  received-NoMore :
      (s : Service T) (p b n : ℕ)
      → p < s.link_list.clients_max
      → (link_at s p).read_buffer ≡ some b
      → NoMore L s (received s p b n)
  unfolding received
  received-NoMore s p b n lt e = elim (Option-cases (T.buffers.add_length s.heap b n)) [
    | inl f ↦
        rw (f, received)
          (trans-NoMore L s (counted_recv s n) _
            (same-NoMore L s (counted_recv s n) refl (λ a. refl))
            (unfold recv_failed in recv_failed-NoMore T.recv_ebuf (counted_recv s n) p))
    | inr (heap, f) ↦
        let t = record (counted_recv s n) { heap = heap } in
        rw (f, received)
          (trans-NoMore L s t _ (same-NoMore L s t refl (λ a. refl))
            (unfold deliver in deliver-NoMore t p b lt e))
  ]

  pub on_recv_alloc_cb-NoMore : (s : Service T) (p : ℕ) → NoMore L s (on_recv_alloc_cb s p).1
  unfolding on_recv_alloc_cb
  on_recv_alloc_cb-NoMore s p = alloc_with-NoMore (link_at s p).read_buffer s p refl

  -- Data arrives only for a link of the array that has a buffer.
  pub on_recv_cb-NoMore :
      (s : Service T) (p handle n b : ℕ) (has_buf : Bool)
      → p < s.link_list.clients_max
      → (link_at s p).read_buffer ≡ some b
      → NoMore L s (on_recv_cb s p handle (pos n) has_buf)
  unfolding on_recv_cb
  on_recv_cb-NoMore s p handle zero b has_buf lt e =
      unfold recv_failed in recv_failed-NoMore T.recv_error s p
  on_recv_cb-NoMore s p handle (suc n) b false lt e =
      unfold recv_failed in recv_failed-NoMore T.recv_error s p
  on_recv_cb-NoMore s p handle (suc n) b true lt e =
      rw (ap ptr e) (unfold received in received-NoMore s p b (suc n) lt e)

  pub on_recv_cb_error-NoMore :
      (s : Service T) (p handle n : ℕ) (has_buf : Bool)
      → NoMore L s (on_recv_cb s p handle (negsuc n) has_buf)
  unfolding on_recv_cb
  on_recv_cb_error-NoMore s p handle n has_buf =
      unfold recv_closed in recv_closed-NoMore (negsuc n) s p handle
