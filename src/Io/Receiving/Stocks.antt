-- ===== src/Io/Receiving/Stocks.antt =====
-- Receiving adds no event and no command to the lists that was not there.
use serverlynx.Prelude.{
  ℕ, zero, suc, ℤ, pos, negsuc, ◌≡◌, refl, Bool, true, false, Option, none, some, Option-cases,
  Bool-cases, inl, inr, ptr,
}
use serverlynx.Tn.{Tn, IsTn}
use serverlynx.Tn.Events.{Event, client_read}
use serverlynx.Service.{Service}
use serverlynx.Io.{link_at}
use serverlynx.Io.Receiving.{
  alloc_with, on_recv_alloc_cb, recv_failed, recv_closed, push_read, deliver, received,
  counted_recv, on_recv_cb,
}
use serverlynx.Io.Stocks.{
  NoneNew, WithEvent, refl-NoneNew, same-NoneNew, trans-NoneNew, free_pop-WithEvent,
  ready_push-NoneNew, lost-NoneNew,
}

module _ {T : Tn} (L : IsTn T) where
  alloc_with-NoneNew : (o : Option ℕ) (s : Service T) (p : ℕ) → NoneNew L s (alloc_with o s p).1
  unfolding alloc_with
  alloc_with-NoneNew (some b) s p = refl-NoneNew L s
  alloc_with-NoneNew none s p = elim (Option-cases (T.pool.pop_back s.pool_read)) [
    | inl f ↦ rw (f, alloc_with) (refl-NoneNew L s)
    | inr ((b, pool), f) ↦ rw (f, alloc_with) (same-NoneNew L s _ refl refl refl)
  ]

  pub on_recv_alloc_cb-NoneNew : (s : Service T) (p : ℕ) → NoneNew L s (on_recv_alloc_cb s p).1
  unfolding on_recv_alloc_cb
  on_recv_alloc_cb-NoneNew s p = alloc_with-NoneNew (link_at s p).read_buffer s p

  recv_failed-NoneNew : (ret : ℤ) (s : Service T) (p : ℕ) → NoneNew L s (recv_failed ret s p)
  unfolding recv_failed
  recv_failed-NoneNew ret s p = same-NoneNew L s _ refl refl refl

  recv_closed-NoneNew : (ret : ℤ) (s : Service T) (p h : ℕ) → NoneNew L s (recv_closed ret s p h)
  unfolding recv_closed
  recv_closed-NoneNew ret s p h = elim (Bool-cases (T.uv.is_closing s.world h)) [
    | inl e ↦ rw (e, recv_closed) (same-NoneNew L s _ refl refl refl)
    | inr e ↦ rw (e, recv_closed) (same-NoneNew L s _ refl refl refl)
  ]

  push_read-NoneNew :
      (s t : Service T) (x y : Event) (p : ℕ)
      → WithEvent L s x t
      → y.address ≡ x.address
      → NoneNew L s (push_read y t p)
  unfolding push_read recv_failed
  push_read-NoneNew s t x y p m same = elim (Option-cases (T.events.ready_push t.events y)) [
    | inl f ↦
        rw (f, push_read)
          (trans-NoneNew L s t _ (lost-NoneNew L s t x m) (recv_failed-NoneNew T.recv_evtpush t p))
    | inr (events, f) ↦
        rw (f, push_read)
          (trans-NoneNew L s (record t { events = events }) _
            (ready_push-NoneNew L s t x y events m same f) (same-NoneNew L _ _ refl refl refl))
  ]

  deliver-NoneNew : (s : Service T) (p b : ℕ) → NoneNew L s (deliver s p b)
  unfolding deliver
  deliver-NoneNew s p b = elim (Option-cases (T.events.free_pop s.events client_read)) [
    | inl f ↦ rw (f, deliver) (unfold recv_failed in recv_failed-NoneNew T.recv_evtpop s p)
    | inr ((x, events), f) ↦
        rw (f, deliver)
          (push_read-NoneNew s (record s { events = events }) x _ p
            (free_pop-WithEvent L s s _ x events (refl-NoneNew L s) f) refl)
  ]

  received-NoneNew : (s : Service T) (p b n : ℕ) → NoneNew L s (received s p b n)
  unfolding received
  received-NoneNew s p b n = elim (Option-cases (T.buffers.add_length s.heap b n)) [
    | inl f ↦
        rw (f, received)
          (trans-NoneNew L s (counted_recv s n) _ (same-NoneNew L s _ refl refl refl)
            (unfold recv_failed in recv_failed-NoneNew T.recv_ebuf (counted_recv s n) p))
    | inr (heap, f) ↦
        let t = record (counted_recv s n) { heap = heap } in
        rw (f, received)
          (trans-NoneNew L s t _ (same-NoneNew L s t refl refl refl)
            (unfold deliver in deliver-NoneNew t p b))
  ]

  pub on_recv_cb-NoneNew :
      (s : Service T) (p handle : ℕ) (nread : ℤ) (has_buf : Bool)
      → NoneNew L s (on_recv_cb s p handle nread has_buf)
  unfolding on_recv_cb
  on_recv_cb-NoneNew s p handle (negsuc n) has_buf =
      unfold recv_closed in recv_closed-NoneNew (negsuc n) s p handle
  on_recv_cb-NoneNew s p handle (pos zero) has_buf =
      unfold recv_failed in recv_failed-NoneNew T.recv_error s p
  on_recv_cb-NoneNew s p handle (pos (suc n)) false =
      unfold recv_failed in recv_failed-NoneNew T.recv_error s p
  on_recv_cb-NoneNew s p handle (pos (suc n)) true =
      unfold received in received-NoneNew s p (ptr (link_at s p).read_buffer) (suc n)
