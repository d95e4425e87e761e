-- ===== src/Io/Receiving/Sound.antt =====
-- Receiving writes no link but its own, and of that neither the id nor the handle nor, unless an error
-- closes it, the state. So it keeps the list of links sound.
use serverlynx.Prelude.{
  ℕ, zero, suc, ℤ, pos, negsuc, ◌≡◌, refl, ◌⊎◌, Option, none, some, Option-cases, Bool-cases, true,
  false, inl, inr, Bool, ptr,
}
use serverlynx.Tn.{Tn, IsTn}
use serverlynx.Tn.Events.{Event, client_read}
use serverlynx.Link.{Link, closing}
use serverlynx.Service.{Service}
use serverlynx.Io.{link_at, set_link}
use serverlynx.Io.Sound.{IsBusy, IsSound, same_state-IsSound, busy-IsSound}
use serverlynx.Io.Receiving.{
  alloc_with, on_recv_alloc_cb, recv_failed, recv_closed, push_read, deliver, received,
  counted_recv, on_recv_cb,
}

module _ {T : Tn} where
  -- From `s` to `t`, the link `p` is written, and keeps its id, its handle and its close command; `X` is said of its state.
  abbrev pub Written : (s : Service T) → ℕ → (Link → Type 0) → Service T → Type 0
  Written s p X t =
      (k : Link) × (t.link_list ≡ (set_link s p k).link_list)
      × (k.id ≡ (link_at s p).id)
      × (k.priv ≡ (link_at s p).priv)
      × (k.cmd_close_id ≡ (link_at s p).cmd_close_id)
      × X k

  -- No link changes its state.
  abbrev pub KeepsState : Service T → ℕ → Service T → Type 0
  KeepsState s p t =
      (t.link_list ≡ s.link_list) ⊎ Written s p (λ k. k.state ≡ (link_at s p).state) t

  alloc_with-KeepsState :
      (o : Option ℕ) (s : Service T) (p : ℕ) → KeepsState s p (alloc_with o s p).1
  unfolding alloc_with
  alloc_with-KeepsState (some b) s p = inl refl
  alloc_with-KeepsState none s p = elim (Option-cases (T.pool.pop_back s.pool_read)) [
    | inl f ↦ rw (f, alloc_with) (inl refl)
    | inr ((b, pool), f) ↦
        rw (f, alloc_with)
          (inr (record (link_at s p) { read_buffer = some b }, refl, refl, refl, refl, refl))
  ]

  recv_failed-KeepsState : (ret : ℤ) (s : Service T) (p : ℕ) → KeepsState s p (recv_failed ret s p)
  unfolding recv_failed
  recv_failed-KeepsState ret s p =
      inr (record (link_at s p) { error_code = ret }, refl, refl, refl, refl, refl)

  recv_closed-Written :
      (ret : ℤ) (s : Service T) (p h : ℕ)
      → KeepsState s p (recv_closed ret s p h)
        ⊎ Written s p (λ k. k.state ≡ closing) (recv_closed ret s p h)
  unfolding recv_closed
  recv_closed-Written ret s p h = elim (Bool-cases (T.uv.is_closing s.world h)) [
    | inl e ↦
        rw (e, recv_closed)
          (inl (inr (record (link_at s p) { error_code = ret }, refl, refl, refl, refl, refl)))
    | inr e ↦
        rw (e, recv_closed)
          (inr (
            record (link_at s p) { error_code = ret; state = closing },
            refl,
            refl,
            refl,
            refl,
            refl,
          ))
  ]

  push_read-KeepsState : (x : Event) (s : Service T) (p : ℕ) → KeepsState s p (push_read x s p)
  unfolding push_read recv_failed
  push_read-KeepsState x s p = elim (Option-cases (T.events.ready_push s.events x)) [
    | inl f ↦ rw (f, push_read) (recv_failed-KeepsState T.recv_evtpush s p)
    | inr (events, f) ↦
        rw (f, push_read)
          (inr (record (link_at s p) { read_buffer = none }, refl, refl, refl, refl, refl))
  ]

  deliver-KeepsState : (s : Service T) (p b : ℕ) → KeepsState s p (deliver s p b)
  unfolding deliver
  deliver-KeepsState s p b = elim (Option-cases (T.events.free_pop s.events client_read)) [
    | inl f ↦ rw (f, deliver) (unfold recv_failed in recv_failed-KeepsState T.recv_evtpop s p)
    | inr ((x, events), f) ↦
        rw (f, deliver) (push_read-KeepsState _ (record s { events = events }) p)
  ]

  received-KeepsState : (s : Service T) (p b n : ℕ) → KeepsState s p (received s p b n)
  unfolding received
  received-KeepsState s p b n = elim (Option-cases (T.buffers.add_length s.heap b n)) [
    | inl f ↦
        rw (f, received)
          (unfold recv_failed in recv_failed-KeepsState T.recv_ebuf (counted_recv s n) p)
    | inr (heap, f) ↦
        rw (f, received)
          (unfold deliver in deliver-KeepsState (record (counted_recv s n) { heap = heap }) p b)
  ]

  pub on_recv_alloc_cb-KeepsState :
      (s : Service T) (p : ℕ) → KeepsState s p (on_recv_alloc_cb s p).1
  unfolding on_recv_alloc_cb
  on_recv_alloc_cb-KeepsState s p = alloc_with-KeepsState (link_at s p).read_buffer s p

  pub on_recv_cb-KeepsState :
      (s : Service T) (p handle n : ℕ) (has_buf : Bool)
      → KeepsState s p (on_recv_cb s p handle (pos n) has_buf)
  unfolding on_recv_cb
  on_recv_cb-KeepsState s p handle zero has_buf =
      unfold recv_failed in recv_failed-KeepsState T.recv_error s p
  on_recv_cb-KeepsState s p handle (suc n) false =
      unfold recv_failed in recv_failed-KeepsState T.recv_error s p
  on_recv_cb-KeepsState s p handle (suc n) true =
      unfold received in received-KeepsState s p (ptr (link_at s p).read_buffer) (suc n)

  pub on_recv_cb_error-Written :
      (s : Service T) (p handle n : ℕ) (has_buf : Bool)
      → let t = on_recv_cb s p handle (negsuc n) has_buf in
        KeepsState s p t ⊎ Written s p (λ k. k.state ≡ closing) t
  unfolding on_recv_cb
  on_recv_cb_error-Written s p handle n has_buf =
      unfold recv_closed in recv_closed-Written (negsuc n) s p handle

module _ {T : Tn} (L : IsTn T) where
  pub KeepsState-IsSound :
      (s t : Service T) (p : ℕ) → KeepsState s p t → IsSound L s.link_list → IsSound L t.link_list
  KeepsState-IsSound s t p (inl e) i = rw e i
  KeepsState-IsSound s t p (inr (k, e, a, b, _, c)) i = rw e (same_state-IsSound L s p k a b c i)

  -- An error is reported for a link that has a connection.
  pub on_recv_cb_error-IsSound :
      (s : Service T) (p handle n : ℕ) (has_buf : Bool)
      → IsBusy (link_at s p).state
      → IsSound L s.link_list
      → IsSound L (on_recv_cb s p handle (negsuc n) has_buf).link_list
  on_recv_cb_error-IsSound s p handle n has_buf busy i =
      elim (on_recv_cb_error-Written s p handle n has_buf) [
        | inl k ↦ KeepsState-IsSound s (on_recv_cb s p handle (negsuc n) has_buf) p k i
        | inr (k, e, a, b, _, c) ↦ rw e (busy-IsSound L s p k a b busy i)
      ]
