-- ===== src/Io/Closing/Holders.antt =====
-- Closing holds no buffer more often than before.
use serverlynx.Prelude.{
  ℕ, ◌<◌, ◌≡◌, refl, ap, Option, none, some, count, arith, ◌==◌, ◌⊎◌, Option-cases, Bool-cases, inl,
  inr,
}
use serverlynx.Tn.{Tn, IsTn}
use serverlynx.Tn.Events.{Event, client_close}
use serverlynx.Link.{LinkState}
use serverlynx.Link.List.{close_link}
use serverlynx.Service.{Service, stopping}
use serverlynx.Service.Commands.{is_started}
use serverlynx.Service.Lifecycle.{stop_signal, set_state}
use serverlynx.Io.{link_at, set_link}
use serverlynx.Io.Links.{opt, link_at-set_link}
use serverlynx.Io.Closing.{
  give_buffer, push_close, free_link, report_close, on_close_link_cb, safe_close, on_timer_cb,
  on_sigint_cb, on_walk_cb,
}
use serverlynx.Io.Holders.{
  in_links-update, NoMore, same-NoMore, refl-NoMore, trans-NoMore, set_link-NoMore,
  ready_push-NoMore, free_pop-NoMore,
}

module _ {T : Tn} (L : IsTn T) where
  -- The buffer of a link of the array goes back to the pool; if the pool refuses it, nobody has it.
  give_buffer-NoMore :
      (o : Option ℕ) (s : Service T) (p : ℕ)
      → p < s.link_list.clients_max
      → (link_at s p).read_buffer ≡ o
      → NoMore L s (give_buffer o s p)
  unfolding give_buffer
  give_buffer-NoMore none s p lt e = refl-NoMore L s
  give_buffer-NoMore (some b) s p lt e = record {
    hands = refl;
    fewer = λ a.
        (let gone =
            in_links-update s.link_list.client_map p s.link_list.clients_max a
              (record (link_at s p) { read_buffer = none }) lt in
          let own = ap (λ o. count a (opt o)) e in
          elim (Option-cases (T.pool.push s.pool_read b)) [
            | inl f ↦ rw f (omega arith)
            | inr (pool, f) ↦ let put = L.pool.count-push _ pool b f a in rw f (omega arith)
          ]);
  }

  push_close-NoMore :
      (x : Event) (s : Service T) → x.type ≡ client_close → NoMore L s (push_close x s)
  unfolding push_close
  push_close-NoMore x s kind = elim (Option-cases (T.events.ready_push s.events x)) [
    | inl e ↦ rw e (refl-NoMore L s)
    | inr (events, e) ↦ rw e (ready_push-NoMore L s x events e (rw kind refl))
  ]

  free_link-NoMore : (s : Service T) (p : ℕ) → NoMore L s (free_link s p)
  unfolding free_link close_link
  free_link-NoMore s p = elim (Option-cases (T.list.push_back s.link_list.client_list_free p)) [
    | inl e ↦ rw (e, close_link) (refl-NoMore L s)
    | inr (free, e) ↦ rw (e, close_link) (same-NoMore L s _ refl (λ a. refl))
  ]

  report_close-NoMore : (s : Service T) (p : ℕ) → NoMore L s (report_close s p)
  unfolding report_close
  report_close-NoMore s p = elim (Option-cases (T.events.free_pop s.events client_close)) [
    | inl e ↦ rw (e, report_close) (refl-NoMore L s)
    | inr ((x, events), e) ↦
        let kind = (L.events.free_pop_lem s.events events client_close x e).0 in
        rw (e, report_close)
          (trans-NoMore L s _ _ (free_pop-NoMore L s client_close x events e)
            (trans-NoMore L _ _ _ (push_close-NoMore _ _ kind) (free_link-NoMore _ p)))
  ]

  pub on_close_link_cb-NoMore :
      (s : Service T) (p : ℕ) → p < s.link_list.clients_max → NoMore L s (on_close_link_cb s p)
  unfolding on_close_link_cb
  on_close_link_cb-NoMore s p lt =
      let l = link_at s p in
      let t = set_link s p (record l { state = LinkState.closed }) in
      trans-NoMore L s t _ (set_link-NoMore L s p _ (λ a. omega arith)) (
        trans-NoMore L t _ _
          (give_buffer-NoMore l.read_buffer t p lt
            (ap (λ k. k.read_buffer) (link_at-set_link s p _)))
          (report_close-NoMore (give_buffer l.read_buffer t p) p))

  safe_close-NoMore : (o : Option ℕ) (s : Service T) → NoMore L s (safe_close o s)
  unfolding safe_close
  safe_close-NoMore none s = refl-NoMore L s
  safe_close-NoMore (some h) s = elim (Bool-cases (T.uv.is_closing s.world h)) [
    | inl e ↦ rw (e, safe_close) (refl-NoMore L s)
    | inr e ↦ rw (e, safe_close) (same-NoMore L s _ refl (λ a. refl))
  ]

  pub on_timer_cb-NoMore : (s : Service T) → NoMore L s (on_timer_cb s)
  unfolding on_timer_cb
  on_timer_cb-NoMore s = elim (Bool-cases (is_started s.state)) [
    | inl e ↦ rw e (refl-NoMore L s)
    | inr e ↦
        let a = safe_close s.tcp_handle s in
        let b = safe_close s.uv_accept_timer a in
        let c = safe_close s.uv_prep b in
        let d = safe_close s.uv_check c in
        rw e (
          trans-NoMore L s a _ (safe_close-NoMore s.tcp_handle s) (
            trans-NoMore L a b _ (safe_close-NoMore s.uv_accept_timer a) (
              trans-NoMore L b c _ (safe_close-NoMore s.uv_prep b) (
                trans-NoMore L c d _ (safe_close-NoMore s.uv_check c)
                  (safe_close-NoMore s.uv_signal d)))))
  ]

  pub stop_signal_cases :
      (s : Service T)
      → ((stop_signal s).1 ≡ s) ⊎ ((stop_signal s).1 ≡ record s { state = stopping })
  unfolding stop_signal set_state
  stop_signal_cases s = ground arith

  stop_signal-NoMore : (s : Service T) → NoMore L s (stop_signal s).1
  stop_signal-NoMore s = elim (stop_signal_cases s) [
    | inl e ↦ rw e (refl-NoMore L s)
    | inr e ↦ rw e (same-NoMore L s (record s { state = stopping }) refl (λ a. refl))
  ]

  pub on_sigint_cb-NoMore :
      (sigint : ℕ) (s : Service T) (signum : ℕ) → NoMore L s (on_sigint_cb sigint s signum)
  unfolding on_sigint_cb
  on_sigint_cb-NoMore sigint s signum = elim (Bool-cases (signum == sigint)) [
    | inl e ↦ rw e (stop_signal-NoMore s)
    | inr e ↦ rw e (refl-NoMore L s)
  ]

  pub on_walk_cb-NoMore : (s : Service T) (h : ℕ) → NoMore L s (on_walk_cb s h)
  unfolding on_walk_cb
  on_walk_cb-NoMore s h = unfold safe_close in safe_close-NoMore (some h) s
