-- ===== src/Io/Closing/Stocks.antt =====
-- Closing adds no event and no command to the lists that was not there.
use serverlynx.Prelude.{ℕ, ◌≡◌, refl, ◌==◌, Option, none, some, Option-cases, Bool-cases, inl, inr}
use serverlynx.Tn.{Tn, IsTn}
use serverlynx.Tn.Events.{Event, client_close}
use serverlynx.Link.{LinkState}
use serverlynx.Service.{Service, stopping}
use serverlynx.Service.Commands.{is_started}
use serverlynx.Io.{link_at, set_link}
use serverlynx.Io.Closing.Holders.{stop_signal_cases}
use serverlynx.Io.Closing.{
  give_buffer, push_close, free_link, report_close, on_close_link_cb, safe_close, on_timer_cb,
  on_sigint_cb, on_walk_cb,
}
use serverlynx.Io.Stocks.{
  NoneNew, WithEvent, refl-NoneNew, same-NoneNew, trans-NoneNew, free_pop-WithEvent,
  ready_push-NoneNew, lost-NoneNew,
}

module _ {T : Tn} (L : IsTn T) where
  give_buffer-NoneNew : (o : Option ℕ) (s : Service T) (p : ℕ) → NoneNew L s (give_buffer o s p)
  unfolding give_buffer
  give_buffer-NoneNew none s p = refl-NoneNew L s
  give_buffer-NoneNew (some b) s p = same-NoneNew L s _ refl refl refl

  push_close-NoneNew :
      (s t : Service T) (x y : Event)
      → WithEvent L s x t
      → y.address ≡ x.address
      → NoneNew L s (push_close y t)
  unfolding push_close
  push_close-NoneNew s t x y m same = elim (Option-cases (T.events.ready_push t.events y)) [
    | inl e ↦ rw e (lost-NoneNew L s t x m)
    | inr (events, e) ↦ rw e (ready_push-NoneNew L s t x y events m same e)
  ]

  free_link-NoneNew : (s : Service T) (p : ℕ) → NoneNew L s (free_link s p)
  unfolding free_link
  free_link-NoneNew s p = same-NoneNew L s _ refl refl refl

  report_close-NoneNew : (s : Service T) (p : ℕ) → NoneNew L s (report_close s p)
  unfolding report_close
  report_close-NoneNew s p = elim (Option-cases (T.events.free_pop s.events client_close)) [
    | inl e ↦ rw (e, report_close) (refl-NoneNew L s)
    | inr ((x, events), e) ↦
        rw (e, report_close)
          (trans-NoneNew L s _ _
            (push_close-NoneNew s (record s { events = events }) x _
              (free_pop-WithEvent L s s _ x events (refl-NoneNew L s) e) refl)
            (free_link-NoneNew _ p))
  ]

  pub on_close_link_cb-NoneNew : (s : Service T) (p : ℕ) → NoneNew L s (on_close_link_cb s p)
  unfolding on_close_link_cb
  on_close_link_cb-NoneNew s p =
      let l = link_at s p in
      let t = set_link s p (record l { state = LinkState.closed }) in
      let u = give_buffer l.read_buffer t p in
      trans-NoneNew L s u _
        (trans-NoneNew L s t u (same-NoneNew L s t refl refl refl)
          (give_buffer-NoneNew l.read_buffer t p))
        (report_close-NoneNew u p)

  safe_close-NoneNew : (o : Option ℕ) (s : Service T) → NoneNew L s (safe_close o s)
  unfolding safe_close
  safe_close-NoneNew none s = refl-NoneNew L s
  safe_close-NoneNew (some h) s = elim (Bool-cases (T.uv.is_closing s.world h)) [
    | inl e ↦ rw (e, safe_close) (refl-NoneNew L s)
    | inr e ↦ rw (e, safe_close) (same-NoneNew L s _ refl refl refl)
  ]

  pub on_timer_cb-NoneNew : (s : Service T) → NoneNew L s (on_timer_cb s)
  unfolding on_timer_cb
  on_timer_cb-NoneNew s = elim (Bool-cases (is_started s.state)) [
    | inl e ↦ rw e (refl-NoneNew L s)
    | inr e ↦
        let a = safe_close s.tcp_handle s in
        let b = safe_close s.uv_accept_timer a in
        let c = safe_close s.uv_prep b in
        let d = safe_close s.uv_check c in
        rw e (
          trans-NoneNew L s a _ (safe_close-NoneNew s.tcp_handle s) (
            trans-NoneNew L a b _ (safe_close-NoneNew s.uv_accept_timer a) (
              trans-NoneNew L b c _ (safe_close-NoneNew s.uv_prep b) (
                trans-NoneNew L c d _ (safe_close-NoneNew s.uv_check c)
                  (safe_close-NoneNew s.uv_signal d)))))
  ]

  pub on_sigint_cb-NoneNew :
      (sigint : ℕ) (s : Service T) (signum : ℕ) → NoneNew L s (on_sigint_cb sigint s signum)
  unfolding on_sigint_cb
  on_sigint_cb-NoneNew sigint s signum = elim (Bool-cases (signum == sigint)) [
    | inr e ↦ rw e (refl-NoneNew L s)
    | inl e ↦ rw e (elim (stop_signal_cases L s) [
      | inl f ↦ rw f (refl-NoneNew L s)
      | inr f ↦ rw f (same-NoneNew L s (record s { state = stopping }) refl refl refl)
    ])
  ]

  pub on_walk_cb-NoneNew : (s : Service T) (h : ℕ) → NoneNew L s (on_walk_cb s h)
  unfolding on_walk_cb
  on_walk_cb-NoneNew s h = unfold safe_close in safe_close-NoneNew (some h) s
