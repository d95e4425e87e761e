-- ===== src/Io/Closing/Sound.antt =====
-- Closing keeps the list of links sound, and the callbacks of the timer, of the signal and of the walk do
-- not touch it.
use serverlynx.Prelude.{
  ℕ, pos, ◌<◌, ◌≢◌, ◌≡◌, refl, ap, ◌∙◌, Option, none, some, arith, Option-cases, Bool-cases, inl,
  inr, elem, false,
}
use serverlynx.Tn.{Tn, IsTn}
use serverlynx.Tn.Events.{client_close}
use serverlynx.Link.{closing, closed}
use serverlynx.Link.List.{close_link}
use serverlynx.Link.List.Invariant.{free_links}
use serverlynx.Link.List.Opening.{close_lem}
use serverlynx.Service.{Service}
use serverlynx.Service.Commands.{is_started}
use serverlynx.Service.Lifecycle.{stop_signal, set_state}
use serverlynx.Io.{link_at, set_link}
use serverlynx.Io.Links.{link_at-set_link, link_at-set_link_ne}
use serverlynx.Io.Closing.{
  give_buffer, push_close, free_link, report_close, on_close_link_cb, safe_close, on_timer_cb,
  on_sigint_cb, on_walk_cb,
}
use serverlynx.Io.Sound.{IsSound, busy_not_free, busy-IsSound, same_state-IsSound, freed-IsSound}

module _ {T : Tn} (L : IsTn T) where
  -- A closed link that is not free, in a sound list.
  record Shut (s : Service T) (p : ℕ) : Type 0 where
    sound : IsSound L s.link_list
    in_array : p < s.link_list.clients_max
    taken : elem p (free_links L.list s.link_list) ≡ false
    state : (link_at s p).state ≡ closed

  give_buffer-Shut : (o : Option ℕ) (s : Service T) (p : ℕ) → Shut s p → Shut (give_buffer o s p) p
  unfolding give_buffer
  give_buffer-Shut none s p h = h
  give_buffer-Shut (some b) s p h = record {
    sound =
        same_state-IsSound L s p (record (link_at s p) { read_buffer = none }) refl refl refl
          h.sound;
    in_array = h.in_array;
    taken = h.taken;
    state = ap (λ k. k.state) (link_at-set_link s p _) ∙ h.state;
  }

  free_link-IsSound : (s : Service T) (p : ℕ) → Shut s p → IsSound L (free_link s p).link_list
  unfolding free_link
  free_link-IsSound s p h =
      let (l', done, free, links, size, fine) =
        close_lem L.list s.link_list p h.sound.fine h.in_array h.taken in
      rw done (freed-IsSound L s.link_list l' p h.sound fine free links size (inr h.state))

  report_close-IsSound : (s : Service T) (p : ℕ) → Shut s p → IsSound L (report_close s p).link_list
  unfolding report_close
  report_close-IsSound s p h = elim (Option-cases (T.events.free_pop s.events client_close)) [
    | inl e ↦ rw (e, report_close) h.sound
    | inr ((x, events), e) ↦
        let y = record x {
          client_id = (link_at s p).id;
          error_code = pos 0;
          cmd_id = (link_at s p).cmd_close_id;
        } in
        let v = push_close y (record s { events = events }) in
        rw (e, report_close)
          (unfold free_link push_close in
            free_link-IsSound v p (
              unfold push_close in
              record { sound = h.sound; in_array = h.in_array; taken = h.taken; state = h.state }))
  ]

  -- A close is reported for a link that is closing.
  pub on_close_link_cb-IsSound :
      (s : Service T) (p : ℕ)
      → p < s.link_list.clients_max
      → (link_at s p).state ≡ closing
      → IsSound L s.link_list
      → IsSound L (on_close_link_cb s p).link_list
  unfolding on_close_link_cb
  on_close_link_cb-IsSound s p lt e i =
      let k = record (link_at s p) { state = closed } in
      let t = set_link s p k in
      report_close-IsSound _ p (
        give_buffer-Shut (link_at s p).read_buffer t p (record {
          sound = busy-IsSound L s p k refl refl (inr e) i;
          in_array = lt;
          taken = busy_not_free L s.link_list p i (inr e);
          state = ap (λ m. m.state) (link_at-set_link s p k);
        }))

module _ {T : Tn} where
  safe_close-links : (o : Option ℕ) (s : Service T) → (safe_close o s).link_list ≡ s.link_list
  unfolding safe_close
  safe_close-links none s = refl
  safe_close-links (some h) s = ground arith

  pub on_timer_cb-links : (s : Service T) → (on_timer_cb s).link_list ≡ s.link_list
  unfolding on_timer_cb
  on_timer_cb-links s = elim (Bool-cases (is_started s.state)) [
    | inl e ↦ rw e refl
    | inr e ↦ rw e (
        safe_close-links s.uv_signal _
        ∙ safe_close-links s.uv_check _
        ∙ safe_close-links s.uv_prep _
        ∙ safe_close-links s.uv_accept_timer _
        ∙ safe_close-links s.tcp_handle s)
  ]

  pub on_sigint_cb-links :
      (sigint : ℕ) (s : Service T) (signum : ℕ)
      → (on_sigint_cb sigint s signum).link_list ≡ s.link_list
  unfolding on_sigint_cb stop_signal set_state
  on_sigint_cb-links sigint s signum = ground arith

  pub on_walk_cb-links : (s : Service T) (h : ℕ) → (on_walk_cb s h).link_list ≡ s.link_list
  unfolding on_walk_cb
  on_walk_cb-links s h = unfold safe_close in safe_close-links (some h) s

  -- A close writes no link but its own, which it leaves closed.
  give_buffer-link :
      (o : Option ℕ) (s : Service T) (p : ℕ)
      → ((link_at (give_buffer o s p) p).state ≡ (link_at s p).state)
        × ((q : ℕ) → p ≢ q → link_at (give_buffer o s p) q ≡ link_at s q)
  unfolding give_buffer
  give_buffer-link none s p = (refl, λ q n. refl)
  give_buffer-link (some b) s p = (
    ap (λ k. k.state) (link_at-set_link s p _),
    λ q n. link_at-set_link_ne s p q (record (link_at s p) { read_buffer = none }) n,
  )

  free_link-map : (s : Service T) (p q : ℕ) → link_at (free_link s p) q ≡ link_at s q
  unfolding free_link close_link
  free_link-map s p q = elim (Option-cases (T.list.push_back s.link_list.client_list_free p)) [
    | inl e ↦ rw (e, close_link) refl
    | inr (free, e) ↦ rw (e, close_link) refl
  ]

  report_close-map : (s : Service T) (p q : ℕ) → link_at (report_close s p) q ≡ link_at s q
  unfolding report_close
  report_close-map s p q = elim (Option-cases (T.events.free_pop s.events client_close)) [
    | inl e ↦ rw (e, report_close) refl
    | inr ((x, events), e) ↦
        let y = record x {
          client_id = (link_at s p).id;
          error_code = pos 0;
          cmd_id = (link_at s p).cmd_close_id;
        } in
        let v = push_close y (record s { events = events }) in
        rw (e, report_close) (unfold free_link push_close in free_link-map v p q)
  ]

  pub on_close_link_cb-link :
      (s : Service T) (p : ℕ)
      → let t = on_close_link_cb s p in
        ((link_at t p).state ≡ closed) × ((q : ℕ) → p ≢ q → link_at t q ≡ link_at s q)
  unfolding on_close_link_cb
  on_close_link_cb-link s p =
      let k = record (link_at s p) { state = closed } in
      let t = set_link s p k in
      let u = give_buffer (link_at s p).read_buffer t p in
      let (same, away) = give_buffer-link (link_at s p).read_buffer t p in
      (
        ap (λ m. m.state) (report_close-map u p p)
            ∙ same
            ∙ ap (λ m. m.state) (link_at-set_link s p k),
        λ q n. report_close-map u p q ∙ away q n ∙ link_at-set_link_ne s p q k n,
      )
