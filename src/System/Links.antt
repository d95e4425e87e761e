-- ===== src/System/Links.antt =====
-- The links, over all the moves of both threads.
use serverlynx.Prelude.{
  ℕ, ◌<◌, ◌≡◌, refl, ap, ◌∙◌, Bool, false, List, [], ◌∷◌, elem, Status, Option-cases, inl, inr,
}
use serverlynx.Tn.{Tn, IsTn}
use serverlynx.Tn.Events.{Event, EventType, client_read, client_open, client_close, other}
use serverlynx.Link.{LinkState, closing}
use serverlynx.Service.Lifecycle.{set_state, listen}
use serverlynx.Service.Lifecycle.Laws.{listen-either}
use serverlynx.Service.Stats.{stats_clear}
use serverlynx.Service.{Service, ServiceState}
use serverlynx.Service.Commands.Laws.{
  Request, Outcome, submitted, refused, dropped, call, call-Outcome,
}
use serverlynx.Service.Updates.{
  acquire, release, release_all, release_one, return_buffer, free_event,
}
use serverlynx.Service.Updates.Laws.{updates}
use serverlynx.Io.{link_at}
use serverlynx.Io.Links.{free_of}
use serverlynx.Io.Sound.{IsSound, IsBusy}
use serverlynx.Io.Closing.Sound.{
  on_close_link_cb-IsSound, on_timer_cb-links, on_sigint_cb-links, on_walk_cb-links,
}
use serverlynx.Io.Commands.Sound.{
  on_inbound_connection_cb-IsSound, on_outbound_connection_cb-IsSound, on_check_cb-IsSound,
}
use serverlynx.Io.Receiving.Sound.{
  on_recv_alloc_cb-KeepsState, on_recv_cb-KeepsState, on_recv_cb_error-IsSound, KeepsState-IsSound,
}
use serverlynx.Io.Sending.Untouched.{on_send_cb-links}
use serverlynx.System.{
  Move, allocates, receives, receives_error, closes, sent, accepts, connects, commands, ticks,
  signals, walks, submits, acquires, releases, stores, listens, clears,
}

-- The calls of the main thread do not touch the links.
module _ {T : Tn} where
  pub acquire-links : (s : Service T) → (acquire s).2.link_list ≡ s.link_list
  unfolding acquire
  acquire-links s = elim (Option-cases (T.events.ready_pop_all s.events s.buffer_count)) [
    | inl e ↦ rw (e, acquire) refl
    | inr ((xs, events), e) ↦ rw (e, acquire) refl
  ]

  return_buffer-links :
      (k : EventType) (b : ℕ) (s : Service T) → (return_buffer k b s).link_list ≡ s.link_list
  unfolding return_buffer
  return_buffer-links client_read b s = elim (Option-cases (T.pool.push s.pool_read b)) [
    | inl e ↦ rw (e, return_buffer) refl
    | inr (pool, e) ↦ rw (e, return_buffer) refl
  ]
  return_buffer-links client_open b s = refl
  return_buffer-links client_close b s = refl
  return_buffer-links other b s = refl

  free_event-links : (x : Event) (s : Service T) → (free_event x s).link_list ≡ s.link_list
  unfolding free_event
  free_event-links x s = elim (Option-cases (T.events.free_push s.events x)) [
    | inl e ↦ rw (e, free_event) refl
    | inr (c, e) ↦ rw (e, free_event) refl
  ]

  release_all-links : (xs : List Event) (s : Service T) → (release_all xs s).link_list ≡ s.link_list
  unfolding release_all release_one
  release_all-links [] s = refl
  release_all-links (x ∷ xs) s =
      release_all-links xs _
      ∙ free_event-links x (return_buffer x.type x.priv s)
      ∙ return_buffer-links x.type x.priv s

  pub release-links : (s : Service T) → (release s).1.link_list ≡ s.link_list
  unfolding release
  release-links s = release_all-links (updates s) s

  pub set_state-links : (s : Service T) (x : ServiceState) → (set_state s x).link_list ≡ s.link_list
  unfolding set_state
  set_state-links s x = refl

  pub listen-links : (s : Service T) (endpoint : ℕ) → (listen s endpoint).1.link_list ≡ s.link_list
  listen-links s endpoint = listen-either (λ u. u.link_list ≡ s.link_list) s endpoint refl refl

  pub stats_clear-links : (s : Service T) → (stats_clear s).1.link_list ≡ s.link_list
  unfolding stats_clear
  stats_clear-links s = refl

module _ {T : Tn} (L : IsTn T) where
  pub Outcome-links :
      (r : Request) (s : Service T) (p : Status × ℕ × Service T)
      → Outcome L r s p
      → p.2.link_list ≡ s.link_list
  Outcome-links r s p (submitted x) = ap (λ u. u.link_list) x.rest
  Outcome-links r s p refused = refl
  Outcome-links r s p (dropped x y) = refl

  -- What libuv's callbacks come for: an error on a link that has a connection, the end of a close that
  -- the service asked for, and a connection that a link waits for.
  abbrev pub Expected : (s t : Service T) (b c : Bool) → Move s b t c → Type 0
  Expected s t b c (receives_error p handle n has_buf) = IsBusy (link_at s p).state
  Expected s t b c (closes p low) = (link_at s p).state ≡ closing
  Expected s t b c (connects p status e) =
      (p < s.link_list.clients_max)
      × (elem p (free_of L s) ≡ false)
      × ((link_at s p).state ≡ LinkState.new)
  Expected s t b c _ = Unit

  -- Any number of moves, with callbacks as expected.
  pub data Run : Service T → Bool → Service T → Bool → Type 0 where
    done : {s : Service T} {b : Bool} → Run s b s b
    then_move :
        {s t u : Service T} {b c d : Bool}
        → Run s b t c
        → (m : Move t c u d) → Expected t u c d m
        → Run s b u d

  same_links-IsSound :
      (s t : Service T) → IsSound L s.link_list → t.link_list ≡ s.link_list → IsSound L t.link_list
  same_links-IsSound s t i e = rw e i

  Move-IsSound :
      (s t : Service T) (b c : Bool) (m : Move s b t c)
      → Expected s t b c m
      → IsSound L s.link_list
      → IsSound L t.link_list
  Move-IsSound s t b c (allocates p) x i =
      KeepsState-IsSound L s t p (on_recv_alloc_cb-KeepsState s p) i
  Move-IsSound s t b c (receives p handle n buffer has_buf low e) x i =
      KeepsState-IsSound L s t p (on_recv_cb-KeepsState s p handle n has_buf) i
  Move-IsSound s t b c (receives_error p handle n has_buf) x i =
      on_recv_cb_error-IsSound L s p handle n has_buf x i
  Move-IsSound s t b c (closes p low) x i = on_close_link_cb-IsSound L s p low x i
  Move-IsSound s t b c (sent r status) x i = same_links-IsSound s t i (on_send_cb-links s r status)
  Move-IsSound s t b c (accepts status) x i = on_inbound_connection_cb-IsSound L s status i
  Move-IsSound s t b c (connects p status e) (lt, out, waits) i =
      on_outbound_connection_cb-IsSound L s t p status lt out waits i e
  Move-IsSound s t b c (commands fuel e) x i = on_check_cb-IsSound L fuel s t i e
  Move-IsSound s t b c ticks x i = same_links-IsSound s t i (on_timer_cb-links s)
  Move-IsSound s t b c (signals sigint signum) x i =
      same_links-IsSound s t i (on_sigint_cb-links sigint s signum)
  Move-IsSound s t b c (walks h) x i = same_links-IsSound s t i (on_walk_cb-links s h)
  Move-IsSound s t b c (submits r) x i =
      same_links-IsSound s t i (Outcome-links r s (call s r) (call-Outcome L r s).0)
  Move-IsSound s t b c acquires x i = same_links-IsSound s t i (acquire-links s)
  Move-IsSound s t b c releases x i = same_links-IsSound s t i (release-links s)
  Move-IsSound s t b c (stores y) x i = same_links-IsSound s t i (set_state-links s y)
  Move-IsSound s t b c (listens endpoint) x i = same_links-IsSound s t i (listen-links s endpoint)
  Move-IsSound s t b c clears x i = same_links-IsSound s t i (stats_clear-links s)

  -- A sound list of links is sound after any number of moves, in whichever order, and whichever
  -- of the calls fail that they make of libuv and of the containers: it is well formed, so that
  -- no link is free twice; a free link is new or closed, never open and never closing; and a
  -- link that is not free has a handle. The moves are the callbacks of the loop, the calls of
  -- the main thread between the set-up of the service and its clean-up, and the stores of the
  -- state; a callback counts as one move. It is assumed that libuv calls back for links of the
  -- array, brings data only to a link that has a buffer, and reports a read error only for a
  -- link that is open or closing, the end of a close only for a link that is closing, and a
  -- connection only for a link that is not free and waits for it; that the main thread releases
  -- only what it has acquired; and that libuv does not report a connection that the service has
  -- started as failed, in which case the callback has no defined behaviour.
  pub Run-IsSound :
      (s t : Service T) (b c : Bool) → IsSound L s.link_list → Run s b t c → IsSound L t.link_list
  Run-IsSound s t b c i done = i
  Run-IsSound s u b d i (then_move {t = t} {c = c} r m x) =
      Move-IsSound t u c d m x (Run-IsSound s t b c i r)
