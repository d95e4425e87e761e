-- ===== src/System/Buffers.antt =====
-- The read buffers, over all the moves of both threads.
use serverlynx.Prelude.{ℕ, ◌+◌, ◌≤◌, refl, ap, Bool, true, false, List, [], count, Status, arith}
use serverlynx.Tn.{Tn, IsTn}
use serverlynx.Tn.Events.{Event}
use serverlynx.Service.Lifecycle.{set_state}
use serverlynx.Service.Lifecycle.Laws.{listen-either}
use serverlynx.Service.Stats.{stats_clear}
use serverlynx.Service.{Service, ServiceState}
use serverlynx.Service.Commands.Laws.{
  Request, Outcome, submitted, refused, dropped, call, call-Outcome,
}
use serverlynx.Service.Updates.Holders.{acquire-held, release-held}
use serverlynx.Service.Updates.Laws.{buffers_of, updates}
use serverlynx.Io.Closing.Holders.{
  on_close_link_cb-NoMore, on_timer_cb-NoMore, on_sigint_cb-NoMore, on_walk_cb-NoMore,
}
use serverlynx.Io.Commands.Holders.{on_check_cb-NoMore}
use serverlynx.Io.Connecting.Holders.{
  on_inbound_connection_cb-NoMore, on_outbound_connection_cb-NoMore,
}
use serverlynx.Io.Holders.{held, NoMore, same-NoMore, refl-NoMore}
use serverlynx.Io.Receiving.Holders.{
  on_recv_alloc_cb-NoMore, on_recv_cb-NoMore, on_recv_cb_error-NoMore,
}
use serverlynx.Io.Sending.Holders.{on_send_cb-NoMore}
use serverlynx.System.{
  Move, allocates, receives, receives_error, closes, sent, accepts, connects, commands, ticks,
  signals, walks, submits, acquires, releases, stores, listens, clears, Moves, done, then_move,
}

module _ {T : Tn} (L : IsTn T) where
  -- The events in the hands of the main thread.
  abbrev pub in_hands : Bool → Service T → List Event
  in_hands true s = updates s
  in_hands false s = []

  -- How often the service and the main thread hold a buffer.
  abbrev pub total : Service T → Bool → ℕ → ℕ
  total s b a = held L s a + count a (buffers_of (in_hands b s))

  -- No buffer is in two places, or in one place twice.
  abbrev pub IsSole : Service T → Bool → Type 0
  IsSole s b = (a : ℕ) → total s b a ≤ 1

  total-NoMore : (s t : Service T) (b : Bool) (a : ℕ) → NoMore L s t → total t b a ≤ total s b a
  total-NoMore s t true a m =
      let same = ap (λ l. count a (buffers_of l)) m.hands in let less = m.fewer a in omega arith
  total-NoMore s t false a m = let less = m.fewer a in omega arith

  Outcome-NoMore :
      (r : Request) (s : Service T) (p : Status × ℕ × Service T) → Outcome L r s p → NoMore L s p.2
  Outcome-NoMore r s p (submitted x) =
      same-NoMore L s p.2 (ap updates x.rest) (λ a. ap (λ u. held L u a) x.rest)
  Outcome-NoMore r s p refused = refl-NoMore L s
  Outcome-NoMore r s p (dropped x y) = same-NoMore L s _ refl (λ a. refl)

  set_state-NoMore : (s : Service T) (x : ServiceState) → NoMore L s (set_state s x)
  unfolding set_state
  set_state-NoMore s x = same-NoMore L s _ refl (λ a. refl)

  stats_clear-NoMore : (s : Service T) → NoMore L s (stats_clear s).1
  unfolding stats_clear
  stats_clear-NoMore s = refl-NoMore L s

  -- A move never adds to how often a buffer is held.
  Move-total : (s t : Service T) (b c : Bool) (a : ℕ) → Move s b t c → total t c a ≤ total s b a
  Move-total s t b c a (allocates p) = total-NoMore s t b a (on_recv_alloc_cb-NoMore L s p)
  Move-total s t b c a (receives p handle n buffer has_buf low e) =
      total-NoMore s t b a (on_recv_cb-NoMore L s p handle n buffer has_buf low e)
  Move-total s t b c a (receives_error p handle n has_buf) =
      total-NoMore s t b a (on_recv_cb_error-NoMore L s p handle n has_buf)
  Move-total s t b c a (closes p low) = total-NoMore s t b a (on_close_link_cb-NoMore L s p low)
  Move-total s t b c a (sent r status) = total-NoMore s t b a (on_send_cb-NoMore L s r status)
  Move-total s t b c a (accepts status) =
      total-NoMore s t b a (on_inbound_connection_cb-NoMore L s status)
  Move-total s t b c a (connects p status e) =
      total-NoMore s t b a (on_outbound_connection_cb-NoMore L s t p status e)
  Move-total s t b c a (commands fuel e) = total-NoMore s t b a (on_check_cb-NoMore L fuel s t e)
  Move-total s t b c a ticks = total-NoMore s t b a (on_timer_cb-NoMore L s)
  Move-total s t b c a (signals sigint signum) =
      total-NoMore s t b a (on_sigint_cb-NoMore L sigint s signum)
  Move-total s t b c a (walks h) = total-NoMore s t b a (on_walk_cb-NoMore L s h)
  Move-total s t b c a (submits r) =
      total-NoMore s t b a (Outcome-NoMore r s (call s r) (call-Outcome L r s).0)
  Move-total s t b c a acquires = let same = acquire-held L s a in omega arith
  Move-total s t b c a releases = let less = release-held L s a in omega arith
  Move-total s t b c a (stores x) = total-NoMore s t b a (set_state-NoMore s x)
  Move-total s t b c a (listens endpoint) =
      listen-either (λ u. total u b a ≤ total s b a) s endpoint (omega arith)
        (total-NoMore s _ b a (same-NoMore L s _ refl (λ a. refl)))
  Move-total s t b c a clears = total-NoMore s t b a (stats_clear-NoMore s)

  -- If no read buffer is in two places, none is after any number of moves, in whichever order,
  -- and whichever of the calls fail that they make of libuv and of the containers: each stays
  -- in one place at most, of the read pool, the links, the events that wait, and the events
  -- that the main thread has. The moves are the callbacks of the loop, the calls of the main
  -- thread between the set-up of the service and its clean-up, and the stores of the state; a
  -- callback counts as one move. In the middle of `on_recv_cb`, between the push of the event
  -- and the next store, a buffer is both the link's and the event's, so nothing is said of what
  -- is between the steps of a callback. It is assumed that libuv calls back for links of the
  -- array, that it brings data only to a link that has a buffer, that the main thread releases
  -- only what it has acquired, and that libuv does not report a connection that the service has
  -- started as failed, in which case the callback has no defined behaviour.
  pub Moves-IsSole : (s t : Service T) (b c : Bool) → IsSole s b → Moves s b t c → IsSole t c
  Moves-IsSole s t b c sole done = sole
  Moves-IsSole s u b d sole (then_move {t = t} {c = c} ms m) =
      let before = Moves-IsSole s t b c sole ms in
      λ a. (let less = Move-total t u c d a m in let x = before a in omega arith)
