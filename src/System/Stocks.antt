-- ===== src/System/Stocks.antt =====
-- The commands and the events, over all the moves of both threads.
use serverlynx.Prelude.{
  ℕ, ◌+◌, ◌≤◌, ◌≡◌, refl, ap, ◌∙◌, Bool, true, false, List, [], ◌∷◌, count, count-append, Status,
  Option-cases, inl, inr, arith,
}
use serverlynx.Tn.{Tn, IsTn}
use serverlynx.Tn.Events.{Event, EventType, client_read, client_open, client_close, other}
use serverlynx.Service.Lifecycle.{set_state}
use serverlynx.Service.Lifecycle.Laws.{listen-either}
use serverlynx.Service.Stats.{stats_clear}
use serverlynx.Service.{Service, ServiceState}
use serverlynx.Service.Commands.Laws.{
  Request, Outcome, submitted, refused, dropped, call, call-Outcome,
}
use serverlynx.Service.Updates.{
  acquire, release, release_all, release_one, return_buffer, free_event,
}
use serverlynx.Service.Updates.Laws.{updates, take-length}
use serverlynx.Io.Closing.Stocks.{
  on_close_link_cb-NoneNew, on_timer_cb-NoneNew, on_sigint_cb-NoneNew, on_walk_cb-NoneNew,
}
use serverlynx.Io.Commands.Laws.{held, ids}
use serverlynx.Io.Commands.Stocks.{on_send_cb-NoneNew, on_check_cb-NoneNew}
use serverlynx.Io.Connecting.Frame.Callbacks.{
  on_inbound_connection_cb-frame, on_outbound_connection_cb-frame,
}
use serverlynx.Io.Receiving.Stocks.{on_recv_alloc_cb-NoneNew, on_recv_cb-NoneNew}
use serverlynx.Io.Stocks.{
  addresses, addresses-append, listed, NoneNew, refl-NoneNew, same-NoneNew, NoneNew-IsFrame,
}
use serverlynx.System.{
  Move, allocates, receives, receives_error, closes, sent, accepts, connects, commands, ticks,
  signals, walks, submits, acquires, releases, stores, listens, clears, Moves, done, then_move,
}
use serverlynx.System.Buffers.{in_hands}
use serverlynx.System.Requests.{Submitted-held}

module _ {T : Tn} (L : IsTn T) where
  return_buffer-lists :
      (k : EventType) (b : ℕ) (s : Service T)
      → ((return_buffer k b s).events ≡ s.events) × ((return_buffer k b s).cmds ≡ s.cmds)
  unfolding return_buffer
  return_buffer-lists client_read b s = elim (Option-cases (T.pool.push s.pool_read b)) [
    | inl e ↦ rw (e, return_buffer) (refl, refl)
    | inr (pool, e) ↦ rw (e, return_buffer) (refl, refl)
  ]
  return_buffer-lists client_open b s = (refl, refl)
  return_buffer-lists client_close b s = (refl, refl)
  return_buffer-lists other b s = (refl, refl)

  free_event-lists :
      (x : Event) (s t : Service T) (a : ℕ)
      → t.events ≡ s.events
      → t.cmds ≡ s.cmds
      → (listed L (free_event x t) a ≤ count a (x.address ∷ []) + listed L s a)
        × (held L a (free_event x t) ≡ held L a s)
  unfolding free_event
  free_event-lists x s t a same same_cmds =
      let old = ap (λ v. count a (L.events.free v) + count a (addresses (L.events.ready v))) same in
      let cmds = ap (λ v. count a (ids (L.cmds.ready v)) + count a (L.cmds.free v)) same_cmds in
      elim (Option-cases (T.events.free_push t.events x)) [
        | inl e ↦ rw (e, free_event) (omega arith, cmds)
        | inr (c, e) ↦
            let (ready, free) = L.events.free_push_lem t.events c x e in
            let f = free a in
            let r = ap (λ l. count a (addresses l)) ready in rw (e, free_event) (omega arith, cmds)
      ]

  release_all-lists :
      (xs : List Event) (s : Service T) (a : ℕ)
      → (listed L (release_all xs s) a ≤ count a (addresses xs) + listed L s a)
        × (held L a (release_all xs s) ≡ held L a s)
  unfolding release_all release_one
  release_all-lists [] s a = (omega arith, refl)
  release_all-lists (x ∷ xs) s a =
      let t = return_buffer x.type x.priv s in
      let (events, cmds) = return_buffer-lists x.type x.priv s in
      let (one, same) = free_event-lists x s t a events cmds in
      let (rest, later) = release_all-lists xs (free_event x t) a in
      let both = count-append a (x.address ∷ []) (addresses xs) in (omega arith, later ∙ same)

  -- How often an event is free, ready, or in the hands of the main thread.
  abbrev pub placed : Service T → Bool → ℕ → ℕ
  placed s b a = listed L s a + count a (addresses (in_hands L b s))

  release-placed :
      (s : Service T) (a : ℕ)
      → (placed (release s).1 false a ≤ placed s true a) × (held L a (release s).1 ≡ held L a s)
  unfolding release
  release-placed s a = let (less, same) = release_all-lists (updates s) s a in (omega arith, same)

  acquire-placed :
      (s : Service T) (b : Bool) (a : ℕ)
      → (placed (acquire s).2 true a ≤ placed s b a) × (held L a (acquire s).2 ≡ held L a s)
  unfolding acquire
  acquire-placed s b a = elim (Option-cases (T.events.ready_pop_all s.events s.buffer_count)) [
    | inl e ↦ rw (e, acquire) (omega arith, refl)
    | inr ((xs, events), e) ↦
        let (ready, free, _) = L.events.ready_pop_all_lem s.events events s.buffer_count xs e in
        let split : count a (addresses (L.events.ready s.events))
            ≡ count a (addresses xs) + count a (addresses (L.events.ready events)) =
          ap (λ l. count a (addresses l)) ready
          ∙ ap (count a) (addresses-append xs (L.events.ready events))
          ∙ count-append a (addresses xs) (addresses (L.events.ready events)) in
        let f = ap (count a) free in rw (e, acquire) (rw (take-length xs) (omega arith), refl)
  ]

  Outcome-NoneNew :
      (r : Request) (s : Service T) (p : Status × ℕ × Service T) → Outcome L r s p → NoneNew L s p.2
  Outcome-NoneNew r s p (submitted {id} {s'} x) = record {
    hands = ap updates x.rest;
    events = λ a. (let e = ap (λ u. listed L u a) x.rest in omega arith);
    cmds = λ a. (let h = Submitted-held L r s s' id a x in omega arith);
  }
  Outcome-NoneNew r s p refused = refl-NoneNew L s
  Outcome-NoneNew r s p (dropped {id} {cmds} ready free) = record {
    hands = refl;
    events = λ a. omega arith;
    cmds = λ a. (let f = free a in let r = ap (λ l. count a (ids l)) ready in omega arith);
  }

  set_state-NoneNew : (s : Service T) (x : ServiceState) → NoneNew L s (set_state s x)
  unfolding set_state
  set_state-NoneNew s x = same-NoneNew L s _ refl refl refl

  stats_clear-NoneNew : (s : Service T) → NoneNew L s (stats_clear s).1
  unfolding stats_clear
  stats_clear-NoneNew s = refl-NoneNew L s

  -- No event is in two places or in one place twice, and no command is in the lists twice.
  abbrev pub IsOnce : Service T → Bool → Type 0
  IsOnce s b = (a : ℕ) → (placed s b a ≤ 1) × (held L a s ≤ 1)

  NoneNew-IsOnce : (s t : Service T) (b : Bool) → NoneNew L s t → IsOnce s b → IsOnce t b
  NoneNew-IsOnce s t true m once a =
      let e = m.events a in
      let c = m.cmds a in
      let h = ap (λ l. count a (addresses l)) m.hands in
      let (x, y) = once a in (omega arith, omega arith)
  NoneNew-IsOnce s t false m once a =
      let e = m.events a in let c = m.cmds a in let (x, y) = once a in (omega arith, omega arith)

  Move-IsOnce : (s t : Service T) (b c : Bool) → Move s b t c → IsOnce s b → IsOnce t c
  Move-IsOnce s t b c (allocates p) = NoneNew-IsOnce s t b (on_recv_alloc_cb-NoneNew L s p)
  Move-IsOnce s t b c (receives p handle n buffer has_buf low e) =
      NoneNew-IsOnce s t b (on_recv_cb-NoneNew L s p handle _ has_buf)
  Move-IsOnce s t b c (receives_error p handle n has_buf) =
      NoneNew-IsOnce s t b (on_recv_cb-NoneNew L s p handle _ has_buf)
  Move-IsOnce s t b c (closes p low) = NoneNew-IsOnce s t b (on_close_link_cb-NoneNew L s p)
  Move-IsOnce s t b c (sent r status) = NoneNew-IsOnce s t b (on_send_cb-NoneNew L s r status)
  Move-IsOnce s t b c (accepts status) =
      NoneNew-IsOnce s t b
        (on_inbound_connection_cb-frame (NoneNew-IsFrame L s) s status (refl-NoneNew L s))
  Move-IsOnce s t b c (connects p status e) =
      NoneNew-IsOnce s t b
        (on_outbound_connection_cb-frame (NoneNew-IsFrame L s) s t p status (refl-NoneNew L s) e)
  Move-IsOnce s t b c (commands fuel e) = NoneNew-IsOnce s t b (on_check_cb-NoneNew L fuel s t e)
  Move-IsOnce s t b c ticks = NoneNew-IsOnce s t b (on_timer_cb-NoneNew L s)
  Move-IsOnce s t b c (signals sigint signum) =
      NoneNew-IsOnce s t b (on_sigint_cb-NoneNew L sigint s signum)
  Move-IsOnce s t b c (walks h) = NoneNew-IsOnce s t b (on_walk_cb-NoneNew L s h)
  Move-IsOnce s t b c (submits r) =
      NoneNew-IsOnce s t b (Outcome-NoneNew r s (call s r) (call-Outcome L r s).0)
  Move-IsOnce s t b c acquires = λ once a.
      (let (less, same) = acquire-placed s b a in let (x, y) = once a in (omega arith, omega arith))
  Move-IsOnce s t b c releases = λ once a.
      (let (less, same) = release-placed s a in let (x, y) = once a in (omega arith, omega arith))
  Move-IsOnce s t b c (stores x) = NoneNew-IsOnce s t b (set_state-NoneNew s x)
  Move-IsOnce s t b c (listens endpoint) = λ once.
      listen-either (λ u. IsOnce u b) s endpoint once
        (NoneNew-IsOnce s _ b (same-NoneNew L s _ refl refl refl) once)
  Move-IsOnce s t b c clears = NoneNew-IsOnce s t b (stats_clear-NoneNew s)

  -- If no command is in the two lists of commands twice, and no event is in two of the places
  -- where events are, or in one of them twice, then it is so after any number of moves, in
  -- whichever order, and whichever of the calls fail that they make of libuv and of the
  -- containers. An event's places are the free events, the queue of the ready ones, and the
  -- hands of the main thread. The moves are the callbacks of the loop, the calls of the main
  -- thread between the set-up of the service and its clean-up, and the stores of the state; a
  -- callback counts as one move. It is assumed that libuv calls back for links of the array,
  -- that it brings data only to a link that has a buffer, that the main thread releases only
  -- what it has acquired, and that libuv does not report a connection that the service has
  -- started as failed, in which case the callback has no defined behaviour.
  pub Moves-IsOnce : (s t : Service T) (b c : Bool) → IsOnce s b → Moves s b t c → IsOnce t c
  Moves-IsOnce s t b c once done = once
  Moves-IsOnce s u b d once (then_move {t = t} {c = c} ms m) =
      Move-IsOnce t u c d m (Moves-IsOnce s t b c once ms)
