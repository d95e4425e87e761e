-- ===== src/System/States/Cycling.antt =====
-- Every move takes every link along its life cycle.
use serverlynx.Prelude.{ℕ, ◌≡◌, Bool, Bool-cases, inl, inr, ap, arith, ◌==◌}
use mathlib.Core.Path.{subst}
use serverlynx.Tn.{Tn, IsTn}
use serverlynx.Link.{closing}
use serverlynx.Service.{Service}
use serverlynx.Service.Commands.Laws.{call, call-Outcome}
use serverlynx.Io.{link_at}
use serverlynx.Io.Closing.{on_close_link_cb}
use serverlynx.Io.Closing.Sound.{
  on_close_link_cb-link, on_timer_cb-links, on_sigint_cb-links, on_walk_cb-links,
}
use serverlynx.Io.Receiving.Sound.{on_recv_alloc_cb-KeepsState, on_recv_cb-KeepsState}
use serverlynx.Io.Sending.Untouched.{on_send_cb-links}
use serverlynx.Io.Sound.{IsSound}
use serverlynx.System.{
  Move, allocates, receives, receives_error, closes, sent, accepts, connects, commands, ticks,
  signals, walks, submits, acquires, releases, stores, listens, clears,
}
use serverlynx.System.Links.{
  Expected, Run, Run-IsSound, acquire-links, release-links, Outcome-links, set_state-links,
  listen-links, stats_clear-links,
}
use serverlynx.System.States.{
  Edge, stays, ends, Cycles, same-Cycles, KeepsState-Cycles, on_recv_cb_error-Cycles,
  on_inbound_connection_cb-Cycles, on_outbound_connection_cb-Cycles,
}
use serverlynx.System.States.Commands.{CmdEdge-Edge, on_check_cb-CmdCycles}

module _ {T : Tn} (L : IsTn T) where
  on_close_link_cb-Cycles :
      (s : Service T) (p : ℕ)
      → (link_at s p).state ≡ closing
      → Cycles L s.link_list (on_close_link_cb s p).link_list
  on_close_link_cb-Cycles s p e q =
      let t = on_close_link_cb s p in
      let (shut, away) = on_close_link_cb-link s p in
      elim (Bool-cases (p == q)) [
        | inl c ↦
            let same : p ≡ q = ground arith in
            subst (λ j. Edge (link_at s j).state (link_at t j).state) same (ends e shut)
        | inr c ↦ stays (ap (λ m. m.state) (away q (ground arith)))
      ]

  Move-Cycles :
      (s t : Service T) (b c : Bool) (m : Move s b t c)
      → Expected L s t b c m
      → IsSound L s.link_list
      → Cycles L s.link_list t.link_list
  Move-Cycles s t b c (allocates p) x i =
      KeepsState-Cycles L s t p (on_recv_alloc_cb-KeepsState s p)
  Move-Cycles s t b c (receives p handle n buffer has_buf low e) x i =
      KeepsState-Cycles L s t p (on_recv_cb-KeepsState s p handle n has_buf)
  Move-Cycles s t b c (receives_error p handle n has_buf) x i =
      on_recv_cb_error-Cycles L s p handle n has_buf x
  Move-Cycles s t b c (closes p low) x i = on_close_link_cb-Cycles s p x
  Move-Cycles s t b c (sent r status) x i =
      same-Cycles L s.link_list t.link_list (on_send_cb-links s r status)
  Move-Cycles s t b c (accepts status) x i = on_inbound_connection_cb-Cycles L s status i
  Move-Cycles s t b c (connects p status e) (lt, out, waits) i =
      on_outbound_connection_cb-Cycles L s t p status lt out waits i e
  Move-Cycles s t b c (commands fuel e) x i =
      λ q. CmdEdge-Edge L _ _ (on_check_cb-CmdCycles L fuel s t i e q)
  Move-Cycles s t b c ticks x i = same-Cycles L s.link_list t.link_list (on_timer_cb-links s)
  Move-Cycles s t b c (signals sigint signum) x i =
      same-Cycles L s.link_list t.link_list (on_sigint_cb-links sigint s signum)
  Move-Cycles s t b c (walks h) x i = same-Cycles L s.link_list t.link_list (on_walk_cb-links s h)
  Move-Cycles s t b c (submits r) x i =
      same-Cycles L s.link_list t.link_list (Outcome-links L r s (call s r) (call-Outcome L r s).0)
  Move-Cycles s t b c acquires x i = same-Cycles L s.link_list t.link_list (acquire-links s)
  Move-Cycles s t b c releases x i = same-Cycles L s.link_list t.link_list (release-links s)
  Move-Cycles s t b c (stores y) x i = same-Cycles L s.link_list t.link_list (set_state-links s y)
  Move-Cycles s t b c (listens endpoint) x i =
      same-Cycles L s.link_list t.link_list (listen-links s endpoint)
  Move-Cycles s t b c clears x i = same-Cycles L s.link_list t.link_list (stats_clear-links s)

  -- After any number of moves, the next one takes every link along its life cycle, or leaves
  -- its state as it is: only a link that is new or closed is taken for a connection, and is
  -- then new, open or closing; an open link can only start to close; a closing one can only be
  -- closed. The run starts with a sound list of links. The moves are the callbacks of the loop,
  -- the calls of the main thread between the set-up of the service and its clean-up, and the
  -- stores of the state; a callback counts as one move. It is assumed that libuv calls back for
  -- links of the array, brings data only to a link that has a buffer, and reports a read error
  -- only for a link that is open or closing, the end of a close only for a link that is
  -- closing, and a connection only for a link that is not free and waits for it; that the main
  -- thread releases only what it has acquired; and that libuv does not report a connection that
  -- the service has started as failed, in which case the callback has no defined behaviour.
  pub Run-Cycles :
      (s t u : Service T) (b c d : Bool)
      → IsSound L s.link_list
      → Run L s b t c
      → (m : Move t c u d) → Expected L t u c d m
      → Cycles L t.link_list u.link_list
  Run-Cycles s t u b c d i r m x = Move-Cycles t u c d m x (Run-IsSound L s t b c i r)
