-- ===== src/System/Meanwhile.antt =====
-- What the two threads do while a link closes.
use serverlynx.Prelude.{ℕ, ◌≢◌, Bool, inl, inr}
use serverlynx.Tn.{Tn, IsTn}
use serverlynx.Service.{Service}
use serverlynx.Service.Commands.Laws.{call, call-Outcome}
use serverlynx.Io.Closing.Sound.{
  on_close_link_cb-link, on_timer_cb-links, on_sigint_cb-links, on_walk_cb-links,
}
use serverlynx.Io.Receiving.Sound.{
  on_recv_alloc_cb-KeepsState, on_recv_cb-KeepsState, on_recv_cb_error-Written,
}
use serverlynx.Io.Sending.Untouched.{on_send_cb-links}
use serverlynx.Io.Sound.{IsSound}
use serverlynx.System.{
  Move, allocates, receives, receives_error, closes, sent, accepts, connects, commands, ticks,
  signals, walks, submits, acquires, releases, stores, listens, clears,
}
use serverlynx.System.Links.{
  Expected, Run, Run-IsSound, acquire-links, release-links, Outcome-links, set_state-links,
  listen-links, stats_clear-links,
}
use serverlynx.System.Standing.{
  Stands, same-Stands, same_link, Written-Stands, KeepsState-Stands,
  on_inbound_connection_cb-Stands, on_outbound_connection_cb-Stands, on_check_cb-Stands,
}

-- The move is not the end of the close of the link `p`.
abbrev pub IsOther : {T : Tn} (p : ℕ) (s t : Service T) (b c : Bool) → Move s b t c → Type 0
IsOther p s t b c (closes q low) = q ≢ p
IsOther p s t b c _ = Unit

module _ {T : Tn} (L : IsTn T) (p : ℕ) where
  -- Any number of moves, with callbacks as expected, before the close of `p` has ended.
  pub data Meanwhile : Service T → Bool → Service T → Bool → Type 0 where
    done : {s : Service T} {b : Bool} → Meanwhile s b s b
    then_move :
        {s t u : Service T} {b c d : Bool}
        → Meanwhile s b t c
        → (m : Move t c u d) → Expected L t u c d m
        → IsOther p t u c d m
        → Meanwhile s b u d

  Meanwhile-Run : (s t : Service T) (b c : Bool) → Meanwhile s b t c → Run L s b t c
  Meanwhile-Run s t b c done = Run.done
  Meanwhile-Run s u b d (then_move {t = t} {c = c} r m x o) =
      Run.then_move (Meanwhile-Run s t b c r) m x

  pub Meanwhile-IsSound :
      (s t : Service T) (b c : Bool)
      → IsSound L s.link_list
      → Meanwhile s b t c
      → IsSound L t.link_list
  Meanwhile-IsSound s t b c i r = Run-IsSound L s t b c i (Meanwhile-Run s t b c r)

  Move-Stands :
      (id : ℕ) (s t : Service T) (b c : Bool) (m : Move s b t c)
      → Expected L s t b c m
      → IsOther p s t b c m
      → IsSound L s.link_list
      → Stands L p id s.link_list
      → Stands L p id t.link_list
  Move-Stands id s t b c (allocates q) x o i h =
      KeepsState-Stands L p id s t q (on_recv_alloc_cb-KeepsState s q) h
  Move-Stands id s t b c (receives q handle n buffer has_buf low e) x o i h =
      KeepsState-Stands L p id s t q (on_recv_cb-KeepsState s q handle n has_buf) h
  Move-Stands id s t b c (receives_error q handle n has_buf) x o i h =
      elim (on_recv_cb_error-Written s q handle n has_buf) [
        | inl k ↦ KeepsState-Stands L p id s t q k h
        | inr w ↦ Written-Stands L p id s t q _ w (λ k same e. e) h
      ]
  Move-Stands id s t b c (closes q low) x o i h =
      same_link L p id s.link_list t.link_list ((on_close_link_cb-link s q).1 p o) h
  Move-Stands id s t b c (sent r status) x o i h =
      same-Stands L p id s.link_list t.link_list (on_send_cb-links s r status) h
  Move-Stands id s t b c (accepts status) x o i h =
      on_inbound_connection_cb-Stands L p id s status i h
  Move-Stands id s t b c (connects q status e) (lt, out, waits) o i h =
      on_outbound_connection_cb-Stands L p id s t q status lt out waits i e h
  Move-Stands id s t b c (commands fuel e) x o i h = on_check_cb-Stands L p id fuel s t i e h
  Move-Stands id s t b c ticks x o i h =
      same-Stands L p id s.link_list t.link_list (on_timer_cb-links s) h
  Move-Stands id s t b c (signals sigint signum) x o i h =
      same-Stands L p id s.link_list t.link_list (on_sigint_cb-links sigint s signum) h
  Move-Stands id s t b c (walks k) x o i h =
      same-Stands L p id s.link_list t.link_list (on_walk_cb-links s k) h
  Move-Stands id s t b c (submits r) x o i h =
      same-Stands L p id s.link_list t.link_list
        (Outcome-links L r s (call s r) (call-Outcome L r s).0) h
  Move-Stands id s t b c acquires x o i h =
      same-Stands L p id s.link_list t.link_list (acquire-links s) h
  Move-Stands id s t b c releases x o i h =
      same-Stands L p id s.link_list t.link_list (release-links s) h
  Move-Stands id s t b c (stores y) x o i h =
      same-Stands L p id s.link_list t.link_list (set_state-links s y) h
  Move-Stands id s t b c (listens endpoint) x o i h =
      same-Stands L p id s.link_list t.link_list (listen-links s endpoint) h
  Move-Stands id s t b c clears x o i h =
      same-Stands L p id s.link_list t.link_list (stats_clear-links s) h

  -- Until its close has ended, a link that closes stays as it is.
  pub Meanwhile-Stands :
      (id : ℕ) (s t : Service T) (b c : Bool)
      → IsSound L s.link_list
      → Stands L p id s.link_list
      → Meanwhile s b t c
      → Stands L p id t.link_list
  Meanwhile-Stands id s t b c i h done = h
  Meanwhile-Stands id s u b d i h (then_move {t = t} {c = c} r m x o) =
      Move-Stands id t u c d m x o (Meanwhile-IsSound s t b c i r)
        (Meanwhile-Stands id s t b c i h r)
