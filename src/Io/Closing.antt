-- ===== src/Io/Closing.antt =====
-- `on_close_link_cb`, `safe_close_uv_handle`, `on_timer_cb`, `on_sigint_cb` and `on_walk_cb` of
-- svlynx/service_internal.c. A release of a handle's memory has no counterpart in the model, so
-- `on_close_handle_cb`, which is only that, has none either.
pub mod Laws
pub mod Holders
pub mod Sound
pub mod Stocks
pub mod Stopping
use serverlynx.Prelude.{
  ℕ, pos, Bool, true, false, not, ◌&&◌, Option, none, some, Status, ◌==◌, if◌then◌else◌,
}
use serverlynx.Tn.{Tn}
use serverlynx.Tn.Events.{Event, client_close}
use serverlynx.Tn.Uv.{CloseCb, no_cb}
use serverlynx.Link.{LinkState}
use serverlynx.Link.List.{close_link}
use serverlynx.Service.{Service}
use serverlynx.Service.Commands.{is_started}
use serverlynx.Service.Lifecycle.{stop_signal}
use serverlynx.Io.{kept, link_at, set_link, uv_close}

module _ {T : Tn} where
  -- `if (link->read_buffer) { ... }`.
  give_buffer : Option ℕ → Service T → ℕ → Service T
  give_buffer none s p = s
  give_buffer (some b) s p =
      set_link (record s { pool_read = kept (T.pool.push s.pool_read b) s.pool_read }) p
        (record (link_at s p) { read_buffer = none })

  push_close : Event → Service T → Service T
  push_close x s = record s { events = kept (T.events.ready_push s.events x) s.events }

  free_link : Service T → ℕ → Service T
  free_link s p = record s { link_list = kept (close_link T.list s.link_list p) s.link_list }

  -- With no free event it jumps over the release of the link as well.
  report_close : Service T → ℕ → Service T
  unfolding push_close free_link
  report_close s p = elim (T.events.free_pop s.events client_close) [
    | none ↦ s
    | some (x, events) ↦
        free_link
          (push_close
            (record x {
              client_id = (link_at s p).id;
              error_code = pos 0;
              cmd_id = (link_at s p).cmd_close_id;
            })
            (record s { events = events }))
          p
  ]

  unfoldable pub on_close_link_cb : Service T → ℕ → Service T
  unfolding give_buffer report_close
  on_close_link_cb s p =
      let l = link_at s p in
      let t = set_link s p (record l { state = LinkState.closed }) in
      report_close (give_buffer l.read_buffer t p) p

  unfoldable pub safe_close : Option ℕ → Service T → Service T
  safe_close none s = s
  safe_close (some h) s = if T.uv.is_closing s.world h then s else uv_close s h no_cb

  unfoldable pub on_timer_cb : Service T → Service T
  unfolding safe_close
  on_timer_cb s =
      if is_started s.state
      then s
      else safe_close s.uv_signal (
          safe_close s.uv_check
            (safe_close s.uv_prep (safe_close s.uv_accept_timer (safe_close s.tcp_handle s))))

  -- `sigint` is the number of the signal SIGINT.
  unfoldable pub on_sigint_cb : ℕ → Service T → ℕ → Service T
  unfolding stop_signal
  on_sigint_cb sigint s signum = if signum == sigint then (stop_signal s).1 else s

  -- For each handle that is left when the loop does not close.
  unfoldable pub on_walk_cb : Service T → ℕ → Service T
  unfolding safe_close
  on_walk_cb s h = safe_close (some h) s
