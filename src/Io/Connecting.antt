-- ===== src/Io/Connecting.antt =====
-- `on_inbound_connection_cb`, `on_outbound_connection_cb` and `handle_cmd_open` of
-- svlynx/service_internal.c. `convert_from` is `tn_endpoint_convert_from`.
pub mod Taken
pub mod Frame
pub mod Made
pub mod Reported
pub mod Laws
pub mod Holders
pub mod Blind
pub mod Restored
pub mod Opens
pub mod Starting
pub mod Untouched
pub mod Connected
use serverlynx.Prelude.{
  ptr, ℕ, ℤ, pos, negsuc, Bool, true, false, Option, none, some, if◌then◌else◌,
}
use serverlynx.Tn.{Tn}
use serverlynx.Tn.Cmds.{Cmd}
use serverlynx.Tn.Events.{Event, client_open}
use serverlynx.Tn.Uv.{close_handle_cb, close_link_cb}
use serverlynx.Link.{Link, LinkState, ReadState}
use serverlynx.Link.List.{open_link, close_link}
use serverlynx.Service.{Service}
use serverlynx.Io.{
  is_zero, Ran, Io, ok, jump, ◌>>=◌, ◌>>◌, pure, modify, guard_uv, guard_uv_value, guard_some,
  attempt, kept, link_at, set_link, uv_close,
}

abbrev pub accepted_link : ℕ → Link → Link
accepted_link h l = record l {
  priv = some h;
  service = true;
  read_state = ReadState.read_header;
  state = LinkState.opened;
  error_code = pos 0;
  read_buffer = none;
  last_msg_id = 0;
}

abbrev pub connecting_link : ℕ → ℕ → Link → Link
connecting_link h id l = record l {
  priv = some h;
  service = true;
  read_state = ReadState.read_header;
  state = LinkState.new;
  error_code = pos 0;
  read_buffer = none;
  cmd_open_id = id;
}

module _ {T : Tn} where
  abbrev pub edit_link : ℕ → (Link → Link) → Io T (Unit {0})
  edit_link p f = modify λ s. set_link s p (f (link_at s p))

  -- `svl_link_list_open`.
  pub take_link : Io T ℕ
  take_link s = elim (open_link T.list T.cmd_invalid s.link_list) [
    | none ↦ jump s
    | some (p, l) ↦ ok p (record s { link_list = l })
  ]

  -- The peer's address, and then the socket's own over it.
  pub read_endpoints : ℕ → ℕ → Io T (Unit {0})
  read_endpoints p h = do
    peer ← guard_uv_value (λ w. T.uv.getpeername w h)
    remote ← guard_some (T.convert_from peer)
    edit_link p λ l. record l { endpoint_remote = remote }
    sock ← guard_uv_value (λ w. T.uv.getsockname w h)
    local ← guard_some (T.convert_from sock)
    edit_link p λ l. record l { endpoint_remote = local }

  pub pop_open : Io T Event
  pop_open s = elim (T.events.free_pop s.events client_open) [
    | none ↦ jump s
    | some (x, events) ↦ ok x (record s { events = events })
  ]

  pub push_open : Event → Io T (Unit {0})
  push_open x s = elim (T.events.ready_push s.events x) [
    | none ↦ jump s
    | some events ↦ ok tt (record s { events = events })
  ]

  -- `cleanup` for a link that has its handle.
  pub drop_link : ℕ → ℕ → Service T → Service T
  drop_link p h s =
      uv_close (set_link s p (record (link_at s p) { state = LinkState.closing })) h close_link_cb

  -- From the addresses on. The event keeps the command id that it came with.
  report_accepted : ℕ → ℕ → Io T (Unit {0})
  unfolding read_endpoints pop_open push_open
  report_accepted h p = do
    read_endpoints p h
    x ← pop_open
    l ← λ s. ok (link_at s p) s
    push_open (record x { type = client_open; client_id = l.id; host = l.endpoint_remote })
    guard_uv (λ w. T.uv.read_start w h)

  accept_link : ℕ → ℕ → Io T (Unit {0})
  unfolding report_accepted
  accept_link h p = do edit_link p (accepted_link h); report_accepted h p

  accept_handle : ℕ → Io T ℕ
  unfolding take_link
  accept_handle h = do guard_uv (λ w. T.uv.accept w h); take_link

  -- With a link, with an initialised handle, and with the memory of a handle.
  accept_on_link : ℕ → ℕ → Service T → Service T
  unfolding accept_link drop_link
  accept_on_link h p = attempt (accept_link h p) (drop_link p h) (λ _ t. t)

  accept_on_handle : ℕ → Service T → Service T
  unfolding accept_handle accept_on_link
  accept_on_handle h =
      attempt (accept_handle h) (λ t. uv_close t h close_handle_cb) (accept_on_link h)

  accept_on_memory : ℕ → Service T → Service T
  unfolding accept_on_handle
  accept_on_memory h =
      attempt (guard_uv (λ w. T.uv.tcp_init w h)) (λ t. t) (λ _. accept_on_handle h)

  unfoldable pub on_inbound_connection_cb : Service T → ℤ → Service T
  unfolding accept_on_memory
  on_inbound_connection_cb s (negsuc n) = s
  on_inbound_connection_cb s (pos n) =
      attempt (guard_uv_value T.uv.acquire) (λ t. t) accept_on_memory s

  -- From the addresses up to the event.
  report_connected : ℕ → ℕ → Io T (Unit {0})
  unfolding read_endpoints pop_open push_open
  report_connected h p = do
    read_endpoints p h
    x ← pop_open
    l ← λ s. ok (link_at s p) s
    push_open (record x {
      type = client_open;
      client_id = l.id;
      host = l.endpoint_remote;
      cmd_id = l.cmd_open_id;
    })

  finish_connect : ℕ → ℕ → Io T (Unit {0})
  finish_connect h p = do
    edit_link p λ l. record l { state = LinkState.opened }
    guard_uv (λ w. T.uv.read_start w h)

  -- From the test of the status on, for the link `p` and its handle.
  connect_link : ℕ → ℕ → Io T (Unit {0})
  unfolding report_connected finish_connect
  connect_link h p = do report_connected h p; finish_connect h p

  -- `none` where the status is an error: `cleanup` then reads `link` and `client_handle` before
  -- anything is stored in them, and what happens is undefined.
  unfoldable pub on_outbound_connection_cb : Service T → ℕ → ℤ → Option (Service T)
  unfolding connect_link drop_link
  on_outbound_connection_cb s p (negsuc n) = none
  on_outbound_connection_cb s p (pos n) =
      let h = ptr (link_at s p).priv in
      some (attempt (connect_link h p) (drop_link p h) (λ _ t. t) s)

  -- Up to the new link.
  pub open_handle : ℕ → Io T ℕ
  unfolding take_link
  open_handle h = do
    guard_uv (λ w. T.uv.tcp_init w h)
    connect_req ← guard_uv_value T.uv.acquire
    take_link

  start_connect : Cmd → ℕ → ℕ → Io T (Unit {0})
  start_connect cmd h p = do
    edit_link p (connecting_link h cmd.id)
    guard_uv (λ w. T.uv.connect w h cmd.endpoint)

  -- `cleanup` for a link that goes back to the free list at once.
  pub return_link : ℕ → Service T → Service T
  return_link p s = record s { link_list = kept (close_link T.list s.link_list p) s.link_list }

  open_on_link : Cmd → ℕ → ℕ → Service T → Service T
  unfolding start_connect return_link
  open_on_link cmd h p =
      attempt (start_connect cmd h p) (λ t. uv_close (return_link p t) h close_handle_cb) (λ _ t. t)

  open_on_memory : Cmd → ℕ → Service T → Service T
  unfolding open_handle open_on_link
  open_on_memory cmd h =
      attempt (open_handle h) (λ t. uv_close t h close_handle_cb) (open_on_link cmd h)

  unfoldable pub handle_cmd_open : Service T → Cmd → Service T
  unfolding open_on_memory
  handle_cmd_open s cmd = attempt (guard_uv_value T.uv.acquire) (λ t. t) (open_on_memory cmd) s
