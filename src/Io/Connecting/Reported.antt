-- ===== src/Io/Connecting/Reported.antt =====
-- A connection that is made, where every call succeeds.
use serverlynx.Prelude.{ℕ, pos, ◌≡◌, refl, ap, some, ptr}
use serverlynx.Tn.{Tn}
use serverlynx.Tn.Events.{Event, client_open}
use serverlynx.Link.{Link, opened}
use serverlynx.Service.{Service}
use serverlynx.Io.{Io, ◌>>=◌, guard_some, ok, link_at, set_link, guard_uv_value}
use serverlynx.Io.Succeeds.{guard_uv-ok, guard_uv_value-ok, guard_some-ok, ok->>=, attempt-ok}
use serverlynx.Io.Connecting.{
  edit_link, read_endpoints, pop_open, push_open, report_connected, finish_connect, connect_link,
  drop_link, on_outbound_connection_cb,
}

-- The event that reports a connection of the link `k`, in the structure of `y`.
abbrev pub open_event : Event → Link → Event
open_event y k = record y {
  type = client_open;
  client_id = k.id;
  host = k.endpoint_remote;
  cmd_id = k.cmd_open_id;
}

module _ {T : Tn} where
  -- The link `p` of `s` with the address `host`.
  abbrev pub with_host : Service T → ℕ → ℕ → Service T
  with_host s p host = set_link s p (record (link_at s p) { endpoint_remote = host })

  -- The peer's address is written first, and then the socket's own over it.
  read_endpoints-ok :
      (s : Service T) (p h peer remote sock local : ℕ) (d1 d2 : T.uv.World)
      → T.uv.getpeername s.world h ≡ (some peer, d1)
      → T.convert_from peer ≡ some remote
      → T.uv.getsockname d1 h ≡ (some sock, d2)
      → T.convert_from sock ≡ some local
      → read_endpoints p h s
        ≡ ok tt (record (with_host (with_host s p remote) p local) { world = d2 })
  unfolding read_endpoints
  read_endpoints-ok s p h peer remote sock local d1 d2 peered far socked near =
      let s1 : Service T = record s { world = d1 } in
      let write : ℕ → Io T (Unit {0}) = λ b. edit_link p (λ l. record l { endpoint_remote = b }) in
      let convert : ℕ → Io T (Unit {0}) = λ a. guard_some (T.convert_from a) >>= write in
      let half : Io T (Unit {0}) = guard_uv_value (λ w. T.uv.getsockname w h) >>= convert in
      let t1 = with_host s1 p remote in
      let t2 : Service T = record t1 { world = d2 } in
      ok->>= (guard_uv_value (λ w. T.uv.getpeername w h)) _ s s1 peer _
        (guard_uv_value-ok (λ w. T.uv.getpeername w h) s peer d1 peered)
        (ok->>= (guard_some (T.convert_from peer)) _ s1 s1 remote _
          (guard_some-ok (T.convert_from peer) s1 remote far)
          (ok->>= (edit_link p (λ l. record l { endpoint_remote = remote })) (λ _. half) s1 t1 tt _
            refl
            (ok->>= (guard_uv_value (λ w. T.uv.getsockname w h)) convert t1 t2 sock _
              (guard_uv_value-ok (λ w. T.uv.getsockname w h) t1 sock d2 socked)
              (ok->>= (guard_some (T.convert_from sock)) write t2 t2 local _
                (guard_some-ok (T.convert_from sock) t2 local near) refl))))

  pop_open-ok :
      (s : Service T) (y : Event) (events : T.events.Carrier)
      → T.events.free_pop s.events client_open ≡ some (y, events)
      → pop_open s ≡ ok y (record s { events = events })
  unfolding pop_open
  pop_open-ok s y events e = rw (e, pop_open) refl

  push_open-ok :
      (s : Service T) (y : Event) (events : T.events.Carrier)
      → T.events.ready_push s.events y ≡ some events
      → push_open y s ≡ ok tt (record s { events = events })
  unfolding push_open
  push_open-ok s y events e = rw (e, push_open) refl

  -- The service once the connection of the link `p` is reported and the link is open.
  abbrev pub connected_on : Service T → ℕ → T.events.Carrier → T.uv.World → Service T
  connected_on s p queued w = record (set_link s p (record (link_at s p) { state = opened })) {
    events = queued;
    world = w;
  }

  report_connected-ok :
      (s t : Service T) (p h : ℕ) (y : Event) (events queued : T.events.Carrier)
      → read_endpoints p h s ≡ ok tt t
      → T.events.free_pop t.events client_open ≡ some (y, events)
      → T.events.ready_push events (open_event y (link_at t p)) ≡ some queued
      → report_connected h p s ≡ ok tt (record t { events = queued })
  unfolding report_connected
  report_connected-ok s t p h y events queued read popped pushed =
      let t1 : Service T = record t { events = events } in
      ok->>= (read_endpoints p h) _ s t tt _ (unfold read_endpoints in read) (
        ok->>= pop_open _ t t1 y _ (unfold pop_open in pop_open-ok t y events popped) (
          ok->>= (λ u. ok (link_at u p) u) (λ k. push_open (open_event y k)) t1 t1 (link_at t p) _
            refl (unfold push_open in push_open-ok t1 (open_event y (link_at t p)) queued pushed)))

  finish_connect-ok :
      (s : Service T) (p h : ℕ) (w : T.uv.World)
      → T.uv.read_start s.world h ≡ (pos 0, w)
      → finish_connect h p s
        ≡ ok tt (record (set_link s p (record (link_at s p) { state = opened })) { world = w })
  unfolding finish_connect
  finish_connect-ok s p h w e =
      guard_uv-ok (λ x. T.uv.read_start x h)
        (set_link s p (record (link_at s p) { state = opened })) w e

  -- The connection callback where every call succeeds.
  pub on_outbound_connection_cb-connected_on :
      (s : Service T) (p h n peer remote sock local : ℕ) (y : Event)
      (events queued : T.events.Carrier) (d1 d2 d3 : T.uv.World)
      → (link_at s p).priv ≡ some h
      → T.uv.getpeername s.world h ≡ (some peer, d1)
      → T.convert_from peer ≡ some remote
      → T.uv.getsockname d1 h ≡ (some sock, d2)
      → T.convert_from sock ≡ some local
      → let t = with_host (with_host s p remote) p local in
        T.events.free_pop s.events client_open ≡ some (y, events)
        → T.events.ready_push events (open_event y (link_at t p)) ≡ some queued
        → T.uv.read_start d2 h ≡ (pos 0, d3)
        → on_outbound_connection_cb s p (pos n) ≡ some (connected_on t p queued d3)
  unfolding on_outbound_connection_cb connect_link
  on_outbound_connection_cb-connected_on s p h n peer remote sock local y events queued d1 d2 d3
        handle peered far socked near popped pushed started =
      let t : Service T = record (with_host (with_host s p remote) p local) { world = d2 } in
      let u : Service T = record t { events = queued } in
      let read = read_endpoints-ok s p h peer remote sock local d1 d2 peered far socked near in
      let reported = report_connected-ok s t p h y events queued read popped pushed in
      rw (ap ptr handle) (
        ap some (
          attempt-ok (connect_link h p) (drop_link p h) (λ _ v. v) s _ _ tt
            (ok->>= (report_connected h p) _ s u tt _ reported
              (unfold finish_connect in finish_connect-ok u p h d3 started))
            refl))
