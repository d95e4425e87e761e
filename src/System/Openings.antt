-- ===== src/System/Openings.antt =====
-- A connection that the main thread opens, from the call to the event.
use serverlynx.Prelude.{
  ℕ, pos, suc, ◌<◌, ◌≤◌, ◌≡◌, ◌≢◌, ap, ◌∙◌, some, none, [], ◌∷◌, ◌++◌, count, length, success,
  arith,
}
use serverlynx.Tn.{Tn, IsTn}
use serverlynx.Tn.Cmds.{Cmd, CmdType}
use serverlynx.Tn.Events.{Event, client_open}
use serverlynx.Link.{Link, LinkState, opened}
use serverlynx.Link.List.{LinkList, open_link}
use serverlynx.Link.List.Opening.{open-Opened}
use serverlynx.Service.{Service}
use serverlynx.Service.Commands.Laws.{opens, call}
use serverlynx.Io.{link_at}
use serverlynx.Io.Links.{link_at-set_link, free_of, LinksFine}
use serverlynx.Io.Connecting.{connecting_link, on_outbound_connection_cb, handle_cmd_open}
use serverlynx.Io.Connecting.Made.{waiting_on, handle_cmd_open-waiting_on}
use serverlynx.Io.Connecting.Reported.{
  open_event, with_host, connected_on, on_outbound_connection_cb-connected_on,
}
use serverlynx.Io.Commands.{dispatch, on_check_cb}
use serverlynx.Io.Commands.Laws.{held}
use serverlynx.Io.Commands.Order.{execute}
use serverlynx.System.Requests.{on_check_cb-call}

module _ {T : Tn} where
  open-waiting_on :
      (s : Service T) (cmd : Cmd) (endpoint id p h req : ℕ) (l : LinkList T.list)
      (w1 w2 w3 w4 : T.uv.World)
      → cmd.type ≡ CmdType.client_open
      → cmd.endpoint ≡ endpoint
      → cmd.id ≡ id
      → T.uv.acquire s.world ≡ (some h, w1)
      → T.uv.tcp_init w1 h ≡ (pos 0, w2)
      → T.uv.acquire w2 ≡ (some req, w3)
      → open_link T.list T.cmd_invalid s.link_list ≡ some (p, l)
      → T.uv.connect w3 h endpoint ≡ (pos 0, w4)
      → dispatch cmd.type s cmd ≡ waiting_on s l p h id w4
  unfolding dispatch handle_cmd_open
  open-waiting_on s cmd endpoint id p h req l w1 w2 w3 w4 kind to named memory inited got taken
        connected =
      rw kind (
        handle_cmd_open-waiting_on s cmd p h req l w1 w2 w3 w4 memory inited got taken
          (rw to connected)
        ∙ ap (λ i. waiting_on s l p h i w4) named)

-- The event that reports the connection, in the structure of `y`.
abbrev pub opened_event : Event → ℕ → ℕ → ℕ → Event
opened_event y p host id = record y { type = client_open; client_id = p; host = host; cmd_id = id }

module _ {T : Tn} (L : IsTn T) where
  -- The connection of a link that waits for it, in the world `d0`.
  connected-waiting_on :
      (s t : Service T) (c : T.cmds.Carrier) (p h id n peer remote sock local : ℕ)
      (l : LinkList T.list) (w d0 d1 d2 d3 : T.uv.World) (y : Event)
      (events queued : T.events.Carrier)
      → (l.client_map p).id ≡ p
      → t ≡ record (waiting_on s l p h id w) { cmds = c }
      → T.uv.getpeername d0 h ≡ (some peer, d1)
      → T.convert_from peer ≡ some remote
      → T.uv.getsockname d1 h ≡ (some sock, d2)
      → T.convert_from sock ≡ some local
      → T.events.free_pop s.events client_open ≡ some (y, events)
      → T.events.ready_push events (opened_event y p local id) ≡ some queued
      → T.uv.read_start d2 h ≡ (pos 0, d3)
      → (u : Service T) × (on_outbound_connection_cb (record t { world = d0 }) p (pos n) ≡ some u)
        × ((link_at u p).state ≡ opened)
        × ((link_at u p).priv ≡ some h)
        × (L.events.ready u.events ≡ L.events.ready s.events ++ opened_event y p local id ∷ [])
  connected-waiting_on s t c p h id n peer remote sock local l w d0 d1 d2 d3 y events queued own e
        peered far socked near popped pushed started =
      let v : Service T = record (waiting_on s l p h id w) { cmds = c; world = d0 } in
      let z = with_host (with_host v p remote) p local in
      let k : Link = record (connecting_link h id (l.client_map p)) { endpoint_remote = local } in
      let wrote : link_at z p ≡ k = ground arith in
      let as_sent : open_event y (link_at z p) ≡ opened_event y p local id =
        ap (open_event y) wrote ∙ ap (λ i. opened_event y i local id) own in
      let u = connected_on z p queued d3 in
      let there : link_at u p ≡ record k { state = opened } =
        link_at-set_link z p (record (link_at z p) { state = opened })
        ∙ ap (λ (m : Link). let j : Link = record m { state = opened } in j) wrote in
      let (_, same, _) = L.events.free_pop_lem s.events events client_open y popped in
      let (grown, _) = L.events.ready_push_lem events queued (opened_event y p local id) pushed in
      (
        u,
        rw e (
            on_outbound_connection_cb-connected_on v p h n peer remote sock local y events queued d1
              d2 d3 (ground arith) peered far socked near popped (rw as_sent pushed) started),
        ap (λ m. m.state) there,
        ap (λ m. m.priv) there,
        grown ∙ ap (λ q. q ++ opened_event y p local id ∷ []) same,
      )

  -- A connection that the main thread asks for is made and reported, where every call of libuv and
  -- every allocation succeeds: after a call that succeeds, the IO thread's next callback takes the
  -- next free link, which waits in the state `new`; and when libuv has connected it, in whatever world
  -- `d0` and with nothing else in between, the link is open with its handle, and an open event that
  -- names the link and carries the id that the call returned is ready, last in its queue. The event's
  -- host is the socket's own address, `local`, and not the peer's. `v` is what the commands that
  -- waited before make of the service. It is assumed that the list of links of `v` is well formed,
  -- that an open event can be had and queued, that each command is in the lists at most once, and that
  -- a command that is not free can be freed; the fuel is more than the commands that wait after the
  -- call.
  pub on_outbound_connection_cb-cmd_open :
      ((c : T.cmds.Carrier) (x : Cmd)
        → count x.id (L.cmds.free c) ≡ 0
        → T.cmds.free_push c x ≢ none)
      → (s s' : Service T) (endpoint id fuel p h req n peer remote sock local : ℕ)
      → (l : LinkList T.list) (w1 w2 w3 w4 d0 d1 d2 d3 : T.uv.World)
      → (y : Event) (events queued : T.events.Carrier) → ((a : ℕ) → held L a s ≤ 1)
      → call s (opens endpoint) ≡ (success, id, s')
      → suc (length (L.cmds.ready s.cmds)) < fuel
      → let v = execute (L.cmds.ready s.cmds) s in
        LinksFine L v
        → T.uv.acquire v.world ≡ (some h, w1)
        → T.uv.tcp_init w1 h ≡ (pos 0, w2)
        → T.uv.acquire w2 ≡ (some req, w3)
        → open_link T.list T.cmd_invalid v.link_list ≡ some (p, l)
        → T.uv.connect w3 h endpoint ≡ (pos 0, w4)
        → T.uv.getpeername d0 h ≡ (some peer, d1)
        → T.convert_from peer ≡ some remote
        → T.uv.getsockname d1 h ≡ (some sock, d2)
        → T.convert_from sock ≡ some local
        → T.events.free_pop v.events client_open ≡ some (y, events)
        → T.events.ready_push events (opened_event y p local id) ≡ some queued
        → T.uv.read_start d2 h ≡ (pos 0, d3)
        → (t : Service T) × (on_check_cb fuel s' ≡ some t)
          × (free_of L v ≡ p ∷ free_of L t)
          × ((link_at t p).state ≡ LinkState.new)
          × (u : Service T) × (on_outbound_connection_cb (record t { world = d0 }) p (pos n)
              ≡ some u)
          × ((link_at u p).state ≡ opened)
          × ((link_at u p).priv ≡ some h)
          × (L.events.ready u.events ≡ L.events.ready v.events ++ opened_event y p local id ∷ [])
  on_outbound_connection_cb-cmd_open fits s s' endpoint id fuel p h req n peer remote sock local l
        w1 w2 w3 w4 d0 d1 d2 d3 y events queued once e enough fine memory inited got taken connected
        peered far socked near popped pushed started =
      let v = execute (L.cmds.ready s.cmds) s in
      let (t, ended, x) = on_check_cb-call L fits (opens endpoint) s s' id fuel once e enough in
      let (c, effect) = x.effect in
      let did : t ≡ record (waiting_on v l p h id w4) { cmds = c } =
        effect
        ∙ ap (λ (u : Service T). let z : Service T = record u { cmds = c } in z)
            (open-waiting_on v x.cmd endpoint id p h req l w1 w2 w3 w4 x.kind x.carries x.named
              memory inited got taken connected) in
      let o = open-Opened L.list T.cmd_invalid v.link_list l p fine taken in
      let own : (l.client_map p).id ≡ p = ap (λ k. k.id) o.link ∙ fine.ids p o.in_array in
      let (u, ran, state, handle, reported) =
        connected-waiting_on v t c p h id n peer remote sock local l w4 d0 d1 d2 d3 y events queued
          own did peered far socked near popped pushed started in
      (t, ended, rw did o.taken, rw did (ground arith), u, ran, state, handle, reported)
