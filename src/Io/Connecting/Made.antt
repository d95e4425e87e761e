-- ===== src/Io/Connecting/Made.antt =====
-- A connection that the service starts, where every call succeeds.
use serverlynx.Prelude.{ℕ, pos, ◌≡◌, refl, some}
use serverlynx.Tn.{Tn}
use serverlynx.Tn.Cmds.{Cmd}
use serverlynx.Tn.Uv.{close_handle_cb}
use serverlynx.Link.List.{LinkList, open_link}
use serverlynx.Service.{Service}
use serverlynx.Io.{ok, link_at, set_link, guard_uv, guard_uv_value, uv_close}
use serverlynx.Io.Succeeds.{guard_uv-ok, guard_uv_value-ok, ok->>=, attempt-ok}
use serverlynx.Io.Connecting.{
  take_link, open_handle, start_connect, return_link, open_on_link, open_on_memory, handle_cmd_open,
  connecting_link,
}

module _ {T : Tn} where
  take_link-ok :
      (s : Service T) (p : ℕ) (l : LinkList T.list)
      → open_link T.list T.cmd_invalid s.link_list ≡ some (p, l)
      → take_link s ≡ ok p (record s { link_list = l })
  unfolding take_link
  take_link-ok s p l e = rw (e, take_link) refl

  -- The service with a link that waits for its connection.
  abbrev pub waiting_on : Service T → LinkList T.list → ℕ → ℕ → ℕ → T.uv.World → Service T
  waiting_on s l p h id w =
      set_link (record s { link_list = l; world = w }) p (connecting_link h id (l.client_map p))

  open_handle-ok :
      (s : Service T) (p h req : ℕ) (l : LinkList T.list) (w2 w3 : T.uv.World)
      → T.uv.tcp_init s.world h ≡ (pos 0, w2)
      → T.uv.acquire w2 ≡ (some req, w3)
      → open_link T.list T.cmd_invalid s.link_list ≡ some (p, l)
      → open_handle h s ≡ ok p (record s { link_list = l; world = w3 })
  unfolding open_handle
  open_handle-ok s p h req l w2 w3 inited got taken =
      ok->>= (guard_uv (λ w. T.uv.tcp_init w h)) _ s (record s { world = w2 }) tt _
        (guard_uv-ok (λ w. T.uv.tcp_init w h) s w2 inited)
        (ok->>= (guard_uv_value T.uv.acquire) _ (record s { world = w2 }) (record s { world = w3 })
          req _ (guard_uv_value-ok T.uv.acquire (record s { world = w2 }) req w3 got)
          (take_link-ok (record s { world = w3 }) p l taken))

  start_connect-ok :
      (s : Service T) (cmd : Cmd) (p h : ℕ) (w : T.uv.World)
      → T.uv.connect s.world h cmd.endpoint ≡ (pos 0, w)
      → start_connect cmd h p s
        ≡ ok tt (record (set_link s p (connecting_link h cmd.id (link_at s p))) { world = w })
  unfolding start_connect
  start_connect-ok s cmd p h w e =
      guard_uv-ok (λ x. T.uv.connect x h cmd.endpoint)
        (set_link s p (connecting_link h cmd.id (link_at s p))) w e

  pub handle_cmd_open-waiting_on :
      (s : Service T) (cmd : Cmd) (p h req : ℕ) (l : LinkList T.list) (w1 w2 w3 w4 : T.uv.World)
      → T.uv.acquire s.world ≡ (some h, w1)
      → T.uv.tcp_init w1 h ≡ (pos 0, w2)
      → T.uv.acquire w2 ≡ (some req, w3)
      → open_link T.list T.cmd_invalid s.link_list ≡ some (p, l)
      → T.uv.connect w3 h cmd.endpoint ≡ (pos 0, w4)
      → handle_cmd_open s cmd ≡ waiting_on s l p h cmd.id w4
  unfolding handle_cmd_open open_on_memory open_on_link
  handle_cmd_open-waiting_on s cmd p h req l w1 w2 w3 w4 memory inited got taken connected =
      let s1 : Service T = record s { world = w1 } in
      let s3 : Service T = record s { link_list = l; world = w3 } in
      attempt-ok (guard_uv_value T.uv.acquire) (λ t. t) (open_on_memory cmd) s s1 _ h
        (guard_uv_value-ok T.uv.acquire s h w1 memory)
        (attempt-ok (open_handle h) (λ t. uv_close t h close_handle_cb) (open_on_link cmd h) s1 s3 _
          p (unfold open_handle in open_handle-ok s1 p h req l w2 w3 inited got taken)
          (attempt-ok (start_connect cmd h p) (λ t. uv_close (return_link p t) h close_handle_cb)
            (λ _ t. t) s3 _ _ tt (unfold start_connect in start_connect-ok s3 cmd p h w4 connected)
            refl))
