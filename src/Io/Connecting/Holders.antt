-- ===== src/Io/Connecting/Holders.antt =====
-- Connecting holds no read buffer more often than before, whether it goes on or jumps to `cleanup`.
use serverlynx.Prelude.{ℕ, zero, suc, ℤ, ◌≤◌, ◌≡◌, refl, ap, inl, inr, some, arith}
use serverlynx.Tn.{Tn, IsTn}
use serverlynx.Tn.Cmds.{Cmd}
use serverlynx.Tn.Events.{client_open}
use serverlynx.Link.{Link}
use serverlynx.Link.List.{LinkList}
use serverlynx.Service.{Service}
use serverlynx.Io.Holders.{
  in_links, NoMore, refl-NoMore, trans-NoMore, ready_push-NoMore, free_pop-NoMore,
}
use serverlynx.Io.Connecting.{on_inbound_connection_cb, on_outbound_connection_cb, handle_cmd_open}
use serverlynx.Io.Connecting.Frame.{IsFrame, GainsNone, NoNewBuffers}
use serverlynx.Io.Connecting.Frame.Callbacks.{
  on_inbound_connection_cb-frame, on_outbound_connection_cb-frame, handle_cmd_open-frame,
}

-- Links that gain no read buffer hold none more often.
in_links-GainsNone :
    (m m' : ℕ → Link) (n a : ℕ)
    → ((q : ℕ) → GainsNone (m q) (m' q))
    → in_links m' n a ≤ in_links m n a
in_links-GainsNone m m' zero a less = omega arith
in_links-GainsNone m m' (suc n) a less =
    let rest = in_links-GainsNone m m' n a less in
    elim (less n) [ inl e ↦ rw e (omega arith) | inr e ↦ rw e (omega arith) ]

module _ {T : Tn} (L : IsTn T) where
  links-NoMore :
      (s t : Service T) (l : LinkList T.list)
      → NoNewBuffers t.link_list l
      → NoMore L s t
      → NoMore L s (record t { link_list = l })
  links-NoMore s t l (size, less) k = record {
    hands = k.hands;
    fewer = λ a.
        (let x = in_links-GainsNone t.link_list.client_map l.client_map l.clients_max a less in
          let y = ap (λ n. in_links t.link_list.client_map n a) size in
          let z = k.fewer a in omega arith);
  }

  NoMore-IsFrame : (s : Service T) → IsFrame (NoMore L s) (λ x t. NoMore L s t)
  NoMore-IsFrame s = record {
    world = λ t w k. record { hands = k.hands; fewer = λ a. k.fewer a };
    links = λ t l same k. links-NoMore s t l same k;
    pop = λ t x events k e. trans-NoMore L s t _ k (free_pop-NoMore L t client_open x events e);
    push = λ t x y events k same kind e.
        trans-NoMore L s t _ k (ready_push-NoMore L t y events e (rw kind refl));
    drop = λ t x k. k;
  }

  pub on_inbound_connection_cb-NoMore :
      (s : Service T) (status : ℤ) → NoMore L s (on_inbound_connection_cb s status)
  on_inbound_connection_cb-NoMore s status =
      on_inbound_connection_cb-frame (NoMore-IsFrame s) s status (refl-NoMore L s)

  pub handle_cmd_open-NoMore : (s : Service T) (cmd : Cmd) → NoMore L s (handle_cmd_open s cmd)
  handle_cmd_open-NoMore s cmd = handle_cmd_open-frame (NoMore-IsFrame s) s cmd (refl-NoMore L s)

  pub on_outbound_connection_cb-NoMore :
      (s t : Service T) (p : ℕ) (status : ℤ)
      → on_outbound_connection_cb s p status ≡ some t
      → NoMore L s t
  on_outbound_connection_cb-NoMore s t p status e =
      on_outbound_connection_cb-frame (NoMore-IsFrame s) s t p status (refl-NoMore L s) e
