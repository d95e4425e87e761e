-- ===== src/Io/Connecting/Frame/Callbacks.antt =====
-- The callbacks that connect keep what its steps keep.
use serverlynx.Prelude.{ℕ, ℤ, pos, negsuc, ◌≡◌, ap, refl, some, arith, ptr, Option-cases, inl, inr}
use mathlib.Core.Path.{subst}
use serverlynx.Tn.{Tn}
use serverlynx.Tn.Cmds.{Cmd}
use serverlynx.Tn.Events.{Event}
use serverlynx.Tn.Uv.{close_handle_cb}
use serverlynx.Link.{LinkState, closing}
use serverlynx.Link.List.{close_link}
use serverlynx.Service.{Service}
use serverlynx.Io.{Io, attempt, kept, link_at, set_link, uv_close}
use serverlynx.Io.Ensures.{attempt_lem}
use serverlynx.Io.Connecting.{
  drop_link, accept_link, accept_handle, accept_on_link, accept_on_handle, accept_on_memory,
  on_inbound_connection_cb, report_connected, finish_connect, connect_link,
  on_outbound_connection_cb, open_handle, start_connect, return_link, open_on_link, open_on_memory,
  handle_cmd_open, accepted_link, connecting_link,
}
use serverlynx.Io.Connecting.Frame.{
  IsFrame, Keeps, Keeps->>=, Keeps-guard_uv, Keeps-guard_uv_value, Keeps-edit_link, Keeps-take_link,
  Keeps-accepted, Keeps-connected, update-NoNewBuffers,
}

module _ {T : Tn} {R : Service T → Type 0} {H : Event → Service T → Type 0} (F : IsFrame R H) where
  Holds : (Service T → Service T) → Type 0
  Holds f = (t : Service T) → R t → R (f t)

  Holds-attempt :
      {A : Type 0} (m : Io T A) (cleanup : Service T → Service T) (next : A → Service T → Service T)
      → Keeps F m
      → Holds cleanup
      → ((a : A) → Holds (next a))
      → Holds (attempt m cleanup next)
  unfolding Holds Keeps
  Holds-attempt m cleanup next km kc ka t k =
      attempt_lem (λ _ u. R u) R R m cleanup next t (km t k) kc ka

  Holds-uv_close : (h : ℕ) → Holds (λ t. uv_close t h close_handle_cb)
  unfolding Holds
  Holds-uv_close h t k = F.world t _ k

  Holds-drop_link : (p h : ℕ) → Holds (drop_link p h)
  unfolding Holds drop_link
  Holds-drop_link p h t k =
      let l = record (link_at t p) { state = closing } in
      F.world (set_link t p l) _ (F.links t _ (update-NoNewBuffers t.link_list p l (inr refl)) k)

  Holds-return_link : (p h : ℕ) → Holds (λ t. uv_close (return_link p t) h close_handle_cb)
  unfolding Holds return_link close_link
  Holds-return_link p h t k =
      elim (Option-cases (T.list.push_back t.link_list.client_list_free p)) [
        | inl e ↦ rw (e, close_link) (F.world t _ k)
        | inr (free, e) ↦
            let l = record t.link_list { client_list_free = free } in
            rw (e, close_link)
              (F.world (record t { link_list = l }) _ (F.links t l (refl, λ q. inr refl) k))
      ]

  Holds-id : Holds (λ t. t)
  unfolding Holds
  Holds-id t k = k

  Keeps-accept_link : (h p : ℕ) → Keeps F (accept_link h p)
  unfolding accept_link
  Keeps-accept_link h p =
      Keeps->>= F _ _ (Keeps-edit_link F p (accepted_link h) (λ k. inl refl))
        λ _. Keeps-accepted F p h

  Holds-accept_on_memory : (h : ℕ) → Holds (accept_on_memory h)
  unfolding accept_on_memory accept_on_handle accept_on_link accept_handle
  Holds-accept_on_memory h =
      Holds-attempt _ _ _ (Keeps-guard_uv F (λ w. T.uv.tcp_init w h)) Holds-id λ _.
        Holds-attempt _ _ _
          (Keeps->>= F _ _ (Keeps-guard_uv F (λ w. T.uv.accept w h)) λ _. Keeps-take_link F)
          (Holds-uv_close h)
          λ p. Holds-attempt _ _ _ (Keeps-accept_link h p) (Holds-drop_link p h) (λ _. Holds-id)

  pub on_inbound_connection_cb-frame :
      (s : Service T) (status : ℤ) → R s → R (on_inbound_connection_cb s status)
  unfolding on_inbound_connection_cb Holds
  on_inbound_connection_cb-frame s (negsuc n) k = k
  on_inbound_connection_cb-frame s (pos n) k =
      Holds-attempt _ _ _ (Keeps-guard_uv_value F T.uv.acquire) Holds-id Holds-accept_on_memory s k

  Holds-open_on_memory : (cmd : Cmd) (h : ℕ) → Holds (open_on_memory cmd h)
  unfolding open_on_memory open_handle open_on_link start_connect
  Holds-open_on_memory cmd h =
      Holds-attempt _ _ _
        (Keeps->>= F _ _ (Keeps-guard_uv F (λ w. T.uv.tcp_init w h))
          λ _. Keeps->>= F _ _ (Keeps-guard_uv_value F T.uv.acquire) λ r. Keeps-take_link F)
        (Holds-uv_close h)
        λ p.
          Holds-attempt _ _ _
            (Keeps->>= F _ _ (Keeps-edit_link F p (connecting_link h cmd.id) (λ k. inl refl))
              λ _. Keeps-guard_uv F (λ w. T.uv.connect w h cmd.endpoint))
            (Holds-return_link p h) (λ _. Holds-id)

  pub handle_cmd_open-frame : (s : Service T) (cmd : Cmd) → R s → R (handle_cmd_open s cmd)
  unfolding handle_cmd_open Holds
  handle_cmd_open-frame s cmd k =
      Holds-attempt _ _ _ (Keeps-guard_uv_value F T.uv.acquire) Holds-id (Holds-open_on_memory cmd)
        s k

  Keeps-connect_link : (h p : ℕ) → Keeps F (connect_link h p)
  unfolding connect_link finish_connect
  Keeps-connect_link h p = Keeps->>= F _ _ (unfold report_connected in Keeps-connected F p h) λ _.
      Keeps->>= F _ _
        (Keeps-edit_link F p (λ l. record l { state = LinkState.opened }) (λ k. inr refl))
        λ _. Keeps-guard_uv F (λ w. T.uv.read_start w h)

  pub on_outbound_connection_cb-frame :
      (s t : Service T) (p : ℕ) (status : ℤ)
      → R s
      → on_outbound_connection_cb s p status ≡ some t
      → R t
  unfolding on_outbound_connection_cb Holds
  on_outbound_connection_cb-frame s t p (negsuc n) k e = absurd (ground arith)
  on_outbound_connection_cb-frame s t p (pos n) k e =
      let h = ptr (link_at s p).priv in
      subst R (ap (λ o. kept o s) e)
        (Holds-attempt _ _ _ (Keeps-connect_link h p) (Holds-drop_link p h) (λ _. Holds-id) s k)
