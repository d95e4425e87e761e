-- ===== src/Io/Connecting/Connected.antt =====
-- What becomes of a link whose connection is made.
use serverlynx.Prelude.{ℕ, pos, ◌≡◌, refl, ap, ◌⊎◌, inl, inr, some, true, ptr}
use serverlynx.Tn.{Tn, IsTn}
use serverlynx.Tn.Events.{client_open}
use serverlynx.Link.{LinkState, opened, closing}
use serverlynx.Link.List.{LinkList}
use serverlynx.Service.{Service}
use serverlynx.Io.{link_at, set_link}
use serverlynx.Io.Ensures.{Ensures, Ensures->>=, Ensures-weaken, attempt_lem}
use serverlynx.Io.Connecting.{
  report_connected, finish_connect, connect_link, drop_link, on_outbound_connection_cb,
}
use serverlynx.Io.Connecting.Taken.{
  Taken, Taken-set_link, Keeps, Keeps->>=, Keeps-guard_uv, Keeps-pop_open, Keeps-push_open,
  Keeps-read_endpoints, Keeps-get,
}
use serverlynx.Io.Connecting.Laws.{drop_link-Taken}

module _ {T : Tn} (L : IsTn T) (l : LinkList T.list) (p h : ℕ) where
  Keeps-report_connected : Keeps L l p h LinkState.new (report_connected h p)
  unfolding report_connected
  Keeps-report_connected = Keeps->>= L l p h _ _ _ (Keeps-read_endpoints L l p h _) λ _.
      Keeps->>= L l p h _ _ _ (Keeps-pop_open L l p h _) λ y.
        Keeps->>= L l p h _ _ _ (Keeps-get L l p h _) λ m. Keeps-push_open L l p h _ (record y {
          type = client_open;
          client_id = m.id;
          host = m.endpoint_remote;
          cmd_id = m.cmd_open_id;
        })

  -- Before or after the state is written.
  Waiting : Service T → Type 0
  Waiting t = Taken L l p h LinkState.new t.link_list ⊎ Taken L l p h opened t.link_list

  finish_connect-Ensures :
      (t : Service T)
      → Taken L l p h LinkState.new t.link_list
      → Ensures (λ _ u. Taken L l p h opened u.link_list) Waiting (finish_connect h p t)
  unfolding finish_connect Keeps Waiting
  finish_connect-Ensures t k =
      Ensures-weaken (λ _ u. Taken L l p h opened u.link_list)
        (λ u. Taken L l p h opened u.link_list) Waiting _
        (Keeps-guard_uv L l p h opened (λ w. T.uv.read_start w h)
          (set_link t p (record (link_at t p) { state = opened }))
          (Taken-set_link L l t p h LinkState.new opened (record (link_at t p) { state = opened }) k
            refl k.handle refl))
        (λ u m. inr m)

  connect_link-Ensures :
      (t : Service T)
      → Taken L l p h LinkState.new t.link_list
      → Ensures (λ _ u. Taken L l p h opened u.link_list) Waiting (connect_link h p t)
  unfolding connect_link Keeps Waiting
  connect_link-Ensures t k =
      Ensures->>= (λ _ u. Taken L l p h LinkState.new u.link_list)
        (λ _ u. Taken L l p h opened u.link_list) Waiting (report_connected h p) _ t
        (Ensures-weaken (λ _ u. Taken L l p h LinkState.new u.link_list)
          (λ u. Taken L l p h LinkState.new u.link_list) Waiting _ (Keeps-report_connected t k)
          (λ u m. inl m))
        (λ _ u m. finish_connect-Ensures u m)

  dropped :
      (t : Service T)
      → Waiting t
      → let u = drop_link p h t in
        Taken L l p h closing u.link_list × (T.uv.is_closing u.world h ≡ true)
  unfolding Waiting
  dropped t (inl k) = drop_link-Taken L l t p h LinkState.new k
  dropped t (inr k) = drop_link-Taken L l t p h opened k

  -- When the connection of a link that waits for it is made, the link ends open, or it is closing
  -- together with its handle; it keeps its id and its handle, and no other link changes.
  pub on_outbound_connection_cb_lem :
      (s : Service T) (n : ℕ)
      → Taken L l p h LinkState.new s.link_list
      → (t : Service T) × (on_outbound_connection_cb s p (pos n) ≡ some t)
        × (Taken L l p h opened t.link_list
            ⊎ (Taken L l p h closing t.link_list × (T.uv.is_closing t.world h ≡ true)))
  unfolding on_outbound_connection_cb
  on_outbound_connection_cb_lem s n k = (
    _,
    refl,
    rw (ap ptr k.handle) (
        attempt_lem (λ _ u. Taken L l p h opened u.link_list) Waiting
          (λ t.
            Taken L l p h opened t.link_list
            ⊎ (Taken L l p h closing t.link_list × (T.uv.is_closing t.world h ≡ true)))
          (connect_link h p) (drop_link p h) (λ _ t. t) s (connect_link-Ensures s k)
          (λ t m. inr (dropped t m)) (λ _ t m. inl m)),
  )
