-- ===== src/Io/Connecting/Laws.antt =====
-- What becomes of the links when a connection comes in.
use serverlynx.Prelude.{ℕ, ℤ, pos, negsuc, ◌≡◌, refl, ◌∙◌, ◌⊎◌, inl, inr, true, arith}
use serverlynx.Tn.{Tn, IsTn}
use serverlynx.Link.{LinkState, opened, closing}
use serverlynx.Service.{Service}
use serverlynx.Link.List.{LinkList}
use serverlynx.Link.List.Invariant.{IsWellFormed}
use serverlynx.Tn.Events.{client_open}
use serverlynx.Link.List.Opening.{Opened}
use serverlynx.Io.{link_at, set_link, guard_uv, guard_uv_value, uv_close}
use serverlynx.Tn.Uv.{close_link_cb, close_handle_cb}
use serverlynx.Io.Links.{LinksFine}
use serverlynx.Io.Ensures.{
  Ensures, Ensures->>=, attempt_lem, guard_uv-Ensures, guard_uv_value-Ensures,
}
use serverlynx.Io.Connecting.{
  accept_on_link, accept_on_handle, accept_on_memory, report_accepted, accept_handle, accept_link,
  drop_link, on_inbound_connection_cb, accepted_link,
}
use serverlynx.Io.Connecting.Taken.{
  Taken, Taken-set_link, take_link-Ensures, Opened-Taken, Keeps, Keeps->>=, Keeps-guard_uv,
  Keeps-pop_open, Keeps-push_open, Keeps-read_endpoints, Keeps-get,
}

module _ {T : Tn} (L : IsTn T) where
  module _ (l : LinkList T.list) (p h : ℕ) (x : LinkState) where
    Keeps-report_accepted : Keeps L l p h x (report_accepted h p)
    unfolding report_accepted
    Keeps-report_accepted = Keeps->>= L l p h x _ _ (Keeps-read_endpoints L l p h x) λ _.
        Keeps->>= L l p h x _ _ (Keeps-pop_open L l p h x) λ y.
          Keeps->>= L l p h x _ _ (Keeps-get L l p h x) λ m.
            Keeps->>= L l p h x _ _
              (Keeps-push_open L l p h x
                (record y { type = client_open; client_id = m.id; host = m.endpoint_remote }))
              λ _. Keeps-guard_uv L l p h x (λ w. T.uv.read_start w h)

  accept_link-Ensures :
      (l : LinkList T.list) (t : Service T) (p h : ℕ)
      → Opened L.list T.cmd_invalid l p t.link_list
      → Ensures
          (λ _ u. Taken L l p h opened u.link_list)
          (λ u. Taken L l p h opened u.link_list)
          (accept_link h p t)
  unfolding accept_link Keeps
  accept_link-Ensures l t p h o =
      Keeps-report_accepted l p h opened (set_link t p (accepted_link h (link_at t p)))
        (Opened-Taken L l t p h opened (accepted_link h (link_at t p)) o refl refl refl)

  -- What an attempt to accept leaves: no link taken, an open link, or one whose handle closes.
  abbrev pub Accepted : LinkList T.list → Service T → Type 0
  Accepted l t =
      (t.link_list ≡ l)
      ⊎ ((p h : ℕ) × (Taken L l p h opened t.link_list
            ⊎ (Taken L l p h closing t.link_list × (T.uv.is_closing t.world h ≡ true))))

  pub drop_link-Taken :
      (l : LinkList T.list) (t : Service T) (p h : ℕ) (x : LinkState)
      → Taken L l p h x t.link_list
      → let u = drop_link p h t in
        Taken L l p h closing u.link_list × (T.uv.is_closing u.world h ≡ true)
  unfolding drop_link
  drop_link-Taken l t p h x k = (
    Taken-set_link L l t p h x closing (record (link_at t p) { state = closing }) k refl k.handle
        refl,
    L.uv.is_closing-close t.world h h close_link_cb ∙ ground arith,
  )

  accept_handle-Ensures :
      (l : LinkList T.list) (t : Service T) (h : ℕ)
      → IsWellFormed L.list l
      → t.link_list ≡ l
      → Ensures
          (λ p u. Opened L.list T.cmd_invalid l p u.link_list)
          (λ u. u.link_list ≡ l)
          (accept_handle h t)
  unfolding accept_handle
  accept_handle-Ensures l t h w e =
      Ensures->>= (λ _ u. u.link_list ≡ l) (λ p u. Opened L.list T.cmd_invalid l p u.link_list)
        (λ u. u.link_list ≡ l) (guard_uv (λ v. T.uv.accept v h)) _ t
        (guard_uv-Ensures (λ _ u. u.link_list ≡ l) (λ u. u.link_list ≡ l) (λ v. T.uv.accept v h) t
          (λ _. e) (λ _. e))
        (λ _ u f. take_link-Ensures L l u w f)

  accept_on_link_lem :
      (l : LinkList T.list) (t : Service T) (h p : ℕ)
      → Opened L.list T.cmd_invalid l p t.link_list
      → Accepted l (accept_on_link h p t)
  unfolding accept_on_link
  accept_on_link_lem l t h p o =
      attempt_lem (λ _ z. Taken L l p h opened z.link_list) (λ z. Taken L l p h opened z.link_list)
        (Accepted l) (accept_link h p) (drop_link p h) (λ _ z. z) t (accept_link-Ensures l t p h o)
        (λ z k. inr (p, h, inr (drop_link-Taken l z p h opened k))) (λ _ z k. inr (p, h, inl k))

  accept_on_handle_lem :
      (l : LinkList T.list) (t : Service T) (h : ℕ)
      → IsWellFormed L.list l
      → t.link_list ≡ l
      → Accepted l (accept_on_handle h t)
  unfolding accept_on_handle
  accept_on_handle_lem l t h w e =
      attempt_lem (λ p z. Opened L.list T.cmd_invalid l p z.link_list) (λ z. z.link_list ≡ l)
        (Accepted l) (accept_handle h) (λ z. uv_close z h close_handle_cb) (accept_on_link h) t
        (accept_handle-Ensures l t h w e) (λ z f. inl f) (λ p z o. accept_on_link_lem l z h p o)

  accept_on_memory_lem :
      (l : LinkList T.list) (t : Service T) (h : ℕ)
      → IsWellFormed L.list l
      → t.link_list ≡ l
      → Accepted l (accept_on_memory h t)
  unfolding accept_on_memory
  accept_on_memory_lem l t h w e =
      attempt_lem (λ _ z. z.link_list ≡ l) (λ z. z.link_list ≡ l) (Accepted l)
        (guard_uv (λ v. T.uv.tcp_init v h)) (λ z. z) (λ _. accept_on_handle h) t
        (guard_uv-Ensures (λ _ z. z.link_list ≡ l) (λ z. z.link_list ≡ l) (λ v. T.uv.tcp_init v h) t
          (λ _. e) (λ _. e))
        (λ z f. inl f) (λ _ z f. accept_on_handle_lem l z h w f)

  -- An incoming connection takes at most one link, the next free one. It then has the handle of
  -- the connection, and is either open, or closing together with that handle. No other link
  -- changes, and the list stays well formed.
  pub on_inbound_connection_cb_lem :
      (s : Service T) (status : ℤ)
      → LinksFine L s
      → Accepted s.link_list (on_inbound_connection_cb s status)
  unfolding on_inbound_connection_cb
  on_inbound_connection_cb_lem s (negsuc n) w = inl refl
  on_inbound_connection_cb_lem s (pos n) w =
      attempt_lem (λ _ z. z.link_list ≡ s.link_list) (λ z. z.link_list ≡ s.link_list)
        (Accepted s.link_list) (guard_uv_value T.uv.acquire) (λ z. z) accept_on_memory s
        (guard_uv_value-Ensures (λ _ z. z.link_list ≡ s.link_list) (λ z. z.link_list ≡ s.link_list)
          T.uv.acquire s (λ _ _. refl) (λ _. refl))
        (λ z f. inl f) (λ h z f. accept_on_memory_lem s.link_list z h w f)
