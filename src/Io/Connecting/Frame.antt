-- ===== src/Io/Connecting/Frame.antt =====
-- What connecting keeps: anything that does not depend on libuv, that stays true when links lose their read
-- buffers or change otherwise, and that lets an open event be taken from the free ones and be queued.
pub mod Callbacks
use serverlynx.Prelude.{
  ℕ, ℤ, pos, negsuc, ◌≡◌, refl, ap, Option, none, some, ◌⊎◌, Option-cases, Bool-cases, inl, inr,
  arith, ptr, ◌∙◌, ◌==◌,
}
use mathlib.Core.Path.{subst}
use serverlynx.Tn.{Tn}
use serverlynx.Tn.Cmds.{Cmd}
use serverlynx.Tn.Events.{Event, client_open}
use serverlynx.Tn.Uv.{close_handle_cb}
use serverlynx.Tn.ListPtr.{ListPtr}
use serverlynx.Link.{Link, update}
use serverlynx.Link.List.{LinkList, open_link, close_link}
use serverlynx.Service.{Service}
use serverlynx.Io.{
  Io, ok, ◌>>=◌, guard_uv, guard_uv_value, guard_some, attempt, kept, link_at, set_link, uv_close,
}
use serverlynx.Io.Ensures.{
  Ensures, Ensures->>=, attempt_lem, guard_uv-Ensures, guard_uv_value-Ensures, guard_some-Ensures,
}
use serverlynx.Io.Connecting.{
  edit_link, take_link, read_endpoints, pop_open, push_open, drop_link, report_accepted,
  accept_link, accept_handle, accept_on_link, accept_on_handle, accept_on_memory,
  on_inbound_connection_cb, report_connected, finish_connect, connect_link,
  on_outbound_connection_cb, open_handle, start_connect, return_link, open_on_link, open_on_memory,
  handle_cmd_open, accepted_link, connecting_link,
}

-- The link has its read buffer as before, or none.
abbrev pub GainsNone : Link → Link → Type 0
GainsNone k k' = (k'.read_buffer ≡ none) ⊎ (k'.read_buffer ≡ k.read_buffer)

-- No link of the list has gained a read buffer.
abbrev pub NoNewBuffers : {X : ListPtr} → LinkList X → LinkList X → Type 0
NoNewBuffers l l' =
    (l'.clients_max ≡ l.clients_max) × ((q : ℕ) → GainsNone (l.client_map q) (l'.client_map q))

-- `R` holds between the steps, and `H x` while the event `x` is in no list.
pub record IsFrame {T : Tn} (R : Service T → Type 0) (H : Event → Service T → Type 0) : Type 0 where
  pub world : (t : Service T) (w : T.uv.World) → R t → R (record t { world = w })
  pub links :
      (t : Service T) (l : LinkList T.list)
      → NoNewBuffers t.link_list l
      → R t
      → R (record t { link_list = l })
  pub pop :
      (t : Service T) (x : Event) (events : T.events.Carrier)
      → R t
      → T.events.free_pop t.events client_open ≡ some (x, events)
      → H x (record t { events = events })
  pub push :
      (t : Service T) (x y : Event) (events : T.events.Carrier)
      → H x t
      → y.address ≡ x.address
      → y.type ≡ client_open
      → T.events.ready_push t.events y ≡ some events
      → R (record t { events = events })
  pub drop : (t : Service T) (x : Event) → H x t → R t

-- A write of one link.
pub update-NoNewBuffers :
    {X : ListPtr} (l : LinkList X) (p : ℕ) (k : Link)
    → GainsNone (l.client_map p) k
    → NoNewBuffers l (record l { client_map = update l.client_map p k })
update-NoNewBuffers l p k same = (
  refl,
  λ q. elim (Bool-cases (p == q)) [
    | inl e ↦
        let here : p ≡ q = ground arith in
        rw e (subst (λ j. GainsNone (l.client_map j) k) here same)
    | inr e ↦ rw e (inr refl)
  ],
)

module _ {T : Tn} {R : Service T → Type 0} {H : Event → Service T → Type 0} (F : IsFrame R H) where
  unfoldable Keeps : {A : Type 0} → Io T A → Type 0
  Keeps m = (t : Service T) → R t → Ensures (λ a u. R u) R (m t)

  Keeps->>= :
      {A B : Type 0} (m : Io T A) (f : A → Io T B)
      → Keeps m
      → ((a : A) → Keeps (f a))
      → Keeps (m >>= f)
  unfolding Keeps
  Keeps->>= m f km kf t k =
      Ensures->>= (λ _ u. R u) (λ _ u. R u) R m f t (km t k) (λ a u r. kf a u r)

  Keeps-guard_uv : (f : T.uv.World → ℤ × T.uv.World) → Keeps (guard_uv f)
  unfolding Keeps
  Keeps-guard_uv f t k =
      guard_uv-Ensures (λ _ u. R u) R f t (λ w. F.world t w k) (λ w. F.world t w k)

  Keeps-guard_uv_value : (f : T.uv.World → Option ℕ × T.uv.World) → Keeps (guard_uv_value f)
  unfolding Keeps
  Keeps-guard_uv_value f t k =
      guard_uv_value-Ensures (λ _ u. R u) R f t (λ a w. F.world t w k) (λ w. F.world t w k)

  Keeps-guard_some : {A : Type 0} (o : Option A) → Keeps (guard_some o)
  unfolding Keeps
  Keeps-guard_some o t k = guard_some-Ensures (λ _ u. R u) R o t (λ a e. k) k

  -- A write of a link that gives it no read buffer.
  Keeps-edit_link :
      (p : ℕ) (f : Link → Link) → ((k : Link) → GainsNone k (f k)) → Keeps (edit_link p f)
  unfolding Keeps
  Keeps-edit_link p f same t k =
      F.links t _ (update-NoNewBuffers t.link_list p (f (link_at t p)) (same (link_at t p))) k

  Keeps-take_link : Keeps take_link
  unfolding Keeps take_link open_link
  Keeps-take_link t k = elim (Option-cases (T.list.pop_back t.link_list.client_list_free)) [
    | inl e ↦ rw (e, take_link) k
    | inr ((p, free), e) ↦
        let l = record (link_at t p) {
          cmd_open_id = T.cmd_invalid;
          cmd_close_id = T.cmd_invalid;
        } in
        rw (e, take_link) (F.links t _ (update-NoNewBuffers t.link_list p l (inr refl)) k)
  ]

  Keeps-read_endpoints : (p h : ℕ) → Keeps (read_endpoints p h)
  unfolding read_endpoints
  Keeps-read_endpoints p h =
      Keeps->>= _ _ (Keeps-guard_uv_value (λ w. T.uv.getpeername w h)) λ peer.
        Keeps->>= _ _ (Keeps-guard_some (T.convert_from peer)) λ remote.
          Keeps->>= _ _
            (Keeps-edit_link p (λ k. record k { endpoint_remote = remote }) (λ k. inr refl))
            λ _. Keeps->>= _ _ (Keeps-guard_uv_value (λ w. T.uv.getsockname w h)) λ sock.
              Keeps->>= _ _ (Keeps-guard_some (T.convert_from sock)) λ local.
                Keeps-edit_link p (λ k. record k { endpoint_remote = local }) (λ k. inr refl)

  pop_open-Ensures : (t : Service T) → R t → Ensures H R (pop_open t)
  unfolding pop_open
  pop_open-Ensures t k = elim (Option-cases (T.events.free_pop t.events client_open)) [
    | inl e ↦ rw (e, pop_open) k
    | inr ((x, events), e) ↦ rw (e, pop_open) (F.pop t x events k e)
  ]

  push_open-Ensures :
      (t : Service T) (x y : Event)
      → H x t
      → y.address ≡ x.address
      → y.type ≡ client_open
      → Ensures (λ _ u. R u) R (push_open y t)
  unfolding push_open
  push_open-Ensures t x y h same kind = elim (Option-cases (T.events.ready_push t.events y)) [
    | inl e ↦ rw (e, push_open) (F.drop t x h)
    | inr (events, e) ↦ rw (e, push_open) (F.push t x y events h same kind e)
  ]

  -- An event is taken, filled from the link, and queued.
  Keeps-accepted : (p h : ℕ) → Keeps (report_accepted h p)
  unfolding report_accepted Keeps
  Keeps-accepted p h = Keeps->>= _ _ (Keeps-read_endpoints p h) λ _ t k.
      Ensures->>= H (λ _ u. R u) R pop_open _ t (pop_open-Ensures t k)
        (λ x u hx.
          Ensures->>= (λ _ v. H x v) (λ _ v. R v) R (λ s. ok (link_at s p) s) _ u hx
            (λ l v hv.
              Ensures->>= (λ _ w. R w) (λ _ w. R w) R
                (push_open
                  (record x { type = client_open; client_id = l.id; host = l.endpoint_remote }))
                _ v (push_open-Ensures v x _ hv refl refl)
                (λ _ w r. Keeps-guard_uv (λ z. T.uv.read_start z h) w r)))

  Keeps-connected : (p h : ℕ) → Keeps (report_connected h p)
  unfolding report_connected Keeps
  Keeps-connected p h = Keeps->>= _ _ (Keeps-read_endpoints p h) λ _ t k.
      Ensures->>= H (λ _ u. R u) R pop_open _ t (pop_open-Ensures t k)
        (λ x u hx.
          Ensures->>= (λ _ v. H x v) (λ _ v. R v) R (λ s. ok (link_at s p) s) _ u hx
            (λ l v hv.
              push_open-Ensures v x
                (record x {
                  type = client_open;
                  client_id = l.id;
                  host = l.endpoint_remote;
                  cmd_id = l.cmd_open_id;
                })
                hv refl refl))
