-- ===== src/Io/Connecting/Taken.antt =====
-- A link that a callback takes for a connection, and what keeps it.
use serverlynx.Prelude.{ℕ, ℤ, ◌≡◌, ◌≢◌, refl, ap, ◌∙◌, inl, inr, Option, some, ◌∷◌, Option-cases}
use serverlynx.Tn.{Tn, IsTn}
use serverlynx.Link.{Link, LinkState}
use serverlynx.Service.{Service}
use serverlynx.Link.List.{LinkList, open_link}
use serverlynx.Link.List.Invariant.{IsWellFormed, free_links}
use serverlynx.Tn.Events.{Event, client_open}
use serverlynx.Link.List.Opening.{Opened, open-Opened}
use serverlynx.Io.{link_at, set_link, Io, ok, ◌>>=◌, guard_uv, guard_uv_value, guard_some}
use serverlynx.Io.Links.{set_link-LinksFine, link_at-set_link, link_at-set_link_ne}
use serverlynx.Io.Ensures.{
  Ensures, Ensures->>=, guard_uv-Ensures, guard_uv_value-Ensures, guard_some-Ensures,
}
use serverlynx.Io.Connecting.{take_link, read_endpoints, pop_open, push_open, edit_link}

module _ {T : Tn} (L : IsTn T) where
  -- From the list `l` to `l'`, the link `p` has been taken from the free ones, and has the handle `h`
  -- and the state `x`; no other link has changed, and the list is well formed.
  pub record Taken (l : LinkList T.list) (p h : ℕ) (x : LinkState) (l' : LinkList T.list)
      : Type 0 where
    pub taken : free_links L.list l ≡ p ∷ free_links L.list l'
    pub fine : IsWellFormed L.list l'
    pub size : l'.clients_max ≡ l.clients_max
    pub handle : (l'.client_map p).priv ≡ some h
    pub state : (l'.client_map p).state ≡ x
    pub others : (q : ℕ) → p ≢ q → l'.client_map q ≡ l.client_map q

  -- Writes of the link that keep its id and its handle.
  pub Taken-set_link :
      (l : LinkList T.list) (t : Service T) (p h : ℕ) (x y : LinkState) (k : Link)
      → Taken l p h x t.link_list
      → k.id ≡ (link_at t p).id
      → k.priv ≡ some h
      → k.state ≡ y
      → Taken l p h y (set_link t p k).link_list
  Taken-set_link l t p h x y k old i v z = record {
    taken = old.taken;
    fine = set_link-LinksFine L t p k i old.fine;
    size = old.size;
    handle = ap (λ m. m.priv) (link_at-set_link t p k) ∙ v;
    state = ap (λ m. m.state) (link_at-set_link t p k) ∙ z;
    others = λ q n. link_at-set_link_ne t p q k n ∙ old.others q n;
  }

  pub take_link-Ensures :
      (l : LinkList T.list) (t : Service T)
      → IsWellFormed L.list l
      → t.link_list ≡ l
      → Ensures
          (λ p u. Opened L.list T.cmd_invalid l p u.link_list)
          (λ u. u.link_list ≡ l)
          (take_link t)
  unfolding take_link
  take_link-Ensures l t w e = elim (Option-cases (open_link T.list T.cmd_invalid t.link_list)) [
    | inl f ↦ rw (f, take_link) e
    | inr ((p, l'), f) ↦ rw (f, take_link) (open-Opened L.list T.cmd_invalid l l' p w (rw e at f))
  ]

  -- A link that has just been taken gets its handle and its state.
  pub Opened-Taken :
      (l : LinkList T.list) (t : Service T) (p h : ℕ) (x : LinkState) (k : Link)
      → Opened L.list T.cmd_invalid l p t.link_list
      → k.id ≡ (link_at t p).id
      → k.priv ≡ some h
      → k.state ≡ x
      → Taken l p h x (set_link t p k).link_list
  Opened-Taken l t p h x k o i v z = record {
    taken = o.taken;
    fine = set_link-LinksFine L t p k i o.kept;
    size = o.size;
    handle = ap (λ m. m.priv) (link_at-set_link t p k) ∙ v;
    state = ap (λ m. m.state) (link_at-set_link t p k) ∙ z;
    others = λ q n. link_at-set_link_ne t p q k n ∙ o.others q n;
  }

  -- The steps after that keep such a link, whether they go on or jump.
  module _ (l : LinkList T.list) (p h : ℕ) (x : LinkState) where
    unfoldable pub Keeps : {A : Type 0} → Io T A → Type 0
    Keeps m =
        (t : Service T)
        → Taken l p h x t.link_list
        → Ensures (λ _ u. Taken l p h x u.link_list) (λ u. Taken l p h x u.link_list) (m t)

    pub Keeps->>= :
        {A B : Type 0} (m : Io T A) (f : A → Io T B)
        → Keeps m
        → ((a : A) → Keeps (f a))
        → Keeps (m >>= f)
    unfolding Keeps
    Keeps->>= m f km kf t k =
        Ensures->>= (λ _ u. Taken l p h x u.link_list) (λ _ u. Taken l p h x u.link_list)
          (λ u. Taken l p h x u.link_list) m f t (km t k) (λ a u r. kf a u r)

    pub Keeps-guard_uv : (f : T.uv.World → ℤ × T.uv.World) → Keeps (guard_uv f)
    unfolding Keeps
    Keeps-guard_uv f t k =
        guard_uv-Ensures (λ _ u. Taken l p h x u.link_list) (λ u. Taken l p h x u.link_list) f t
          (λ w. k) (λ w. k)

    Keeps-guard_uv_value : (f : T.uv.World → Option ℕ × T.uv.World) → Keeps (guard_uv_value f)
    unfolding Keeps
    Keeps-guard_uv_value f t k =
        guard_uv_value-Ensures (λ _ u. Taken l p h x u.link_list) (λ u. Taken l p h x u.link_list) f
          t (λ a w. k) (λ w. k)

    Keeps-guard_some : {A : Type 0} (o : Option A) → Keeps (guard_some o)
    unfolding Keeps
    Keeps-guard_some o t k =
        guard_some-Ensures (λ _ u. Taken l p h x u.link_list) (λ u. Taken l p h x u.link_list) o t
          (λ a e. k) k

    pub Keeps-edit_link :
        (f : Link → Link)
        → ((k : Link) → ((f k).id ≡ k.id) × ((f k).priv ≡ k.priv) × ((f k).state ≡ k.state))
        → Keeps (edit_link p f)
    unfolding Keeps
    Keeps-edit_link f same t k =
        let (i, v, z) = same (link_at t p) in
        Taken-set_link l t p h x x (f (link_at t p)) k i (v ∙ k.handle) (z ∙ k.state)

    pub Keeps-pop_open : Keeps pop_open
    unfolding Keeps pop_open
    Keeps-pop_open t k = elim (Option-cases (T.events.free_pop t.events client_open)) [
      | inl e ↦ rw (e, pop_open) k
      | inr ((y, events), e) ↦ rw (e, pop_open) k
    ]

    pub Keeps-push_open : (y : Event) → Keeps (push_open y)
    unfolding Keeps push_open
    Keeps-push_open y t k = elim (Option-cases (T.events.ready_push t.events y)) [
      | inl e ↦ rw (e, push_open) k
      | inr (events, e) ↦ rw (e, push_open) k
    ]

    pub Keeps-read_endpoints : Keeps (read_endpoints p h)
    unfolding read_endpoints
    Keeps-read_endpoints = Keeps->>= _ _ (Keeps-guard_uv_value (λ w. T.uv.getpeername w h)) λ peer.
        Keeps->>= _ _ (Keeps-guard_some (T.convert_from peer)) λ remote.
          Keeps->>= _ _
            (Keeps-edit_link (λ k. record k { endpoint_remote = remote }) (λ k. (refl, refl, refl)))
            λ _. Keeps->>= _ _ (Keeps-guard_uv_value (λ w. T.uv.getsockname w h)) λ sock.
              Keeps->>= _ _ (Keeps-guard_some (T.convert_from sock)) λ local.
                Keeps-edit_link (λ k. record k { endpoint_remote = local })
                  (λ k. (refl, refl, refl))

    pub Keeps-get : Keeps (λ s. ok (link_at s p) s)
    unfolding Keeps
    Keeps-get t k = k
