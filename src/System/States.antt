-- ===== src/System/States.antt =====
-- The states of a link against its life cycle, over all the moves of both threads.
pub mod Commands
pub mod Cycling
use serverlynx.Prelude.{
  ℕ, zero, suc, ℤ, pos, negsuc, ◌<◌, ◌≡◌, ◌≢◌, refl, sym, ap, ◌∙◌, ◌⊎◌, inl, inr, Bool, true, false,
  none, some, List, [], ◌∷◌, elem, Option-cases, Bool-cases, arith, ◌==◌, ◌||◌,
}
use mathlib.Core.Path.{subst}
use mathlib.Core.Option.{some-injective}
use serverlynx.Tn.{Tn, IsTn}
use serverlynx.Tn.Cmds.{Cmd, CmdType, client_open, client_close, client_send}
use serverlynx.Link.{Link, LinkState, opened, closing, closed}
use serverlynx.Link.List.{LinkList}
use serverlynx.Link.List.Invariant.{free_links}
use serverlynx.Service.{Service}
use serverlynx.Io.{link_at, set_link, kept}
use serverlynx.Io.Links.{link_at-set_link, link_at-set_link_ne}
use serverlynx.Io.Sound.{IsIdle, IsBusy, IsSound}
use serverlynx.Io.Commands.Sound.{Taken-before}
use serverlynx.Io.Commands.{handle_cmd_close}
use serverlynx.Io.Receiving.{on_recv_cb}
use serverlynx.Io.Receiving.Sound.{KeepsState, on_recv_cb_error-Written}
use serverlynx.Io.Sending.Laws.{target_cases}
use serverlynx.Io.Connecting.Taken.{Taken}
use serverlynx.Io.Connecting.Laws.{on_inbound_connection_cb_lem}
use serverlynx.Io.Connecting.Restored.{Restored}
use serverlynx.Io.Connecting.Starting.{handle_cmd_open-Started}
use serverlynx.Io.Connecting.Connected.{on_outbound_connection_cb_lem}
use serverlynx.Io.Connecting.{on_inbound_connection_cb, on_outbound_connection_cb, handle_cmd_open}

-- The life cycle of a link, one step of it.
pub data Edge (x y : LinkState) : Type 0 where
  stays : y ≡ x → Edge x y
  -- A link that has no connection is taken for one.
  takes : IsIdle x → (y ≡ LinkState.new) ⊎ IsBusy y → Edge x y
  shuts : x ≡ opened → y ≡ closing → Edge x y
  ends : x ≡ closing → y ≡ closed → Edge x y

module _ {T : Tn} (L : IsTn T) where
  abbrev state_of : LinkList T.list → ℕ → LinkState
  state_of l q = (l.client_map q).state

  -- Every link makes a step of its life cycle.
  abbrev pub Cycles : LinkList T.list → LinkList T.list → Type 0
  Cycles l l' = (q : ℕ) → Edge (state_of l q) (state_of l' q)

  pub same-Cycles : (l l' : LinkList T.list) → l' ≡ l → Cycles l l'
  same-Cycles l l' e q = stays (ap (λ m. state_of m q) e)

  -- Every link keeps its state, or had no connection and is now in the state `x`.
  abbrev TakenTo : LinkState → LinkList T.list → LinkList T.list → Type 0
  TakenTo x l l' =
      (q : ℕ) → (state_of l' q ≡ state_of l q) ⊎ (IsIdle (state_of l q) × (state_of l' q ≡ x))

  Taken-TakenTo :
      (l l' : LinkList T.list) (p h : ℕ) (x : LinkState)
      → IsSound L l
      → Taken L l p h x l'
      → TakenTo x l l'
  Taken-TakenTo l l' p h x i k q = elim (Bool-cases (p == q)) [
    | inl c ↦
        let same : p ≡ q = ground arith in
        let free : elem p (free_links L.list l) ≡ true = rw k.taken (ground arith) in
        inr (
          subst (λ j. IsIdle (state_of l j)) same (i.idle p free),
          subst (λ j. state_of l' j ≡ x) same k.state,
        )
    | inr c ↦ inl (ap (λ m. m.state) (k.others q (ground arith)))
  ]

  Restored-TakenTo :
      (l l' : LinkList T.list) → IsSound L l → Restored L l l' → TakenTo LinkState.new l l'
  Restored-TakenTo l l' i r q = elim (r.states q) [
    | inl (free, fresh) ↦ inr (i.idle q (rw r.free at free), fresh)
    | inr same ↦ inl (ap (λ m. m.state) same)
  ]

  Taken-Cycles :
      (l l' : LinkList T.list) (p h : ℕ) (x : LinkState)
      → IsSound L l
      → Taken L l p h x l'
      → IsBusy x
      → Cycles l l'
  Taken-Cycles l l' p h x i k busy q = elim (Taken-TakenTo l l' p h x i k q) [
    | inl same ↦ stays same
    | inr (idle, e) ↦ takes idle (inr (subst IsBusy (sym e) busy))
  ]

  -- A write that changes the state of one link at most.
  set_link-Cycles :
      (s : Service T) (p : ℕ) (k : Link)
      → Edge (link_at s p).state k.state
      → Cycles s.link_list (set_link s p k).link_list
  set_link-Cycles s p k e q = elim (Bool-cases (p == q)) [
    | inl c ↦
        let same : p ≡ q = ground arith in
        subst (λ j. Edge (link_at s j).state (link_at (set_link s p k) j).state) same
          (subst (Edge (link_at s p).state) (sym (ap (λ m. m.state) (link_at-set_link s p k))) e)
    | inr c ↦ stays (ap (λ m. m.state) (link_at-set_link_ne s p q k (ground arith)))
  ]

  pub on_inbound_connection_cb-Cycles :
      (s : Service T) (status : ℤ)
      → IsSound L s.link_list
      → Cycles s.link_list (on_inbound_connection_cb s status).link_list
  on_inbound_connection_cb-Cycles s status i =
      elim (on_inbound_connection_cb_lem L s status i.fine) [
        | inl e ↦ same-Cycles s.link_list _ e
        | inr (p, h, inl k) ↦ Taken-Cycles s.link_list _ p h opened i k (inl refl)
        | inr (p, h, inr (k, _)) ↦ Taken-Cycles s.link_list _ p h closing i k (inr refl)
      ]

  -- A connection callback for a link that waits.
  connected-Cycles :
      (l before u : LinkList T.list) (p h : ℕ) (x : LinkState)
      → state_of l p ≡ LinkState.new
      → ((q : ℕ) → p ≢ q → before.client_map q ≡ l.client_map q)
      → Taken L before p h x u
      → IsBusy x
      → Cycles l u
  connected-Cycles l before u p h x waits same k busy q = elim (Bool-cases (p == q)) [
    | inl c ↦
        let here : p ≡ q = ground arith in
        subst (λ j. Edge (state_of l j) (state_of u j)) here
          (takes (inl waits) (inr (subst IsBusy (sym k.state) busy)))
    | inr c ↦
        let away : p ≢ q = ground arith in stays (ap (λ m. m.state) (k.others q away ∙ same q away))
  ]

  pub on_outbound_connection_cb-Cycles :
      (s t : Service T) (p : ℕ) (status : ℤ)
      → p < s.link_list.clients_max
      → elem p (free_links L.list s.link_list) ≡ false
      → (link_at s p).state ≡ LinkState.new
      → IsSound L s.link_list
      → on_outbound_connection_cb s p status ≡ some t
      → Cycles s.link_list t.link_list
  on_outbound_connection_cb-Cycles s t p (negsuc n) lt out e i done =
      unfold on_outbound_connection_cb in absurd (ground arith)
  on_outbound_connection_cb-Cycles s t p (pos n) lt out e i done =
      let (h, before, j, k) = Taken-before L s.link_list p i lt out e in
      let (u, same, after) = on_outbound_connection_cb_lem L before p h s n k in
      let old : (q : ℕ) → p ≢ q → before.client_map q ≡ s.link_list.client_map q =
        λ q away. sym (k.others q away) in
      subst (λ (v : Service T). Cycles s.link_list v.link_list)
        (some-injective _ _ (sym same ∙ done))
        (elim after [
          | inl m ↦ connected-Cycles s.link_list before u.link_list p h opened e old m (inl refl)
          | inr (m, _) ↦
              connected-Cycles s.link_list before u.link_list p h closing e old m (inr refl)
        ])

  pub KeepsState-Cycles :
      (s t : Service T) (p : ℕ) → KeepsState s p t → Cycles s.link_list t.link_list
  KeepsState-Cycles s t p (inl e) = same-Cycles s.link_list t.link_list e
  KeepsState-Cycles s t p (inr (k, e, _, _, _, same)) =
      subst (Cycles s.link_list) (sym e) (set_link-Cycles s p k (stays same))

  -- A link that has a connection and starts to close.
  closing-Edge : (x y : LinkState) → IsBusy x → y ≡ closing → Edge x y
  closing-Edge x y (inl e) f = shuts e f
  closing-Edge x y (inr e) f = stays (f ∙ sym e)

  pub on_recv_cb_error-Cycles :
      (s : Service T) (p handle n : ℕ) (has_buf : Bool)
      → IsBusy (link_at s p).state
      → Cycles s.link_list (on_recv_cb s p handle (negsuc n) has_buf).link_list
  on_recv_cb_error-Cycles s p handle n has_buf busy =
      elim (on_recv_cb_error-Written s p handle n has_buf) [
        | inl k ↦ KeepsState-Cycles s (on_recv_cb s p handle (negsuc n) has_buf) p k
        | inr (k, e, _, _, _, c) ↦
            subst (Cycles s.link_list) (sym e)
              (set_link-Cycles s p k (closing-Edge (link_at s p).state k.state busy c))
      ]
