-- ===== src/System/Standing.antt =====
-- A link that closes, until its close has ended.
use serverlynx.Prelude.{
  ℕ, ℤ, zero, suc, pos, negsuc, ◌<◌, ◌≡◌, ◌≢◌, sym, ap, ◌∙◌, true, false, some, elem, inl, inr,
  Option-cases, Bool-cases, arith, ◌==◌,
}
use mathlib.Core.Path.{subst}
use mathlib.Core.Option.{some-injective}
use serverlynx.Tn.{Tn, IsTn}
use serverlynx.Tn.Cmds.{Cmd, CmdType, client_open, client_close, client_send}
use serverlynx.Link.{Link, LinkState, opened, closing}
use serverlynx.Link.List.{LinkList}
use serverlynx.Link.List.Invariant.{free_links}
use serverlynx.Service.{Service}
use serverlynx.Io.{link_at, set_link, kept}
use serverlynx.Io.Links.{link_at-set_link, link_at-set_link_ne}
use serverlynx.Io.Sound.{IsSound, busy_not_free}
use serverlynx.Io.Commands.{handle_cmd_close, dispatch, free_cmd, on_check_cb}
use serverlynx.Io.Commands.Sound.{Taken-before, dispatch-IsSound}
use serverlynx.Io.Connecting.{on_inbound_connection_cb, on_outbound_connection_cb}
use serverlynx.Io.Connecting.Connected.{on_outbound_connection_cb_lem}
use serverlynx.Io.Connecting.Laws.{on_inbound_connection_cb_lem}
use serverlynx.Io.Connecting.Restored.{Restored}
use serverlynx.Io.Connecting.Starting.{handle_cmd_open-Started}
use serverlynx.Io.Connecting.Taken.{Taken}
use serverlynx.Io.Receiving.Sound.{Written, KeepsState}
use serverlynx.Io.Sending.Laws.{target_cases}
use serverlynx.Io.Sending.Untouched.{handle_cmd_send-links}

module _ {T : Tn} (L : IsTn T) (p id : ℕ) where
  -- The link `p` closes, by the close command `id`.
  abbrev pub Stands : LinkList T.list → Type 0
  Stands l = ((l.client_map p).state ≡ closing) × ((l.client_map p).cmd_close_id ≡ id)

  pub same-Stands : (l l' : LinkList T.list) → l' ≡ l → Stands l → Stands l'
  same-Stands l l' e k = subst Stands (sym e) k

  pub same_link : (l l' : LinkList T.list) → l'.client_map p ≡ l.client_map p → Stands l → Stands l'
  same_link l l' e (a, b) = (ap (λ m. m.state) e ∙ a, ap (λ m. m.cmd_close_id) e ∙ b)

  -- A link that is taken is another one.
  Taken-Stands :
      (l l' : LinkList T.list) (q h : ℕ) (x : LinkState)
      → IsSound L l
      → Taken L l q h x l'
      → Stands l
      → Stands l'
  Taken-Stands l l' q h x i k s =
      let out = busy_not_free L l p i (inr s.0) in
      let free : elem q (free_links L.list l) ≡ true = rw k.taken (ground arith) in
      let away : q ≢ p = λ e. (let f = rw e at free in absurd (ground arith)) in
      same_link l l' (k.others p away) s

  Restored-Stands : (l l' : LinkList T.list) → IsSound L l → Restored L l l' → Stands l → Stands l'
  Restored-Stands l l' i r s = elim (r.states p) [
    | inl (free, _) ↦
        let out = busy_not_free L l p i (inr s.0) in
        let f = rw r.free at free in absurd (ground arith)
    | inr same ↦ same_link l l' same s
  ]

  set_link-Stands :
      (s : Service T) (q : ℕ) (k : Link)
      → (q ≡ p → (k.state ≡ closing) × (k.cmd_close_id ≡ id))
      → Stands s.link_list
      → Stands (set_link s q k).link_list
  set_link-Stands s q k here h = elim (Bool-cases (q == p)) [
    | inl c ↦
        let same : q ≡ p = ground arith in
        let (a, b) = here same in
        let e : link_at (set_link s q k) p ≡ k =
          subst (λ j. link_at (set_link s q k) j ≡ k) same (link_at-set_link s q k) in
        (ap (λ m. m.state) e ∙ a, ap (λ m. m.cmd_close_id) e ∙ b)
    | inr c ↦
        same_link s.link_list (set_link s q k).link_list
          (link_at-set_link_ne s q p k (ground arith)) h
  ]

  pub Written-Stands :
      (s t : Service T) (q : ℕ) (X : Link → Type 0)
      → Written s q X t
      → ((k : Link) → q ≡ p → X k → k.state ≡ closing)
      → Stands s.link_list
      → Stands t.link_list
  Written-Stands s t q X (k, e, _, _, c, x) shut h =
      same-Stands (set_link s q k).link_list t.link_list e (
        set_link-Stands s q k
          (λ same. (shut k same x, c ∙ subst (λ j. (link_at s j).cmd_close_id ≡ id) (sym same) h.1))
          h)

  pub KeepsState-Stands :
      (s t : Service T) (q : ℕ) → KeepsState s q t → Stands s.link_list → Stands t.link_list
  KeepsState-Stands s t q (inl e) h = same-Stands s.link_list t.link_list e h
  KeepsState-Stands s t q (inr w) h =
      Written-Stands s t q (λ k. k.state ≡ (link_at s q).state) w
        (λ k same x. x ∙ subst (λ j. (link_at s j).state ≡ closing) (sym same) h.0) h

  pub on_inbound_connection_cb-Stands :
      (s : Service T) (status : ℤ)
      → IsSound L s.link_list
      → Stands s.link_list
      → Stands (on_inbound_connection_cb s status).link_list
  on_inbound_connection_cb-Stands s status i h =
      elim (on_inbound_connection_cb_lem L s status i.fine) [
        | inl e ↦ same-Stands s.link_list _ e h
        | inr (q, b, inl k) ↦ Taken-Stands s.link_list _ q b opened i k h
        | inr (q, b, inr (k, _)) ↦ Taken-Stands s.link_list _ q b closing i k h
      ]

  pub on_outbound_connection_cb-Stands :
      (s t : Service T) (q : ℕ) (status : ℤ)
      → q < s.link_list.clients_max
      → elem q (free_links L.list s.link_list) ≡ false
      → (link_at s q).state ≡ LinkState.new
      → IsSound L s.link_list
      → on_outbound_connection_cb s q status ≡ some t
      → Stands s.link_list
      → Stands t.link_list
  on_outbound_connection_cb-Stands s t q (negsuc n) lt out e i done h =
      unfold on_outbound_connection_cb in absurd (ground arith)
  on_outbound_connection_cb-Stands s t q (pos n) lt out e i done h =
      let (b, before, j, k) = Taken-before L s.link_list q i lt out e in
      let (u, same, after) = on_outbound_connection_cb_lem L before q b s n k in
      let away : q ≢ p =
        λ f. (let g = subst (λ m. (link_at s m).state ≡ LinkState.new) f e in let c = h.0 in cc) in
      let as_before : (x : LinkState) → Taken L before q b x u.link_list → Stands u.link_list =
        λ x m. same_link s.link_list u.link_list (m.others p away ∙ sym (k.others p away)) h in
      subst (λ (v : Service T). Stands v.link_list) (some-injective _ _ (sym same ∙ done))
        (elim after [ inl m ↦ as_before opened m | inr (m, _) ↦ as_before closing m ])

  handle_cmd_close-Stands :
      (s : Service T) (cmd : Cmd) → Stands s.link_list → Stands (handle_cmd_close s cmd).link_list
  unfolding handle_cmd_close
  handle_cmd_close-Stands s cmd h = elim (target_cases s cmd.client_id) [
    | inl (b, live, e, f) ↦
        let q = cmd.client_id in
        let away : q ≢ p = λ c.
          (let g = subst (λ m. (link_at s m).state ≡ opened) c live.is_opened in
            let d = h.0 in cc) in
        rw (e, handle_cmd_close) (rw f (set_link-Stands s q _ (λ c. absurd (away c)) h))
    | inr (inl e) ↦ rw (e, handle_cmd_close) h
    | inr (inr (q, e, f)) ↦ rw (e, handle_cmd_close) (rw f h)
  ]

  dispatch-Stands :
      (k : CmdType) (s : Service T) (cmd : Cmd)
      → IsSound L s.link_list
      → Stands s.link_list
      → Stands (dispatch k s cmd).link_list
  unfolding dispatch
  dispatch-Stands client_open s cmd i h = elim (handle_cmd_open-Started L s cmd i.fine) [
    | inl r ↦ Restored-Stands s.link_list _ i r h
    | inr (q, b, k) ↦ Taken-Stands s.link_list _ q b LinkState.new i k h
  ]
  dispatch-Stands client_close s cmd i h =
      unfold handle_cmd_close in handle_cmd_close-Stands s cmd h
  dispatch-Stands client_send s cmd i h = same-Stands s.link_list _ (handle_cmd_send-links s cmd) h

  pub on_check_cb-Stands :
      (fuel : ℕ) (s t : Service T)
      → IsSound L s.link_list
      → on_check_cb fuel s ≡ some t
      → Stands s.link_list
      → Stands t.link_list
  unfolding on_check_cb free_cmd
  on_check_cb-Stands zero s t i e h = absurd (ground arith)
  on_check_cb-Stands (suc fuel) s t i e h = elim (Option-cases (T.cmds.ready_pop_back s.cmds)) [
    | inl f ↦
        let same : s ≡ t = ap (λ o. kept o s) (rw (f, on_check_cb) at e) in
        subst (λ (u : Service T). Stands u.link_list) same h
    | inr ((cmd, cmds), f) ↦
        let u : Service T = record s { cmds = cmds } in
        let v = dispatch cmd.type u cmd in
        let w = free_cmd cmd v in
        on_check_cb-Stands fuel w t (unfold dispatch in dispatch-IsSound L cmd.type u cmd i)
          (rw (f, on_check_cb) at e) (unfold dispatch in dispatch-Stands cmd.type u cmd i h)
  ]
