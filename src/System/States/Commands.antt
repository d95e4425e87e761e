-- ===== src/System/States/Commands.antt =====
-- What the commands do to the states of the links.
use serverlynx.Prelude.{
  ℕ, zero, suc, ◌≡◌, refl, sym, ap, ◌∙◌, inl, inr, some, Option-cases, Bool-cases, arith, ◌==◌,
}
use mathlib.Core.Path.{subst}
use serverlynx.Tn.{Tn, IsTn}
use serverlynx.Tn.Cmds.{Cmd, CmdType, client_open, client_close, client_send}
use serverlynx.Link.{Link, LinkState, opened, closing}
use serverlynx.Link.List.{LinkList}
use serverlynx.Service.{Service}
use serverlynx.Io.{link_at, set_link, kept}
use serverlynx.Io.Links.{link_at-set_link, link_at-set_link_ne}
use serverlynx.Io.Sound.{IsIdle, IsSound}
use serverlynx.Io.Commands.Sound.{dispatch-IsSound}
use serverlynx.Io.Commands.{handle_cmd_close, dispatch, free_cmd, on_check_cb}
use serverlynx.Io.Sending.Untouched.{handle_cmd_send-links}
use serverlynx.Io.Sending.Laws.{Live, target_cases}
use serverlynx.Io.Connecting.Starting.{handle_cmd_open-Started}
use serverlynx.Io.Connecting.{handle_cmd_open}
use serverlynx.System.States.{Edge, takes, state_of, TakenTo, Taken-TakenTo, Restored-TakenTo}

module _ {T : Tn} (L : IsTn T) where
  -- What commands do to the states: a link without a connection may wait for one, an open link may
  -- start to close.
  pub data CmdEdge (x y : LinkState) : Type 0 where
    stays : y ≡ x → CmdEdge x y
    waits : IsIdle x → y ≡ LinkState.new → CmdEdge x y
    shuts : x ≡ opened → y ≡ closing → CmdEdge x y

  CmdEdge-trans : (x y z : LinkState) → CmdEdge x y → CmdEdge y z → CmdEdge x z
  CmdEdge-trans x y z a (CmdEdge.stays e) = subst (CmdEdge x) (sym e) a
  CmdEdge-trans x y z (CmdEdge.stays e) (waits i f) = waits (subst IsIdle e i) f
  CmdEdge-trans x y z (CmdEdge.stays e) (CmdEdge.shuts f g) = CmdEdge.shuts (sym e ∙ f) g
  CmdEdge-trans x y z (waits i e) (waits j f) = waits i f
  CmdEdge-trans x y z (waits i e) (CmdEdge.shuts f g) = absurd (ground arith)
  CmdEdge-trans x y z (CmdEdge.shuts e f) (waits j g) = absurd (ground arith)
  CmdEdge-trans x y z (CmdEdge.shuts e f) (CmdEdge.shuts g k) = absurd (ground arith)

  pub CmdEdge-Edge : (x y : LinkState) → CmdEdge x y → Edge x y
  CmdEdge-Edge x y (CmdEdge.stays e) = Edge.stays e
  CmdEdge-Edge x y (waits i e) = takes i (inl e)
  CmdEdge-Edge x y (CmdEdge.shuts e f) = Edge.shuts e f

  abbrev CmdCycles : LinkList T.list → LinkList T.list → Type 0
  CmdCycles l l' = (q : ℕ) → CmdEdge (state_of L l q) (state_of L l' q)

  handle_cmd_open-CmdCycles :
      (s : Service T) (cmd : Cmd)
      → IsSound L s.link_list
      → CmdCycles s.link_list (handle_cmd_open s cmd).link_list
  handle_cmd_open-CmdCycles s cmd i q = elim (taken q) [
    | inl same ↦ CmdEdge.stays same
    | inr (idle, e) ↦ waits idle e
  ]
    where
      taken : TakenTo L LinkState.new s.link_list (handle_cmd_open s cmd).link_list
      taken = elim (handle_cmd_open-Started L s cmd i.fine) [
        | inl r ↦ Restored-TakenTo L s.link_list _ i r
        | inr (p, h, k) ↦ Taken-TakenTo L s.link_list _ p h LinkState.new i k
      ]

  handle_cmd_close-CmdCycles :
      (s : Service T) (cmd : Cmd) → CmdCycles s.link_list (handle_cmd_close s cmd).link_list
  unfolding handle_cmd_close
  handle_cmd_close-CmdCycles s cmd q = elim (target_cases s cmd.client_id) [
    | inl (h, live, e, f) ↦ rw (e, handle_cmd_close) (rw f (closed_at live))
    | inr (inl e) ↦ rw (e, handle_cmd_close) (CmdEdge.stays refl)
    | inr (inr (p, e, f)) ↦ rw (e, handle_cmd_close) (rw f (CmdEdge.stays refl))
  ]
    where
      k : Link
      k = record (link_at s cmd.client_id) { cmd_close_id = cmd.id; state = closing }

      closed_at :
          {h : ℕ}
          → Live s cmd.client_id h
          → CmdEdge (link_at s q).state (link_at (set_link s cmd.client_id k) q).state
      closed_at live = elim (Bool-cases (cmd.client_id == q)) [
        | inl c ↦
            let same : cmd.client_id ≡ q = ground arith in
            subst (λ j. CmdEdge (link_at s j).state (link_at (set_link s cmd.client_id k) j).state)
              same
              (CmdEdge.shuts live.is_opened
                (ap (λ m. m.state) (link_at-set_link s cmd.client_id k)))
        | inr c ↦
            CmdEdge.stays
              (ap (λ m. m.state) (link_at-set_link_ne s cmd.client_id q k (ground arith)))
      ]

  dispatch-CmdCycles :
      (t : CmdType) (s : Service T) (cmd : Cmd)
      → IsSound L s.link_list
      → CmdCycles s.link_list (dispatch t s cmd).link_list
  unfolding dispatch
  dispatch-CmdCycles client_open s cmd i =
      unfold handle_cmd_open in handle_cmd_open-CmdCycles s cmd i
  dispatch-CmdCycles client_close s cmd i =
      unfold handle_cmd_close in handle_cmd_close-CmdCycles s cmd
  dispatch-CmdCycles client_send s cmd i =
      λ q. CmdEdge.stays (ap (λ l. state_of L l q) (handle_cmd_send-links s cmd))

  pub on_check_cb-CmdCycles :
      (fuel : ℕ) (s t : Service T)
      → IsSound L s.link_list
      → on_check_cb fuel s ≡ some t
      → CmdCycles s.link_list t.link_list
  unfolding on_check_cb
  on_check_cb-CmdCycles zero s t i e = absurd (ground arith)
  on_check_cb-CmdCycles (suc fuel) s t i e = elim (Option-cases (T.cmds.ready_pop_back s.cmds)) [
    | inl f ↦
        let same : s ≡ t = ap (λ o. kept o s) (rw (f, on_check_cb) at e) in
        λ q. CmdEdge.stays (ap (λ (u : Service T). (link_at u q).state) (sym same))
    | inr ((cmd, cmds), f) ↦
        let u : Service T = record s { cmds = cmds } in
        let v = dispatch cmd.type u cmd in
        let w = free_cmd cmd v in
        let one : CmdCycles s.link_list v.link_list =
          unfold dispatch in dispatch-CmdCycles cmd.type u cmd i in
        let sound : IsSound L v.link_list =
          unfold dispatch in dispatch-IsSound L cmd.type u cmd i in
        let rest : CmdCycles v.link_list t.link_list =
          on_check_cb-CmdCycles fuel w t (unfold free_cmd in sound) (rw (f, on_check_cb) at e) in
        λ q.
          CmdEdge-trans (state_of L s.link_list q) (state_of L v.link_list q)
            (state_of L t.link_list q) (one q) (rest q)
  ]
