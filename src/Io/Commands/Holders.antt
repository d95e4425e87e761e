-- ===== src/Io/Commands/Holders.antt =====
-- The commands hold no read buffer more often than before, one by one and as they are all executed.
use serverlynx.Prelude.{ℕ, zero, suc, ◌≡◌, refl, ap, some, Option-cases, inl, inr, arith}
use serverlynx.Tn.{Tn, IsTn}
use serverlynx.Tn.Cmds.{Cmd, CmdType, client_open, client_close, client_send}
use serverlynx.Link.List.{get}
use serverlynx.Service.{Service}
use serverlynx.Io.{kept, link_at}
use serverlynx.Io.Sending.{live_handle}
use serverlynx.Io.Sending.Holders.{handle_cmd_send-NoMore}
use serverlynx.Io.Connecting.Holders.{handle_cmd_open-NoMore}
use serverlynx.Io.Commands.{handle_cmd_close, dispatch, free_cmd, on_check_cb}
use serverlynx.Io.Holders.{NoMore, same-NoMore, refl-NoMore, trans-NoMore, closing-NoMore}

module _ {T : Tn} (L : IsTn T) where
  handle_cmd_close-NoMore : (s : Service T) (cmd : Cmd) → NoMore L s (handle_cmd_close s cmd)
  unfolding handle_cmd_close
  handle_cmd_close-NoMore s cmd = elim (Option-cases (get T.list s.link_list cmd.client_id)) [
    | inl e ↦ rw (e, handle_cmd_close) (refl-NoMore L s)
    | inr (p, e) ↦ elim (Option-cases (live_handle s (link_at s p))) [
      | inl f ↦ rw (e, handle_cmd_close) (rw f (refl-NoMore L s))
      | inr (h, f) ↦ rw (e, handle_cmd_close) (rw f (closing-NoMore L s p _ _ (λ a. omega arith)))
    ]
  ]

  dispatch-NoMore : (k : CmdType) (s : Service T) (cmd : Cmd) → NoMore L s (dispatch k s cmd)
  unfolding dispatch
  dispatch-NoMore client_open s cmd = handle_cmd_open-NoMore L s cmd
  dispatch-NoMore client_close s cmd = handle_cmd_close-NoMore s cmd
  dispatch-NoMore client_send s cmd = handle_cmd_send-NoMore L s cmd

  pub on_check_cb-NoMore : (fuel : ℕ) (s t : Service T) → on_check_cb fuel s ≡ some t → NoMore L s t
  unfolding on_check_cb free_cmd
  on_check_cb-NoMore zero s t e = absurd (ground arith)
  on_check_cb-NoMore (suc fuel) s t e = elim (Option-cases (T.cmds.ready_pop_back s.cmds)) [
    | inl f ↦
        let same : s ≡ t = ap (λ o. kept o s) (rw (f, on_check_cb) at e) in
        rw⁻¹ same (refl-NoMore L s)
    | inr ((cmd, cmds), f) ↦
        let u = record s { cmds = cmds } in
        let v = dispatch cmd.type u cmd in
        let w = free_cmd cmd v in
        trans-NoMore L s u t (same-NoMore L s u refl (λ a. refl)) (
          trans-NoMore L u v t (unfold dispatch in dispatch-NoMore cmd.type u cmd) (
            trans-NoMore L v w t (same-NoMore L v w refl (λ a. refl))
              (on_check_cb-NoMore fuel w t (rw (f, on_check_cb) at e))))
  ]
