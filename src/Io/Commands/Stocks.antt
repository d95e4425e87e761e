-- ===== src/Io/Commands/Stocks.antt =====
-- Sending, and the commands, add no event and no command to the lists that was not there.
use serverlynx.Prelude.{
  ℕ, zero, suc, ℤ, ◌+◌, ◌≤◌, ◌≡◌, refl, ap, some, count, arith, Option-cases, Bool-cases, inl, inr,
}
use serverlynx.Tn.{Tn, IsTn}
use serverlynx.Tn.Cmds.{Cmd, CmdType, client_open, client_close, client_send}
use serverlynx.Service.{Service}
use serverlynx.Io.{is_zero, kept}
use serverlynx.Io.Sending.{give_req, write_with, send_to, handle_cmd_send, on_send_cb}
use serverlynx.Io.Sending.Laws.{target_cases}
use serverlynx.Io.Connecting.Frame.Callbacks.{handle_cmd_open-frame}
use serverlynx.Io.Commands.{handle_cmd_close, dispatch, free_cmd, on_check_cb}
use serverlynx.Io.Commands.Laws.{held, ids, dispatch-cmds}
use serverlynx.Io.Stocks.{NoneNew, refl-NoneNew, same-NoneNew, trans-NoneNew, NoneNew-IsFrame}

module _ {T : Tn} (L : IsTn T) where
  pub on_send_cb-NoneNew :
      (s : Service T) (r : ℕ) (status : ℤ) → NoneNew L s (on_send_cb s r status)
  unfolding on_send_cb
  on_send_cb-NoneNew s r status = elim (Bool-cases (is_zero status)) [
    | inl e ↦ rw e (unfold give_req in same-NoneNew L s _ refl refl refl)
    | inr e ↦ rw e (unfold give_req in same-NoneNew L s _ refl refl refl)
  ]

  write_with-NoneNew :
      (s : Service T) (cmd : Cmd) (p h r : ℕ) → NoneNew L s (write_with s cmd p h r)
  unfolding write_with
  write_with-NoneNew s cmd p h r =
      elim (Bool-cases (is_zero (T.uv.write s.world r h cmd.buffer cmd.len).0)) [
        | inl e ↦ rw (e, write_with) (same-NoneNew L s _ refl refl refl)
        | inr e ↦ rw (e, write_with) (unfold give_req in same-NoneNew L s _ refl refl refl)
      ]

  send_to-NoneNew : (s : Service T) (cmd : Cmd) (p h : ℕ) → NoneNew L s (send_to s cmd p h)
  unfolding send_to
  send_to-NoneNew s cmd p h = elim (Option-cases (T.list.pop_back s.send_req_list)) [
    | inl e ↦ rw (e, send_to) (refl-NoneNew L s)
    | inr ((r, l), e) ↦
        let t : Service T = record s { send_req_list = l } in
        rw (e, send_to)
          (trans-NoneNew L s t _ (same-NoneNew L s t refl refl refl)
            (unfold write_with in write_with-NoneNew t cmd p h r))
  ]

  handle_cmd_send-NoneNew : (s : Service T) (cmd : Cmd) → NoneNew L s (handle_cmd_send s cmd)
  unfolding handle_cmd_send
  handle_cmd_send-NoneNew s cmd = elim (target_cases s cmd.client_id) [
    | inl (h, live, e, f) ↦
        rw (e, handle_cmd_send) (rw f (unfold send_to in send_to-NoneNew s cmd cmd.client_id h))
    | inr (inl e) ↦ rw (e, handle_cmd_send) (refl-NoneNew L s)
    | inr (inr (p, e, f)) ↦ rw (e, handle_cmd_send) (rw f (refl-NoneNew L s))
  ]

  handle_cmd_close-NoneNew : (s : Service T) (cmd : Cmd) → NoneNew L s (handle_cmd_close s cmd)
  unfolding handle_cmd_close
  handle_cmd_close-NoneNew s cmd = elim (target_cases s cmd.client_id) [
    | inl (h, live, e, f) ↦ rw (e, handle_cmd_close) (rw f (same-NoneNew L s _ refl refl refl))
    | inr (inl e) ↦ rw (e, handle_cmd_close) (refl-NoneNew L s)
    | inr (inr (p, e, f)) ↦ rw (e, handle_cmd_close) (rw f (refl-NoneNew L s))
  ]

  dispatch-NoneNew : (k : CmdType) (s : Service T) (cmd : Cmd) → NoneNew L s (dispatch k s cmd)
  unfolding dispatch
  dispatch-NoneNew client_open s cmd =
      handle_cmd_open-frame (NoneNew-IsFrame L s) s cmd (refl-NoneNew L s)
  dispatch-NoneNew client_close s cmd = handle_cmd_close-NoneNew s cmd
  dispatch-NoneNew client_send s cmd = handle_cmd_send-NoneNew s cmd

  -- A command that is popped is freed again, or lost.
  free_cmd-held :
      (s u : Service T) (cmd : Cmd) (cmds : T.cmds.Carrier) (a : ℕ)
      → T.cmds.ready_pop_back s.cmds ≡ some (cmd, cmds)
      → u.cmds ≡ cmds
      → held L a (free_cmd cmd u) ≤ held L a s
  unfolding free_cmd
  free_cmd-held s u cmd cmds a e same =
      let (rest, pop) = L.cmds.ready_pop_back_lem s.cmds cmds cmd e in
      let ready = ap (λ l. count a (ids l)) rest in
      let left = ap (λ v. count a (ids (L.cmds.ready v)) + count a (L.cmds.free v)) same in
      let kept_free = ap (count a) pop in
      elim (Option-cases (T.cmds.free_push u.cmds cmd)) [
        | inl n ↦ rw n (omega arith)
        | inr (c, n) ↦
            let (ready', free) = L.cmds.free_push_lem u.cmds c cmd n in
            let f = free a in let r = ap (λ l. count a (ids l)) ready' in rw n (omega arith)
      ]

  pub on_check_cb-NoneNew :
      (fuel : ℕ) (s t : Service T) → on_check_cb fuel s ≡ some t → NoneNew L s t
  unfolding on_check_cb
  on_check_cb-NoneNew zero s t e = absurd (ground arith)
  on_check_cb-NoneNew (suc fuel) s t e = elim (Option-cases (T.cmds.ready_pop_back s.cmds)) [
    | inl f ↦
        let same : s ≡ t = ap (λ o. kept o s) (rw (f, on_check_cb) at e) in
        rw⁻¹ same (refl-NoneNew L s)
    | inr ((cmd, cmds), f) ↦
        let u = record s { cmds = cmds } in
        let v = dispatch cmd.type u cmd in
        let w = free_cmd cmd v in
        let m : NoneNew L u v = unfold dispatch in dispatch-NoneNew cmd.type u cmd in
        let one : NoneNew L s w =
          unfold free_cmd in
          record {
            hands = m.hands;
            events = m.events;
            cmds = λ a.
                unfold free_cmd in free_cmd-held s v cmd cmds a f (dispatch-cmds cmd.type u cmd);
          } in
        trans-NoneNew L s w t one (on_check_cb-NoneNew fuel w t (rw (f, on_check_cb) at e))
  ]
