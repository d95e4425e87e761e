-- ===== src/Io/Sending/Blind.antt =====
-- A send command does not look at the lists of commands.
use serverlynx.Prelude.{ℕ, refl, Option-cases, Bool-cases, inl, inr}
use serverlynx.Tn.{Tn}
use serverlynx.Tn.Cmds.{Cmd}
use serverlynx.Link.List.{get}
use serverlynx.Io.{is_zero, link_at}
use serverlynx.Io.Blind.{Ignores}
use serverlynx.Io.Sending.{live_handle, give_req, write_with, send_to, handle_cmd_send}

module _ (T : Tn) (c : T.cmds.Carrier) where
  Ignores-write_with : (cmd : Cmd) (p h r : ℕ) → Ignores T c (λ s. write_with s cmd p h r)
  unfolding Ignores write_with give_req
  Ignores-write_with cmd p h r s =
      elim (Bool-cases (is_zero (T.uv.write s.world r h cmd.buffer cmd.len).0)) [
        | inl e ↦ rw (e, write_with) refl
        | inr e ↦ rw (e, write_with) refl
      ]

  Ignores-send_to : (cmd : Cmd) (p h : ℕ) → Ignores T c (λ s. send_to s cmd p h)
  unfolding Ignores send_to
  Ignores-send_to cmd p h s = elim (Option-cases (T.list.pop_back s.send_req_list)) [
    | inl e ↦ rw (e, send_to) refl
    | inr ((r, l), e) ↦
        rw (e, send_to) (Ignores-write_with cmd p h r (record s { send_req_list = l }))
  ]

  pub Ignores-handle_cmd_send : (cmd : Cmd) → Ignores T c (λ s. handle_cmd_send s cmd)
  unfolding Ignores handle_cmd_send live_handle
  Ignores-handle_cmd_send cmd s = elim (Option-cases (get T.list s.link_list cmd.client_id)) [
    | inl e ↦ rw (e, handle_cmd_send) refl
    | inr (p, e) ↦ elim (Option-cases (live_handle s (link_at s p))) [
      | inl f ↦ rw (e, handle_cmd_send) (rw (f, handle_cmd_send) refl)
      | inr (h, f) ↦ rw (e, handle_cmd_send) (rw (f, handle_cmd_send) (Ignores-send_to cmd p h s))
    ]
  ]
