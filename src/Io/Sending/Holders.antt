-- ===== src/Io/Sending/Holders.antt =====
-- Sending holds no read buffer.
use serverlynx.Prelude.{ℕ, ℤ, refl, Option-cases, Bool-cases, inl, inr}
use serverlynx.Tn.{Tn, IsTn}
use serverlynx.Tn.Cmds.{Cmd}
use serverlynx.Link.List.{get}
use serverlynx.Service.{Service}
use serverlynx.Io.{is_zero, link_at}
use serverlynx.Io.Sending.{live_handle, give_req, write_with, send_to, handle_cmd_send, on_send_cb}
use serverlynx.Io.Holders.{NoMore, same-NoMore, refl-NoMore}

module _ {T : Tn} (L : IsTn T) where
  pub on_send_cb-NoMore : (s : Service T) (r : ℕ) (status : ℤ) → NoMore L s (on_send_cb s r status)
  unfolding on_send_cb give_req
  on_send_cb-NoMore s r status = elim (Bool-cases (is_zero status)) [
    | inl e ↦ rw e (same-NoMore L s _ refl (λ a. refl))
    | inr e ↦ rw e (same-NoMore L s _ refl (λ a. refl))
  ]

  write_with-NoMore : (s : Service T) (cmd : Cmd) (p h r : ℕ) → NoMore L s (write_with s cmd p h r)
  unfolding write_with give_req
  write_with-NoMore s cmd p h r =
      elim (Bool-cases (is_zero (T.uv.write s.world r h cmd.buffer cmd.len).0)) [
        | inl e ↦ rw (e, write_with) (same-NoMore L s _ refl (λ a. refl))
        | inr e ↦ rw (e, write_with) (same-NoMore L s _ refl (λ a. refl))
      ]

  send_to-NoMore : (s : Service T) (cmd : Cmd) (p h : ℕ) → NoMore L s (send_to s cmd p h)
  unfolding send_to
  send_to-NoMore s cmd p h = elim (Option-cases (T.list.pop_back s.send_req_list)) [
    | inl e ↦ rw (e, send_to) (refl-NoMore L s)
    | inr ((r, l), e) ↦
        let m = write_with-NoMore (record s { send_req_list = l }) cmd p h r in
        rw (e, send_to) (record { hands = m.hands; fewer = λ a. m.fewer a })
  ]

  pub handle_cmd_send-NoMore : (s : Service T) (cmd : Cmd) → NoMore L s (handle_cmd_send s cmd)
  unfolding handle_cmd_send
  handle_cmd_send-NoMore s cmd = elim (Option-cases (get T.list s.link_list cmd.client_id)) [
    | inl e ↦ rw (e, handle_cmd_send) (refl-NoMore L s)
    | inr (p, e) ↦ elim (Option-cases (live_handle s (link_at s p))) [
      | inl f ↦ rw (e, handle_cmd_send) (rw f (refl-NoMore L s))
      | inr (h, f) ↦ rw (e, handle_cmd_send) (rw f (send_to-NoMore s cmd p h))
    ]
  ]
