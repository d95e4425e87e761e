-- ===== src/Io/Sending/Untouched.antt =====
-- Sending does not touch the list of links.
use serverlynx.Prelude.{ℕ, ℤ, ◌≡◌, refl, Option-cases, Bool-cases, inl, inr}
use serverlynx.Tn.{Tn}
use serverlynx.Tn.Cmds.{Cmd}
use serverlynx.Link.List.{get}
use serverlynx.Service.{Service}
use serverlynx.Io.{is_zero, link_at}
use serverlynx.Io.Sending.{live_handle, give_req, write_with, send_to, handle_cmd_send, on_send_cb}

module _ {T : Tn} where
  pub on_send_cb-links :
      (s : Service T) (r : ℕ) (status : ℤ) → (on_send_cb s r status).link_list ≡ s.link_list
  unfolding on_send_cb give_req
  on_send_cb-links s r status = elim (Bool-cases (is_zero status)) [
    | inl e ↦ rw e refl
    | inr e ↦ rw e refl
  ]

  write_with-links :
      (s : Service T) (cmd : Cmd) (p h r : ℕ) → (write_with s cmd p h r).link_list ≡ s.link_list
  unfolding write_with give_req
  write_with-links s cmd p h r =
      elim (Bool-cases (is_zero (T.uv.write s.world r h cmd.buffer cmd.len).0)) [
        | inl e ↦ rw (e, write_with) refl
        | inr e ↦ rw (e, write_with) refl
      ]

  send_to-links :
      (s : Service T) (cmd : Cmd) (p h : ℕ) → (send_to s cmd p h).link_list ≡ s.link_list
  unfolding send_to
  send_to-links s cmd p h = elim (Option-cases (T.list.pop_back s.send_req_list)) [
    | inl e ↦ rw (e, send_to) refl
    | inr ((r, l), e) ↦
        rw (e, send_to) (write_with-links (record s { send_req_list = l }) cmd p h r)
  ]

  pub handle_cmd_send-links :
      (s : Service T) (cmd : Cmd) → (handle_cmd_send s cmd).link_list ≡ s.link_list
  unfolding handle_cmd_send
  handle_cmd_send-links s cmd = elim (Option-cases (get T.list s.link_list cmd.client_id)) [
    | inl e ↦ rw (e, handle_cmd_send) refl
    | inr (p, e) ↦ elim (Option-cases (live_handle s (link_at s p))) [
      | inl f ↦ rw (e, handle_cmd_send) (rw f refl)
      | inr (h, f) ↦ rw (e, handle_cmd_send) (rw f (send_to-links s cmd p h))
    ]
  ]
