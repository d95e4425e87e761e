-- ===== src/Io/Sending.antt =====
-- `on_send_cb` and `handle_cmd_send` of svlynx/service_internal.c. A request is its index in the
-- array `send_req`.
pub mod Laws
pub mod Holders
pub mod Untouched
pub mod Blind
use serverlynx.Prelude.{
  ℕ, ◌+◌, ◌%◌, ◌^◌, ℤ, pos, Bool, true, false, Option, none, some, ◌==◌, if◌then◌else◌, ◌||◌, not,
}
use serverlynx.Tn.{Tn}
use serverlynx.Tn.Cmds.{Cmd}
use serverlynx.Link.{Link, LinkState, opened}
use serverlynx.Link.List.{get}
use serverlynx.Service.{Service, WriteReq}
use serverlynx.Io.{is_zero, kept, link_at}

abbrev pub is_open : LinkState → Bool
is_open opened = true
is_open _ = false

abbrev pub set_req : (ℕ → WriteReq) → ℕ → WriteReq → ℕ → WriteReq
set_req m i r k = if i == k then r else m k

module _ {T : Tn} where
  -- The handle of a link that is open and not closing: the guard of both `handle_cmd_close` and
  -- `handle_cmd_send`.
  unfoldable pub live_handle : Service T → Link → Option ℕ
  live_handle s l = elim l.priv [
    | none ↦ none
    | some h ↦ if not (is_open l.state) || T.uv.is_closing s.world h then none else some h
  ]

  unfoldable pub give_req : ℕ → Service T → Service T
  give_req r s = record s {
    send_req_list = kept (T.list.push_back s.send_req_list r) s.send_req_list;
  }

  abbrev pub counted_send : Service T → ℕ → Service T
  counted_send s r = record s {
    send_msgs = (s.send_msgs + 1) % 2 ^ 64;
    send_bytes = (s.send_bytes + (s.send_req r).buf_len) % 2 ^ 64;
  }

  unfoldable pub on_send_cb : Service T → ℕ → ℤ → Service T
  unfolding give_req
  on_send_cb s r status = give_req r (if is_zero status then counted_send s r else s)

  -- The write itself, with the request `r`. The length of a `uv_buf_t` is taken to be a `size_t`, as it is
  -- but on Windows, so that `TN_BUFLEN_CAST` keeps it.
  unfoldable pub write_with : Service T → Cmd → ℕ → ℕ → ℕ → Service T
  unfolding give_req
  write_with s cmd p h r =
      let t = record s {
        send_req =
            set_req s.send_req r
              (record { link = p; buf_base = cmd.buffer; buf_len = cmd.len; cmd_id = cmd.id });
      } in
      let (code, w) = T.uv.write s.world r h cmd.buffer cmd.len in
      if is_zero code then record t { world = w } else give_req r (record t { world = w })

  unfoldable pub send_to : Service T → Cmd → ℕ → ℕ → Service T
  unfolding write_with
  send_to s cmd p h = elim (T.list.pop_back s.send_req_list) [
    | none ↦ s
    | some (r, l) ↦ write_with (record s { send_req_list = l }) cmd p h r
  ]

  unfoldable pub handle_cmd_send : Service T → Cmd → Service T
  unfolding send_to
  handle_cmd_send s cmd = elim (get T.list s.link_list cmd.client_id) [
    | none ↦ s
    | some p ↦ elim (live_handle s (link_at s p)) [ none ↦ s | some h ↦ send_to s cmd p h ]
  ]
