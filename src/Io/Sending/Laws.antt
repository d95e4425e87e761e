-- ===== src/Io/Sending/Laws.antt =====
-- Where the write requests are, and to which links a send command writes.
use serverlynx.Prelude.{
  ℕ, ℤ, pos, ◌+◌, ◌%◌, ◌^◌, ◌≡◌, ◌≢◌, refl, sym, ap, ◌∙◌, ◌<◌, ◌≤◌, ◌⊎◌, inl, inr, false, none,
  some, List, ◌∷◌, count, length, arith, Option-cases, Bool-cases,
}
use serverlynx.Tn.{Tn, IsTn}
use serverlynx.Tn.Cmds.{Cmd}
use serverlynx.Link.{Link, opened}
use serverlynx.Link.List.{get}
use serverlynx.Service.{Service}
use serverlynx.Io.{is_zero, link_at}
use serverlynx.Io.Ensures.{is_zero→eq, is_zero→ne}
use serverlynx.Io.Sending.{
  live_handle, give_req, counted_send, on_send_cb, write_with, send_to, handle_cmd_send,
}

-- The client id names a link that is open, and `h` is its handle and not closing.
pub record Live {T : Tn} (s : Service T) (id h : ℕ) : Type 0 where
  pub in_array : id < s.link_list.clients_max
  pub handle : (link_at s id).priv ≡ some h
  pub is_opened : (link_at s id).state ≡ opened
  pub running : T.uv.is_closing s.world h ≡ false

module _ {T : Tn} where
  live_handle_lem :
      (s : Service T) (l : Link) (h : ℕ)
      → live_handle s l ≡ some h
      → (l.priv ≡ some h) × (l.state ≡ opened) × (T.uv.is_closing s.world h ≡ false)
  unfolding live_handle
  live_handle_lem s l h e = ground arith

  get_target :
      (s : Service T) (id p : ℕ)
      → get T.list s.link_list id ≡ some p
      → (id ≡ p) × (id < s.link_list.clients_max)
  unfolding get
  get_target s id p e = ground arith

  -- Both commands about a link look for it in the same way: they find a live link, or nothing.
  pub target_cases :
      (s : Service T) (id : ℕ)
      → ((h : ℕ) × Live s id h
          × (get T.list s.link_list id ≡ some id)
          × (live_handle s (link_at s id) ≡ some h))
        ⊎ (get T.list s.link_list id ≡ none)
        ⊎ ((p : ℕ) × (get T.list s.link_list id ≡ some p) × (live_handle s (link_at s p) ≡ none))
  target_cases s id = elim (Option-cases (get T.list s.link_list id)) [
    | inl e ↦ inr (inl e)
    | inr (p, e) ↦ elim (Option-cases (live_handle s (link_at s p))) [
      | inl f ↦ inr (inr (p, e, f))
      | inr (h, f) ↦
          let (same, lt) = get_target s id p e in
          let g : live_handle s (link_at s id) ≡ some h = rw same f in
          let (handle, is_opened, running) = live_handle_lem s (link_at s id) h g in
          inl (
            h,
            record { in_array = lt; handle = handle; is_opened = is_opened; running = running },
            e ∙ ap some (sym same),
            g,
          )
    ]
  ]

  -- A live link is found.
  pub Live-target :
      (s : Service T) (id h : ℕ)
      → Live s id h
      → (get T.list s.link_list id ≡ some id) × (live_handle s (link_at s id) ≡ some h)
  unfolding get live_handle
  Live-target s id h l =
      let found : get T.list s.link_list id ≡ some id = (let b = l.in_array in ground arith) in
      let live : live_handle s (link_at s id) ≡ some h =
        (let a = l.handle in let b = l.is_opened in let c = l.running in ground arith) in
      (found, live)

  -- A send command changes nothing at all, and writes nothing, unless its client id names a link
  -- that is open and whose handle is not closing.
  pub send_needs-Live :
      (s : Service T) (cmd : Cmd) → ((h : ℕ) × Live s cmd.client_id h) ⊎ (handle_cmd_send s cmd ≡ s)
  unfolding handle_cmd_send
  send_needs-Live s cmd = elim (target_cases s cmd.client_id) [
    | inl (h, live, _, _) ↦ inl (h, live)
    | inr (inl e) ↦ inr (rw (e, handle_cmd_send) refl)
    | inr (inr (p, e, f)) ↦ inr (rw (e, handle_cmd_send) (rw f refl))
  ]

module _ {T : Tn} (L : IsTn T) where
  abbrev pub free_reqs : Service T → List ℕ
  free_reqs s = L.list.items s.send_req_list

  -- How often a request is free or with libuv.
  abbrev pub req_holders : Service T → ℕ → ℕ
  req_holders s r = count r (free_reqs s) + count r (L.uv.pending s.world)

  -- The list of requests has room for what it holds.
  abbrev pub HasRoom : Service T → Type 0
  HasRoom s = length (free_reqs s) ≤ L.list.reserved s.send_req_list

  give_req-items :
      (r : ℕ) (s : Service T)
      → length (free_reqs s) < L.list.reserved s.send_req_list
      → (free_reqs (give_req r s) ≡ r ∷ free_reqs s) × HasRoom (give_req r s)
  unfolding give_req
  give_req-items r s room = elim (Option-cases (T.list.push_back s.send_req_list r)) [
    | inl e ↦ absurd (L.list.push_back_room _ r room e)
    | inr (l, e) ↦
        let (items, more) = L.list.items-push_back s.send_req_list l r e in
        rw e (items, (rw items (omega arith)))
  ]

  write_with-holders :
      (s : Service T) (cmd : Cmd) (p h r q : ℕ)
      → length (free_reqs s) < L.list.reserved s.send_req_list
      → (req_holders (write_with s cmd p h r) q
          ≡ count q (r ∷ free_reqs s) + count q (L.uv.pending s.world))
        × HasRoom (write_with s cmd p h r)
  unfolding write_with
  write_with-holders s cmd p h r q room = elim (Bool-cases (is_zero answer.0)) [
    | inl e ↦
        let (pending, _) =
          L.uv.write_accepted s.world answer.1 r h cmd.buffer cmd.len
            (ap (λ (c : ℤ). let y : ℤ × T.uv.World = (c, answer.1) in y) (is_zero→eq answer.0 e)) in
        rw (e, write_with) ((let c = ap (count q) pending in omega arith), omega arith)
    | inr e ↦
        let (pending, _) =
          L.uv.write_refused s.world answer.1 r h cmd.buffer cmd.len answer.0 refl
            (is_zero→ne answer.0 e) in
        let (items, roomy) = give_req-items r s room in
        rw (e, write_with)
          ((let c = ap (count q) pending in let d = ap (count q) items in omega arith), roomy)
  ]
    where
      answer : ℤ × T.uv.World
      answer = T.uv.write s.world r h cmd.buffer cmd.len

  send_to-holders :
      (s : Service T) (cmd : Cmd) (p h q : ℕ)
      → HasRoom s
      → (req_holders (send_to s cmd p h) q ≡ req_holders s q) × HasRoom (send_to s cmd p h)
  unfolding send_to
  send_to-holders s cmd p h q room = elim (Option-cases (T.list.pop_back s.send_req_list)) [
    | inl e ↦ rw (e, send_to) (refl, room)
    | inr ((r, l), e) ↦
        let (items, more) = L.list.items-pop_back s.send_req_list l r e in
        let t : Service T = record s { send_req_list = l } in
        let (held, roomy) =
          write_with-holders t cmd p h r q (let n = ap length items in omega arith) in
        rw (e, send_to) (held ∙ (let c = ap (count q) items in omega arith), roomy)
  ]

  -- No write request is lost or duplicated by a send command, whether libuv takes the write or
  -- refuses it: each stands as often as before in the list of free requests or with libuv.
  pub send-holders :
      (s : Service T) (cmd : Cmd) (q : ℕ)
      → HasRoom s
      → (req_holders (handle_cmd_send s cmd) q ≡ req_holders s q) × HasRoom (handle_cmd_send s cmd)
  unfolding handle_cmd_send
  send-holders s cmd q room = elim (Option-cases (get T.list s.link_list cmd.client_id)) [
    | inl e ↦ rw (e, handle_cmd_send) (refl, room)
    | inr (p, e) ↦ elim (Option-cases (live_handle s (link_at s p))) [
      | inl f ↦ rw (e, handle_cmd_send) (rw f (refl, room))
      | inr (h, f) ↦ rw (e, handle_cmd_send) (rw f (send_to-holders s cmd p h q room))
    ]
  ]

  -- When libuv is done with a request, it is the next one to be used again, and what was sent is
  -- counted, modulo 2^64, exactly if the status says that it was.
  pub on_send_cb_lem :
      (s : Service T) (r : ℕ) (status : ℤ)
      → length (free_reqs s) < L.list.reserved s.send_req_list
      → let t = on_send_cb s r status in
        (free_reqs t ≡ r ∷ free_reqs s)
        × (((status ≡ pos 0)
              × (t.send_msgs ≡ (s.send_msgs + 1) % 2 ^ 64)
              × (t.send_bytes ≡ (s.send_bytes + (s.send_req r).buf_len) % 2 ^ 64))
            ⊎ ((status ≢ pos 0) × (t.send_msgs ≡ s.send_msgs) × (t.send_bytes ≡ s.send_bytes)))
  unfolding on_send_cb
  on_send_cb_lem s r status room = elim (Bool-cases (is_zero status)) [
    | inl e ↦
        rw e ((give_req-items r (counted_send s r) room).0, inl (is_zero→eq status e, refl, refl))
    | inr e ↦ rw e ((give_req-items r s room).0, inr (is_zero→ne status e, refl, refl))
  ]

module _ {T : Tn} where
  send_to-cmds : (s : Service T) (cmd : Cmd) (p h : ℕ) → (send_to s cmd p h).cmds ≡ s.cmds
  unfolding send_to
  send_to-cmds s cmd p h = ground arith

  pub handle_cmd_send-cmds : (s : Service T) (cmd : Cmd) → (handle_cmd_send s cmd).cmds ≡ s.cmds
  unfolding handle_cmd_send
  handle_cmd_send-cmds s cmd = elim (target_cases s cmd.client_id) [
    | inl (h, live, e, f) ↦ rw (e, handle_cmd_send) (rw f (send_to-cmds s cmd cmd.client_id h))
    | inr (inl e) ↦ rw (e, handle_cmd_send) refl
    | inr (inr (p, e, f)) ↦ rw (e, handle_cmd_send) (rw f refl)
  ]
