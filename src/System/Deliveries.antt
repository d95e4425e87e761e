-- ===== src/System/Deliveries.antt =====
-- A message that the main thread sends, from the call to the write that is done.
use serverlynx.Prelude.{
  ℕ, pos, suc, ◌+◌, ◌%◌, ◌^◌, ◌<◌, ◌≤◌, ◌≡◌, ◌≢◌, refl, sym, ap, ◌∙◌, none, some, ◌∷◌, count,
  length, success, arith, inl, inr,
}
use serverlynx.Tn.{Tn, IsTn}
use serverlynx.Tn.Cmds.{Cmd, CmdType}
use serverlynx.Service.{Service, WriteReq}
use serverlynx.Service.Commands.Laws.{sends, call}
use serverlynx.Io.Sending.{send_to, write_with, set_req, handle_cmd_send, on_send_cb}
use serverlynx.Io.Sending.Laws.{Live, Live-target, free_reqs, HasRoom, on_send_cb_lem}
use serverlynx.Io.Commands.{dispatch, on_check_cb}
use serverlynx.Io.Commands.Laws.{held}
use serverlynx.Io.Commands.Order.{execute}
use serverlynx.System.Requests.{on_check_cb-call}

-- The request as a send command fills it.
abbrev pub filled : ℕ → ℕ → ℕ → ℕ → WriteReq
filled p msg msglen id = record { link = p; buf_base = msg; buf_len = msglen; cmd_id = id }

module _ {T : Tn} where
  -- What a send command does to a live link, where libuv takes the write.
  abbrev written_by : Service T → ℕ → ℕ → ℕ → ℕ → ℕ → T.list.Carrier → T.uv.World → Service T
  written_by s p msg msglen id r l w = record s {
    send_req = set_req s.send_req r (filled p msg msglen id);
    send_req_list = l;
    world = w;
  }

  write-written_by :
      (s : Service T) (p h r : ℕ) (l : T.list.Carrier) (w : T.uv.World) (cmd : Cmd)
      → T.uv.write s.world r h cmd.buffer cmd.len ≡ (pos 0, w)
      → write_with (record s { send_req_list = l }) cmd p h r
        ≡ written_by s p cmd.buffer cmd.len cmd.id r l w
  unfolding write_with
  write-written_by s p h r l w cmd e = rw (e, write_with) refl

  send-written_by :
      (s : Service T) (p h msg msglen id r : ℕ) (l : T.list.Carrier) (w : T.uv.World) (cmd : Cmd)
      → Live s p h
      → cmd.type ≡ CmdType.client_send
      → (cmd.client_id ≡ p) × (cmd.buffer ≡ msg) × (cmd.len ≡ msglen)
      → cmd.id ≡ id
      → T.list.pop_back s.send_req_list ≡ some (r, l)
      → T.uv.write s.world r h msg msglen ≡ (pos 0, w)
      → dispatch cmd.type s cmd ≡ written_by s p msg msglen id r l w
  unfolding dispatch handle_cmd_send send_to
  send-written_by s p h msg msglen id r l w cmd live kind (client, base, len) named popped wrote =
      let (found, handle) = Live-target s p h live in
      rw (kind, client)
        (rw (found, handle_cmd_send)
          (rw handle (
            rw (popped, send_to)
              (unfold write_with in
                write-written_by s p h r l w cmd (rw (base, len) wrote)
                ∙ rw (base, len, named) refl))))

module _ {T : Tn} (L : IsTn T) where
  -- A message that the main thread sends goes out: after a call that succeeds for a live link, the IO
  -- thread's next callback gives libuv a write request that notes the link, the bytes and the id that
  -- the call returned, and no other request is touched; and when libuv is done with the request, in
  -- whatever world `done` and with nothing else in between, the free requests are as they were and the
  -- length is counted, modulo 2^64. `v` is what the commands that waited before make of the service.
  -- It is assumed that `v` has a free request and room in its list, that libuv takes the write, that
  -- each command is in the lists at most once, and that a command that is not free can be freed; the
  -- fuel is more than the commands that wait after the call.
  pub on_send_cb-cmd_send :
      ((c : T.cmds.Carrier) (x : Cmd)
        → count x.id (L.cmds.free c) ≡ 0
        → T.cmds.free_push c x ≢ none)
      → (s s' : Service T) (p h msg msglen id r fuel : ℕ) (l : T.list.Carrier) (w done : T.uv.World)
      → ((a : ℕ) → held L a s ≤ 1)
      → call s (sends p msg msglen) ≡ (success, id, s')
      → suc (length (L.cmds.ready s.cmds)) < fuel
      → let v = execute (L.cmds.ready s.cmds) s in
        Live v p h
        → HasRoom L v
        → T.list.pop_back v.send_req_list ≡ some (r, l)
        → T.uv.write v.world r h msg msglen ≡ (pos 0, w)
        → (t : Service T) × (on_check_cb fuel s' ≡ some t)
          × (t.world ≡ w)
          × (L.uv.pending t.world ≡ r ∷ L.uv.pending v.world)
          × (t.send_req r ≡ filled p msg msglen id)
          × ((q : ℕ) → r ≢ q → t.send_req q ≡ v.send_req q)
          × (let u = on_send_cb (record t { world = done }) r (pos 0) in
              (free_reqs L u ≡ free_reqs L v)
              × (u.send_bytes ≡ (v.send_bytes + msglen) % 2 ^ 64)
              × (u.send_msgs ≡ (v.send_msgs + 1) % 2 ^ 64))
  on_send_cb-cmd_send fits s s' p h msg msglen id r fuel l w done once e enough live room popped
        wrote =
      let v = execute (L.cmds.ready s.cmds) s in
      let (t, ended, x) = on_check_cb-call L fits (sends p msg msglen) s s' id fuel once e enough in
      let (c, effect) = x.effect in
      let did : t ≡ record (written_by v p msg msglen id r l w) { cmds = c } =
        effect
        ∙ ap (λ (u : Service T). let z : Service T = record u { cmds = c } in z)
            (send-written_by v p h msg msglen id r l w x.cmd live x.kind x.carries x.named popped
              wrote) in
      let (items, reserved) = L.list.items-pop_back v.send_req_list l r popped in
      let (pending, _) = L.uv.write_accepted v.world w r h msg msglen wrote in
      let z : Service T = record (written_by v p msg msglen id r l w) { cmds = c; world = done } in
      let roomy : length (free_reqs L z) < L.list.reserved z.send_req_list =
        (let n = ap length items in omega arith) in
      let own : z.send_req r ≡ filled p msg msglen id = ground arith in
      let (free, counted) = on_send_cb_lem L z r (pos 0) roomy in
      (
        t,
        ended,
        rw did refl,
        rw did pending,
        rw did own,
        rw did (λ q n. ground arith),
        rw did (
          free ∙ sym items,
          elim counted [
            | inl (_, msgs, bytes) ↦ bytes ∙ ap (λ k. (v.send_bytes + k.buf_len) % 2 ^ 64) own
            | inr (failed, _, _) ↦ absurd (failed refl)
          ],
          elim counted [ inl (_, msgs, bytes) ↦ msgs | inr (failed, _, _) ↦ absurd (failed refl) ],
        ),
      )
