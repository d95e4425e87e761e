-- ===== src/Programs/Handlers.antt =====
-- What the programs ask of the service: the answers of svlynx_sv, and the connection and the messages of
-- svlynx_lg.
use serverlynx.Prelude.{ℕ, ◌+◌, ◌≡◌, ◌≢◌, sym, ap, ◌∙◌, none, [], ◌∷◌, ◌++◌, count, success, arith}
use serverlynx.Tn.{Tn, IsTn}
use serverlynx.Tn.Cmds.{Cmd, client_send}
use serverlynx.Tn.Events.{Event, client_read}
use serverlynx.Service.{Service}
use serverlynx.Service.Commands.Laws.{sends, Submitted, call, call-Outcome, accepted}
use serverlynx.Service.Updates.{release_one}
use serverlynx.Service.Updates.Laws.{release_one-Returned, BufferFits}
use serverlynx.Programs.Server.{handle_client_read}

module _ {T : Tn} (L : IsTn T) where
  -- An answer of svlynx_sv that succeeds is a send command at the end of the queue: it goes to the link
  -- of the variable that was never set, whichever link the event is of, and it points into the buffer
  -- of the event. When the event is then released, if no push fails, that buffer is in the read pool
  -- once more, and the command still waits.
  pub handle_client_read_lem :
      (stray : ℕ) (s t : Service T) (x : Event)
      → handle_client_read stray s x ≡ (success, t)
      → x.type ≡ client_read
      → BufferFits client_read x.priv t
      → T.events.free_push t.events x ≢ none
      → (c : Cmd) × ((c.type ≡ client_send)
          × (c.client_id ≡ stray)
          × (c.buffer ≡ T.buffers.read_ptr t.heap x.priv)
          × (c.len ≡ T.buffers.read_length t.heap x.priv))
        × (L.cmds.ready (release_one x t).cmds ≡ L.cmds.ready s.cmds ++ c ∷ [])
        × (count x.priv (L.pool.items (release_one x t).pool_read)
            ≡ 1 + count x.priv (L.pool.items t.pool_read))
  unfolding handle_client_read
  handle_client_read_lem stray s t x e is_read fits event_fits =
      let heap = T.buffers.read_reset s.heap x.priv in
      let s' : Service T = record s { heap = heap } in
      let msg = T.buffers.read_ptr heap x.priv in
      let len = T.buffers.read_length heap x.priv in
      let r = sends stray msg len in
      let ok : (call s' r).0 ≡ success = ap (λ p. p.0) e in
      let sub : Submitted L r s' (call s' r).1 (call s' r).2 =
        accepted L r s' (call s' r) (call-Outcome L r s').0 ok in
      let end : (call s' r).2 ≡ t = ap (λ p. p.1) e in
      let same : t.heap ≡ heap =
        sym (ap (λ (u : Service T). u.heap) end) ∙ ap (λ (u : Service T). u.heap) sub.rest in
      let back = release_one-Returned L x t (rw is_read fits) event_fits in
      (
        sub.cmd,
        rw same (sub.kind, sub.carries.0, sub.carries.1, sub.carries.2),
        cc (
          ap (λ (u : Service T). L.cmds.ready u.cmds) back.rest,
          ap (λ (u : Service T). L.cmds.ready u.cmds) end,
          sub.queued,
        ),
        let one = rw is_read at back.buffers x.priv in ground arith,
      )
