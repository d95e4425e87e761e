-- ===== src/Service/Commands/Laws.antt =====
-- What a call of the main thread does to the two command lists.
use serverlynx.Prelude.{
  ◌⊎◌, ℕ, ◌≡◌, refl, sym, ap, ◌∙◌, inl, inr, true, [], ◌∷◌, ◌++◌, count, Status, success, failure,
  arith, Option-cases, Bool-cases,
}
use serverlynx.Tn.{Tn, IsTn}
use serverlynx.Tn.Cmds.{Cmd, CmdType, client_open, client_close, client_send}
use serverlynx.Service.{Service, ServiceState, started}
use serverlynx.Service.Commands.{uint64_max, is_started, submit, cmd_open, cmd_close, cmd_send}

-- The three calls, as data.
pub data Request : Type 0 where
  opens : ℕ → Request
  closes : ℕ → Request
  sends : ℕ → ℕ → ℕ → Request

abbrev pub kind_of : Request → CmdType
kind_of (opens endpoint) = client_open
kind_of (closes client_id) = client_close
kind_of (sends client_id msg msglen) = client_send

-- The command carries what the call was given.
abbrev pub Carries : Request → Cmd → Type 0
Carries (opens endpoint) x = x.endpoint ≡ endpoint
Carries (closes client_id) x = x.client_id ≡ client_id
Carries (sends client_id msg msglen) x =
    (x.client_id ≡ client_id) × (x.buffer ≡ msg) × (x.len ≡ msglen)

module _ {T : Tn} where
  abbrev pub call : Service T → Request → Status × ℕ × Service T
  call s (opens endpoint) = cmd_open s endpoint
  call s (closes client_id) = cmd_close s client_id
  call s (sends client_id msg msglen) = cmd_send s client_id msg msglen

module _ {T : Tn} (L : IsTn T) where
  -- One command has gone from the free list to the end of the ready queue, and nothing else of the
  -- service has changed.
  pub record Submitted (r : Request) (s : Service T) (id : ℕ) (s' : Service T) : Type 0 where
    pub cmd : Cmd
    pub kind : cmd.type ≡ kind_of r
    pub carries : Carries r cmd
    pub named : cmd.id ≡ id
    pub queued : L.cmds.ready s'.cmds ≡ L.cmds.ready s.cmds ++ cmd ∷ []
    pub taken : (a : ℕ) → count a (L.cmds.free s.cmds) ≡ count a (id ∷ L.cmds.free s'.cmds)
    pub rest : s' ≡ record s { cmds = s'.cmds }

  -- What `submit` returns: the call succeeded; or no command of the kind was free; or one was, and
  -- is now in neither list.
  pub data Outcome (r : Request) (s : Service T) : Status × ℕ × Service T → Type 0 where
    submitted : {id : ℕ} {s' : Service T} → Submitted r s id s' → Outcome r s (success, id, s')
    refused : Outcome r s (failure, uint64_max, s)
    dropped :
        {id : ℕ} {cmds : T.cmds.Carrier}
        → L.cmds.ready cmds ≡ L.cmds.ready s.cmds
        → ((a : ℕ) → count a (L.cmds.free s.cmds) ≡ count a (id ∷ L.cmds.free cmds))
        → Outcome r s (failure, id, record s { cmds = cmds })

  -- A call that succeeds has queued its command.
  pub accepted :
      (r : Request) (s : Service T) (p : Status × ℕ × Service T)
      → Outcome r s p
      → p.0 ≡ success
      → Submitted r s p.1 p.2
  accepted r s p (submitted x) e = x
  accepted r s p refused e = absurd (ground arith)
  accepted r s p (dropped a b) e = absurd (ground arith)

  submit-Outcome :
      (r : Request) (fill : Cmd → Cmd) (s : Service T)
      → ((x : Cmd)
          → x.type ≡ kind_of r
          → ((fill x).type ≡ kind_of r) × ((fill x).id ≡ x.id) × Carries r (fill x))
      → Outcome r s (submit (kind_of r) fill s)
  unfolding submit
  submit-Outcome r fill s filled = elim (Option-cases (T.cmds.free_pop s.cmds (kind_of r))) [
    | inl e ↦ rw (e, submit) refused
    | inr ((x, cmds), e) ↦
        let (kind, same, taken) = L.cmds.free_pop_lem _ cmds (kind_of r) x e in
        let (k, n, c) = filled x kind in
        elim (Option-cases (T.cmds.ready_push cmds (fill x))) [
          | inl f ↦ rw (e, submit) (rw (f, submit) (dropped same taken))
          | inr (cmds', f) ↦
              let (queued, free) = L.cmds.ready_push_lem cmds cmds' (fill x) f in
              rw (e, submit)
                (rw (f, submit)
                  (submitted (record {
                    cmd = fill x;
                    kind = k;
                    carries = c;
                    named = n;
                    queued = queued ∙ ap (λ l. l ++ fill x ∷ []) same;
                    taken = λ a. taken a ∙ ap (λ l. count a (x.id ∷ l)) (sym free);
                    rest = refl;
                  })))
        ]
  ]

  started_of : (x : ServiceState) → is_started x ≡ true → x ≡ started
  started_of x h = ground arith

  pub call-Outcome :
      (r : Request) (s : Service T)
      → Outcome r s (call s r) × ((s.state ≡ started) ⊎ (call s r ≡ (failure, uint64_max, s)))
  unfolding cmd_open cmd_close cmd_send
  call-Outcome (opens endpoint) s = elim (Bool-cases (is_started s.state)) [
    | inl b ↦ (
      rw b (
          submit-Outcome (opens endpoint) (λ x. record x { endpoint = endpoint }) s
            λ x k. (k, refl, refl)),
      inl (started_of s.state b),
    )
    | inr b ↦ (rw b refused, inr (rw b refl))
  ]
  call-Outcome (closes client_id) s = elim (Bool-cases (is_started s.state)) [
    | inl b ↦ (
      rw b (
          submit-Outcome (closes client_id) (λ x. record x { client_id = client_id }) s
            λ x k. (k, refl, refl)),
      inl (started_of s.state b),
    )
    | inr b ↦ (rw b refused, inr (rw b refl))
  ]
  call-Outcome (sends client_id msg msglen) s = elim (Bool-cases (is_started s.state)) [
    | inl b ↦ (sent b, inl (started_of s.state b))
    | inr b ↦ (rw b refused, inr (rw b refl))
  ]
    where
      sent :
          is_started s.state ≡ true
          → Outcome (sends client_id msg msglen) s (cmd_send s client_id msg msglen)
      sent b = elim (Option-cases (T.queue.peek s.write_reqs_free)) [
        | inl e ↦ rw b (rw (e, cmd_send) refused)
        | inr (q, e) ↦ rw b (
            rw (e, cmd_send)
              (submit-Outcome (sends client_id msg msglen)
                (λ x. record x { client_id = client_id; buffer = msg; len = msglen; priv = q }) s
                λ x k. (k, refl, (refl, refl, refl))))
      ]
