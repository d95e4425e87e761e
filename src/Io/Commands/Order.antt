-- ===== src/Io/Commands/Order.antt =====
-- The loop over the commands against executing them one after the other.
use serverlynx.Prelude.{
  ℕ, zero, suc, ◌<◌, ◌≤◌, ◌≡◌, ◌≢◌, refl, sym, ap, ◌∙◌, none, some, List, [], ◌∷◌, count, length,
  Option-cases, inl, inr, arith,
}
use serverlynx.Tn.{Tn, IsTn}
use serverlynx.Tn.Cmds.{Cmd, CmdType, client_open, client_close, client_send}
use serverlynx.Link.List.{get}
use serverlynx.Service.{Service}
use serverlynx.Io.{link_at}
use serverlynx.Io.Blind.{put, Ignores}
use serverlynx.Io.Sending.{live_handle}
use serverlynx.Io.Sending.Blind.{Ignores-handle_cmd_send}
use serverlynx.Io.Connecting.Blind.{Ignores-handle_cmd_open}
use serverlynx.Io.Commands.{handle_cmd_close, dispatch, free_cmd, on_check_cb}
use serverlynx.Io.Commands.Laws.{held, free_cmd_lem, dispatch-cmds}

module _ (T : Tn) where
  Ignores-handle_cmd_close :
      (c : T.cmds.Carrier) (cmd : Cmd) → Ignores T c (λ s. handle_cmd_close s cmd)
  unfolding Ignores handle_cmd_close live_handle
  Ignores-handle_cmd_close c cmd s = elim (Option-cases (get T.list s.link_list cmd.client_id)) [
    | inl e ↦ rw (e, handle_cmd_close) refl
    | inr (p, e) ↦ elim (Option-cases (live_handle s (link_at s p))) [
      | inl f ↦ rw (e, handle_cmd_close) (rw (f, handle_cmd_close) refl)
      | inr (h, f) ↦ rw (e, handle_cmd_close) (rw (f, handle_cmd_close) refl)
    ]
  ]

module _ {T : Tn} where
  dispatch-put :
      (c : T.cmds.Carrier) (k : CmdType) (s : Service T) (cmd : Cmd)
      → dispatch k (put T c s) cmd ≡ put T c (dispatch k s cmd)
  unfolding dispatch Ignores
  dispatch-put c client_open s cmd = Ignores-handle_cmd_open T c cmd s
  dispatch-put c client_close s cmd = Ignores-handle_cmd_close T c cmd s
  dispatch-put c client_send s cmd = Ignores-handle_cmd_send T c cmd s

  -- The commands of a list, in its order, each by its handler.
  abbrev pub execute : List Cmd → Service T → Service T
  execute [] s = s
  execute (x ∷ xs) s = execute xs (dispatch x.type s x)

  pub execute-put :
      (c : T.cmds.Carrier) (xs : List Cmd) (s : Service T)
      → execute xs (put T c s) ≡ put T c (execute xs s)
  execute-put c [] s = refl
  execute-put c (x ∷ xs) s =
      ap (execute xs) (dispatch-put c x.type s x) ∙ execute-put c xs (dispatch x.type s x)

module _ {T : Tn} (L : IsTn T) where
  -- The callback does to the service what executing the commands that wait does, the oldest first and
  -- each once, and beside that only changes the lists of commands. It is assumed that each command is
  -- in the lists at most once, and that a command that is not free can be freed; the fuel is more than
  -- commands wait.
  pub on_check_cb-execute :
      ((c : T.cmds.Carrier) (x : Cmd)
        → count x.id (L.cmds.free c) ≡ 0
        → T.cmds.free_push c x ≢ none)
      → (fuel : ℕ) (s : Service T) → ((a : ℕ) → held L a s ≤ 1)
      → length (L.cmds.ready s.cmds) < fuel
      → (c : T.cmds.Carrier) × (on_check_cb fuel s
          ≡ some (record (execute (L.cmds.ready s.cmds) s) { cmds = c }))
  unfolding on_check_cb free_cmd
  on_check_cb-execute fits zero s once enough = absurd (omega arith)
  on_check_cb-execute fits (suc fuel) s once enough =
      elim (Option-cases (T.cmds.ready_pop_back s.cmds)) [
        | inl e ↦
            let empty = L.cmds.ready_pop_back_none s.cmds e in
            (s.cmds, rw (e, on_check_cb) (rw empty refl))
        | inr ((cmd, cmds), e) ↦
            let s' : Service T = record s { cmds = cmds } in
            let u = dispatch cmd.type s' cmd in
            let v = free_cmd cmd u in
            let (rest, same) =
              free_cmd_lem L s u cmd cmds fits once e (dispatch-cmds cmd.type s' cmd) in
            let (c, done) =
              on_check_cb-execute fits fuel v (λ a. rw (same a) (once a))
                (let h = rw rest at enough in omega arith) in
            let waiting = L.cmds.ready v.cmds in
            let d = dispatch cmd.type s cmd in
            let same_v : v ≡ put T v.cmds d =
              ap (put T v.cmds) (dispatch-put cmds cmd.type s cmd) in
            let as_one : execute waiting v ≡ put T v.cmds (execute waiting d) =
              ap (execute waiting) same_v ∙ execute-put v.cmds waiting d in
            (
              c,
              rw (e, on_check_cb)
                  (done
                    ∙ ap (λ x. some (put T c x)) as_one
                    ∙ ap (λ l. some (put T c (execute l s))) (sym rest)),
            )
      ]
