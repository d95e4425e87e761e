-- ===== src/Io/Commands/Laws.antt =====
-- The close command, and the loop over the commands that wait.
use serverlynx.Prelude.{
  ℕ, zero, suc, ◌+◌, ◌≡◌, ◌≢◌, refl, sym, ap, ◌∙◌, ◌<◌, ◌≤◌, ◌⊎◌, inl, inr, ◌||◌, none, some, List,
  [], ◌∷◌, map, count, length, arith, Option-cases, ◌==◌,
}
use serverlynx.Tn.{Tn, IsTn}
use serverlynx.Tn.Cmds.{Cmd, CmdType, client_open, client_close, client_send}
use serverlynx.Tn.Uv.{close_link_cb}
use serverlynx.Link.{closing}
use serverlynx.Service.{Service}
use serverlynx.Io.{link_at}
use mathlib.Core.Option.{some-injective, some-ne-none}
use serverlynx.Io.Sending.Laws.{Live, Live-target, target_cases, handle_cmd_send-cmds}
use serverlynx.Io.Connecting.Untouched.{handle_cmd_open-cmds}
use serverlynx.Io.Commands.{handle_cmd_close, dispatch, free_cmd, on_check_cb}

module _ {T : Tn} (L : IsTn T) where
  -- A close command for an open link whose handle is not closing closes that handle, with the
  -- callback that frees the link, and notes the command in the link; no other link is touched. If the
  -- client id names no such link, it changes nothing. So it never closes a handle a second time.
  pub cmd_close_lem :
      (s : Service T) (cmd : Cmd)
      → let t = handle_cmd_close s cmd in
        ((h : ℕ) × Live s cmd.client_id h
          × (t.world ≡ T.uv.close s.world h close_link_cb)
          × ((k : ℕ) → T.uv.is_closing t.world k ≡ (h == k || T.uv.is_closing s.world k))
          × ((link_at t cmd.client_id).state ≡ closing)
          × ((link_at t cmd.client_id).cmd_close_id ≡ cmd.id)
          × ((q : ℕ) → cmd.client_id ≢ q → link_at t q ≡ link_at s q))
        ⊎ (((h : ℕ) → ¬ Live s cmd.client_id h) × (t ≡ s))
  unfolding handle_cmd_close
  cmd_close_lem s cmd = elim (target_cases s cmd.client_id) [
    | inl (h, live, e, f) ↦ inl (
        rw (e, handle_cmd_close)
          (rw f (
            h,
            live,
            refl,
            λ k. L.uv.is_closing-close s.world h k close_link_cb,
            ground arith,
            ground arith,
            λ q n. ground arith,
          )))
    | inr (inl e) ↦ inr (
      λ h l. some-ne-none _ (sym (Live-target s cmd.client_id h l).0 ∙ e),
      rw (e, handle_cmd_close) refl,
    )
    | inr (inr (p, e, f)) ↦
        let dead : (h : ℕ) → ¬ Live s cmd.client_id h = λ h l.
          (let (found, live) = Live-target s cmd.client_id h l in
            let same = some-injective _ _ (sym found ∙ e) in
            some-ne-none _ (sym (rw same at live) ∙ f)) in
        inr (dead, rw (e, handle_cmd_close) (rw f refl))
  ]

module _ {T : Tn} where
  close-cmds : (s : Service T) (cmd : Cmd) → (handle_cmd_close s cmd).cmds ≡ s.cmds
  unfolding handle_cmd_close
  close-cmds s cmd = elim (target_cases s cmd.client_id) [
    | inl (h, live, e, f) ↦ rw (e, handle_cmd_close) (rw f refl)
    | inr (inl e) ↦ rw (e, handle_cmd_close) refl
    | inr (inr (p, e, f)) ↦ rw (e, handle_cmd_close) (rw f refl)
  ]

  -- Handling a command leaves the two lists of commands alone.
  pub dispatch-cmds : (k : CmdType) (s : Service T) (cmd : Cmd) → (dispatch k s cmd).cmds ≡ s.cmds
  unfolding dispatch
  dispatch-cmds client_open s cmd = handle_cmd_open-cmds s cmd
  dispatch-cmds client_close s cmd = close-cmds s cmd
  dispatch-cmds client_send s cmd = handle_cmd_send-cmds s cmd

abbrev pub ids : List Cmd → List ℕ
ids = map (λ x. x.id)

module _ {T : Tn} (L : IsTn T) where
  -- How often a command is in the two lists.
  abbrev pub held : ℕ → Service T → ℕ
  held a s = count a (ids (L.cmds.ready s.cmds)) + count a (L.cmds.free s.cmds)

  pub free_cmd_lem :
      (s u : Service T) (cmd : Cmd) (cmds : T.cmds.Carrier)
      → ((c : T.cmds.Carrier) (x : Cmd)
          → count x.id (L.cmds.free c) ≡ 0
          → T.cmds.free_push c x ≢ none)
      → ((a : ℕ) → held a s ≤ 1)
      → T.cmds.ready_pop_back s.cmds ≡ some (cmd, cmds)
      → u.cmds ≡ cmds
      → let v = free_cmd cmd u in
        (L.cmds.ready s.cmds ≡ cmd ∷ L.cmds.ready v.cmds) × ((a : ℕ) → held a v ≡ held a s)
  unfolding free_cmd
  free_cmd_lem s u cmd cmds fits once e same =
      let (rest, pop) = L.cmds.ready_pop_back_lem s.cmds cmds cmd e in
      let unique : held cmd.id s ≤ 1 = once cmd.id in
      let absent : count cmd.id (L.cmds.free u.cmds) ≡ 0 =
        rw (same, pop) (let h = rw rest at unique in ground arith) in
      elim (Option-cases (T.cmds.free_push u.cmds cmd)) [
        | inl n ↦ absurd (fits u.cmds cmd absent n)
        | inr (c, n) ↦
            let (ready, free) = L.cmds.free_push_lem u.cmds c cmd n in
            let same_ready = ready ∙ ap L.cmds.ready same in
            let free_before = ap L.cmds.free same ∙ pop in
            rw n (
              rest ∙ ap (◌∷◌ cmd) (sym same_ready),
              λ a.
                  let f = free a ∙ ap (λ l. count a (cmd.id ∷ l)) free_before in
                  rw (same_ready, rest) (omega arith),
            )
      ]

  -- With more fuel than commands wait, the loop ends, no command waits any more, and each command
  -- is in the lists as often as before: those that waited are free. It is assumed that each
  -- command is in the lists at most once, and that a command that is not free can be freed.
  pub on_check_cb_lem :
      ((c : T.cmds.Carrier) (x : Cmd)
        → count x.id (L.cmds.free c) ≡ 0
        → T.cmds.free_push c x ≢ none)
      → (fuel : ℕ) (s : Service T) → ((a : ℕ) → held a s ≤ 1)
      → length (L.cmds.ready s.cmds) < fuel
      → (t : Service T) × (on_check_cb fuel s ≡ some t)
        × (L.cmds.ready t.cmds ≡ [])
        × ((a : ℕ) → count a (L.cmds.free t.cmds) ≡ held a s)
  unfolding on_check_cb
  on_check_cb_lem fits zero s once enough = absurd (omega arith)
  on_check_cb_lem fits (suc fuel) s once enough =
      elim (Option-cases (T.cmds.ready_pop_back s.cmds)) [
        | inl e ↦
            let empty = L.cmds.ready_pop_back_none s.cmds e in
            (s, rw (e, on_check_cb) refl, empty, λ a. rw empty (omega arith))
        | inr ((cmd, cmds), e) ↦
            let s' : Service T = record s { cmds = cmds } in
            let u = dispatch cmd.type s' cmd in
            let (rest, same) =
              free_cmd_lem s u cmd cmds fits once e (dispatch-cmds cmd.type s' cmd) in
            let (t, done, empty, all) =
              on_check_cb_lem fits fuel (free_cmd cmd u) (λ a. rw (same a) (once a))
                (let h = rw rest at enough in omega arith) in
            (t, rw (e, on_check_cb) done, empty, λ a. all a ∙ same a)
      ]
