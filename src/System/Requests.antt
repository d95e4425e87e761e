-- ===== src/System/Requests.antt =====
-- A call of the main thread and the callback of the IO thread that executes it.

use serverlynx.Prelude.{
  ℕ, suc, ◌+◌, ◌<◌, ◌≤◌, ◌≡◌, ◌≢◌, refl, sym, ap, ◌∙◌, none, some, List, [], ◌∷◌, ◌++◌, count,
  count-append, length, length-append, success, arith,
}
use mathlib.Core.Option.{some-injective}
use mathlib.Core.Path.{subst}
use serverlynx.Tn.{Tn, IsTn}
use serverlynx.Tn.Cmds.{Cmd}
use serverlynx.Service.{Service}
use serverlynx.Service.Commands.Laws.{
  Request, Carries, kind_of, call, Outcome, call-Outcome, Submitted, accepted,
}
use serverlynx.Io.Commands.{dispatch, on_check_cb}
use serverlynx.Io.Commands.Laws.{held, ids, on_check_cb_lem}
use serverlynx.Io.Commands.Order.{execute, execute-put, on_check_cb-execute}
use serverlynx.Io.Blind.{put}

ids-append : (xs : List Cmd) (x : Cmd) → ids (xs ++ x ∷ []) ≡ ids xs ++ x.id ∷ []
ids-append [] x = refl
ids-append (y ∷ ys) x = ap (◌∷◌ y.id) (ids-append ys x)

module _ {T : Tn} where
  execute-append :
      (xs : List Cmd) (x : Cmd) (s : Service T)
      → execute (xs ++ x ∷ []) s ≡ dispatch x.type (execute xs s) x
  execute-append [] x s = refl
  execute-append (y ∷ ys) x s = execute-append ys x (dispatch y.type s y)

module _ {T : Tn} (L : IsTn T) where
  -- A call that queues its command neither loses nor doubles a command.
  pub Submitted-held :
      (r : Request) (s s' : Service T) (id a : ℕ) → Submitted L r s id s' → held L a s' ≡ held L a s
  Submitted-held r s s' id a x =
      let queued : count a (ids (L.cmds.ready s'.cmds))
          ≡ count a (ids (L.cmds.ready s.cmds)) + count a (x.cmd.id ∷ []) =
        ap (λ l. count a (ids l)) x.queued
        ∙ ap (count a) (ids-append (L.cmds.ready s.cmds) x.cmd)
        ∙ count-append a (ids (L.cmds.ready s.cmds)) (x.cmd.id ∷ []) in
      let taken = x.taken a in let named = ap (λ i. count a (i ∷ [])) x.named in omega arith

  -- A command that a call has queued, and what the service is once the IO thread is done with it.
  pub record Executed (r : Request) (s : Service T) (id : ℕ) (t : Service T) : Type 0 where
    pub cmd : Cmd
    pub kind : cmd.type ≡ kind_of r
    pub carries : Carries r cmd
    pub named : cmd.id ≡ id
    pub effect :
        (c : T.cmds.Carrier) × (t
          ≡ record (dispatch cmd.type (execute (L.cmds.ready s.cmds) s) cmd) { cmds = c })
    pub none_waits : L.cmds.ready t.cmds ≡ []
    pub all_free : (a : ℕ) → count a (L.cmds.free t.cmds) ≡ held L a s

  -- A call that succeeds is executed: when the IO thread next runs its callback, the service becomes
  -- what the commands that waited before and then the command of the call, with the caller's arguments
  -- and the id that the call returned, make of it, beside the lists of commands; no command waits any
  -- more, and every command is free as often as it was in the two lists before. It is assumed that each
  -- command is in the lists at most once, and that a command that is not free can be freed; the fuel is
  -- more than the commands that wait after the call.
  pub on_check_cb-call :
      ((c : T.cmds.Carrier) (x : Cmd)
        → count x.id (L.cmds.free c) ≡ 0
        → T.cmds.free_push c x ≢ none)
      → (r : Request) (s s' : Service T) (id fuel : ℕ) → ((a : ℕ) → held L a s ≤ 1)
      → call s r ≡ (success, id, s')
      → suc (length (L.cmds.ready s.cmds)) < fuel
      → (t : Service T) × (on_check_cb fuel s' ≡ some t) × Executed r s id t
  on_check_cb-call fits r s s' id fuel once e enough =
      let x : Submitted L r s id s' =
        accepted L r s (success, id, s') (subst (Outcome L r s) e (call-Outcome L r s).0) refl in
      let once' : (a : ℕ) → held L a s' ≤ 1 = λ a. rw (Submitted-held r s s' id a x) (once a) in
      let enough' : length (L.cmds.ready s'.cmds) < fuel =
        rw (x.queued, length-append) (omega arith) in
      let (c, done) = on_check_cb-execute L fits fuel s' once' enough' in
      let (t, ended, empty, all) = on_check_cb_lem L fits fuel s' once' enough' in
      let waiting = L.cmds.ready s.cmds in
      let as_one : execute (L.cmds.ready s'.cmds) s'
          ≡ put T s'.cmds (dispatch x.cmd.type (execute waiting s) x.cmd) =
        ap (λ l. execute l s') x.queued
        ∙ ap (execute (waiting ++ x.cmd ∷ [])) x.rest
        ∙ execute-put s'.cmds (waiting ++ x.cmd ∷ []) s
        ∙ ap (put T s'.cmds) (execute-append waiting x.cmd s) in
      (
        t,
        ended,
        record {
          cmd = x.cmd;
          kind = x.kind;
          carries = x.carries;
          named = x.named;
          effect = (c, some-injective _ _ (sym ended ∙ done) ∙ ap (put T c) as_one);
          none_waits = empty;
          all_free = λ a. all a ∙ Submitted-held r s s' id a x;
        },
      )
