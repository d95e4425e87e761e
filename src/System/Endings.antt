-- ===== src/System/Endings.antt =====
-- A link that the main thread closes, from the call to the event.
use serverlynx.Prelude.{
  ℕ, pos, suc, ◌<◌, ◌≤◌, ◌≡◌, ◌≢◌, refl, sym, ap, ◌∙◌, true, none, some, [], ◌∷◌, ◌++◌, count,
  length, success, arith, inl, inr, Bool,
}
use mathlib.Core.Option.{some-injective, some-ne-none}
use serverlynx.Tn.{Tn, IsTn}
use serverlynx.Tn.Cmds.{Cmd, CmdType}
use serverlynx.Tn.Events.{Event, client_close}
use serverlynx.Tn.Uv.{close_link_cb}
use serverlynx.Link.{closing}
use serverlynx.Service.{Service}
use serverlynx.Service.Commands.Laws.{closes, call}
use serverlynx.Io.{kept, link_at, set_link, uv_close}
use serverlynx.Io.Links.{free_of, link_at-set_link}
use serverlynx.Io.Sending.Laws.{Live, Live-target}
use serverlynx.Io.Closing.{on_close_link_cb}
use serverlynx.Io.Closing.Laws.{on_close_link_cb_lem}
use serverlynx.Io.Commands.{handle_cmd_close, dispatch, on_check_cb}
use serverlynx.Io.Commands.Laws.{held}
use serverlynx.Io.Commands.Order.{execute}
use serverlynx.Io.Commands.Sound.{execute-IsSound}
use serverlynx.Io.Sound.{IsSound, busy_not_free, busy-IsSound}
use serverlynx.System.Meanwhile.{Meanwhile, Meanwhile-IsSound, Meanwhile-Stands}
use serverlynx.System.Standing.{Stands, same-Stands}
use mathlib.Core.Path.{subst}
use serverlynx.System.Requests.{on_check_cb-call}

module _ {T : Tn} where
  -- What a close command does to a live link.
  abbrev ended_by : Service T → ℕ → ℕ → ℕ → Service T
  ended_by s p h id =
      uv_close (set_link s p (record (link_at s p) { cmd_close_id = id; state = closing })) h
        close_link_cb

  close-ended_by :
      (s : Service T) (p h id : ℕ) (cmd : Cmd)
      → Live s p h
      → cmd.type ≡ CmdType.client_close
      → cmd.client_id ≡ p
      → cmd.id ≡ id
      → dispatch cmd.type s cmd ≡ ended_by s p h id
  unfolding dispatch handle_cmd_close
  close-ended_by s p h id cmd l kind client named =
      let (found, live) = Live-target s p h l in
      rw (kind, client, named) (rw (found, handle_cmd_close) (rw live refl))

module _ {T : Tn} (L : IsTn T) where
  -- The event that reports that the link `p` is closed, in the structure of `y`.
  abbrev pub close_event : Event → ℕ → ℕ → Event
  close_event y p id = record y { client_id = p; error_code = pos 0; cmd_id = id }

  reported_event :
      (before after events queued : T.events.Carrier) (y : Event) (q : Event × T.events.Carrier)
      (p id a b : ℕ)
      → q ≡ (y, events)
      → after ≡ kept (T.events.ready_push q.1 (close_event q.0 a b)) q.1
      → a ≡ p
      → b ≡ id
      → T.events.free_pop before client_close ≡ some (y, events)
      → T.events.ready_push events (close_event y p id) ≡ some queued
      → L.events.ready after ≡ L.events.ready before ++ close_event y p id ∷ []
  reported_event before after events queued y q p id a b same reported named asked popped pushed =
      let (_, kept_ready, _) = L.events.free_pop_lem before events client_close y popped in
      let (grown, _) = L.events.ready_push_lem events queued (close_event y p id) pushed in
      let put : after ≡ queued =
        reported
        ∙ ap (λ r. kept (T.events.ready_push r.1 (close_event r.0 a b)) r.1) same
        ∙ rw (named, asked) (ap (λ o. kept o events) pushed) in
      ap L.events.ready put ∙ grown ∙ ap (λ l. l ++ close_event y p id ∷ []) kept_ready

  -- A closing link that stands, when its close ends and an event can be had and queued.
  on_close_link_cb-ended :
      (w : Service T) (p id : ℕ) (y : Event) (events queued : T.events.Carrier)
      → IsSound L w.link_list
      → Stands L p id w.link_list
      → p < w.link_list.clients_max
      → T.events.free_pop w.events client_close ≡ some (y, events)
      → T.events.ready_push events (close_event y p id) ≡ some queued
      → let u = on_close_link_cb w p in
        (free_of L u ≡ p ∷ free_of L w)
        × (L.events.ready u.events ≡ L.events.ready w.events ++ close_event y p id ∷ [])
  on_close_link_cb-ended w p id y events queued i (shut, asked) lt popped pushed =
      let out = busy_not_free L w.link_list p i (inr shut) in
      let (_, _, _, ends) = on_close_link_cb_lem L w p i.fine lt out in
      elim ends [
        | inl (stuck, _, _) ↦ absurd (some-ne-none _ (sym popped ∙ stuck))
        | inr (x, evs, got, reported, free) ↦ (
          free,
          reported_event w.events _ events queued y (x, evs) p id _ _
              (some-injective _ _ (sym got ∙ popped)) reported (i.fine.ids p lt) asked popped
              pushed,
        )
      ]

  ended_by-IsSound :
      (v : Service T) (p h id : ℕ)
      → Live v p h
      → IsSound L v.link_list
      → IsSound L (ended_by v p h id).link_list
  ended_by-IsSound v p h id l i =
      busy-IsSound L v p (record (link_at v p) { cmd_close_id = id; state = closing }) refl refl
        (inl l.is_opened) i

  ended_by-Stands : (v : Service T) (p h id : ℕ) → Stands L p id (ended_by v p h id).link_list
  ended_by-Stands v p h id =
      let e = link_at-set_link v p (record (link_at v p) { cmd_close_id = id; state = closing }) in
      (ap (λ m. m.state) e, ap (λ m. m.cmd_close_id) e)

  -- A close that the main thread asks for is reported. After a call that succeeds for a live link, the
  -- IO thread's next callback closes the link's handle. Then both threads may make any number of
  -- moves, with callbacks as expected, none of them the end of that close. When the close ends, the
  -- link is free, next in turn, and a close event that names the link and carries the id that the call
  -- returned is ready, last in its queue. `v` is what the commands that waited before make of the
  -- service, `t` the service after the callback, and `w` the service when the close ends. It is
  -- assumed that the list of links is sound, that the link lies in the array and a close event can be
  -- had and queued when the close ends, that each command is in the lists at most once, and that a
  -- command that is not free can be freed; the fuel is more than the commands that wait after the
  -- call.
  pub on_close_link_cb-cmd_close :
      ((c : T.cmds.Carrier) (x : Cmd)
        → count x.id (L.cmds.free c) ≡ 0
        → T.cmds.free_push c x ≢ none)
      → (s s' : Service T) (p h id fuel : ℕ) (w : Service T) (b c : Bool)
      → (y : Event) (events queued : T.events.Carrier) → ((a : ℕ) → held L a s ≤ 1)
      → IsSound L s.link_list
      → call s (closes p) ≡ (success, id, s')
      → suc (length (L.cmds.ready s.cmds)) < fuel
      → let v = execute (L.cmds.ready s.cmds) s in
        let t = kept (on_check_cb fuel s') s' in
        Live v p h
        → Meanwhile L p t b w c
        → p < w.link_list.clients_max
        → T.events.free_pop w.events client_close ≡ some (y, events)
        → T.events.ready_push events (close_event y p id) ≡ some queued
        → (on_check_cb fuel s' ≡ some t)
          × (T.uv.is_closing t.world h ≡ true)
          × (let u = on_close_link_cb w p in
              (free_of L u ≡ p ∷ free_of L w)
              × (L.events.ready u.events ≡ L.events.ready w.events ++ close_event y p id ∷ []))
  on_close_link_cb-cmd_close fits s s' p h id fuel w b c y events queued once i e enough l others lt
        popped pushed =
      let v = execute (L.cmds.ready s.cmds) s in
      let (r, ended, x) = on_check_cb-call L fits (closes p) s s' id fuel once e enough in
      let (k, effect) = x.effect in
      let t = kept (on_check_cb fuel s') s' in
      let same : t ≡ r = ap (λ o. kept o s') ended in
      let did : t ≡ record (ended_by v p h id) { cmds = k } =
        same
        ∙ effect
        ∙ ap (λ (u : Service T). let z : Service T = record u { cmds = k } in z)
            (close-ended_by v p h id x.cmd l x.kind x.carries x.named) in
      let back : t.link_list ≡ (ended_by v p h id).link_list =
        ap (λ (u : Service T). u.link_list) did in
      let sound : IsSound L t.link_list =
        subst (IsSound L) (sym back)
          (ended_by-IsSound v p h id l (execute-IsSound L (L.cmds.ready s.cmds) s i)) in
      let stands : Stands L p id t.link_list =
        same-Stands L p id (ended_by v p h id).link_list t.link_list back
          (ended_by-Stands v p h id) in
      (
        ended ∙ ap some (sym same),
        rw did (L.uv.is_closing-close v.world h h close_link_cb ∙ ground arith),
        on_close_link_cb-ended w p id y events queued (Meanwhile-IsSound L p t w b c sound others)
            (Meanwhile-Stands L p id t w b c sound stands others) lt popped pushed,
      )
