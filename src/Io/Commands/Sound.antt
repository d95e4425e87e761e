-- ===== src/Io/Commands/Sound.antt =====
-- Connections and commands keep the list of links sound.
use serverlynx.Prelude.{
  ℕ, zero, suc, ℤ, pos, negsuc, List, [], ◌<◌, ◌≡◌, refl, sym, ap, ◌∙◌, some, Option-cases, inl,
  inr, arith, elem, false, ◌∷◌,
}
use mathlib.Core.Option.{some-injective}
use mathlib.Core.Path.{subst}
use serverlynx.Tn.{Tn, IsTn}
use serverlynx.Tn.Cmds.{Cmd, CmdType, client_open, client_close, client_send}
use serverlynx.Link.{LinkState, opened, closing}
use serverlynx.Link.List.{LinkList}
use serverlynx.Link.List.Invariant.{free_links}
use serverlynx.Link.List.Opening.{close_lem}
use serverlynx.Service.{Service}
use serverlynx.Io.{link_at, kept}
use serverlynx.Io.Sending.Laws.{target_cases}
use serverlynx.Io.Sending.Untouched.{handle_cmd_send-links}
use serverlynx.Io.Connecting.{on_inbound_connection_cb, on_outbound_connection_cb, handle_cmd_open}
use serverlynx.Io.Connecting.Laws.{on_inbound_connection_cb_lem}
use serverlynx.Io.Connecting.Starting.{handle_cmd_open-Started}
use serverlynx.Io.Connecting.Connected.{on_outbound_connection_cb_lem}
use serverlynx.Io.Connecting.Taken.{Taken}
use serverlynx.Io.Commands.{handle_cmd_close, dispatch, free_cmd, on_check_cb}
use serverlynx.Io.Commands.Order.{execute}
use serverlynx.Io.Sound.{IsSound, busy-IsSound, Taken-IsSound, Restored-IsSound, freed-IsSound}

module _ {T : Tn} (L : IsTn T) where
  pub on_inbound_connection_cb-IsSound :
      (s : Service T) (status : ℤ)
      → IsSound L s.link_list
      → IsSound L (on_inbound_connection_cb s status).link_list
  on_inbound_connection_cb-IsSound s status i =
      elim (on_inbound_connection_cb_lem L s status i.fine) [
        | inl e ↦ rw e i
        | inr (p, h, inl k) ↦ Taken-IsSound L s.link_list _ p h opened i k
        | inr (p, h, inr (k, _)) ↦ Taken-IsSound L s.link_list _ p h closing i k
      ]

  -- The list before the link `p` was taken, and the handle of `p`.
  pub Taken-before :
      (l : LinkList T.list) (p : ℕ)
      → IsSound L l
      → p < l.clients_max
      → elem p (free_links L.list l) ≡ false
      → (l.client_map p).state ≡ LinkState.new
      → (h : ℕ) × (before : LinkList T.list) × IsSound L before × Taken L before p h LinkState.new l
  Taken-before l p i lt out e =
      let (h, handle) = i.handled p lt out in
      let (before, _, free, links, size, fine) = close_lem L.list l p i.fine lt out in
      (
        h,
        before,
        freed-IsSound L l before p i fine free links size (inl e),
        record {
          taken = free;
          fine = i.fine;
          size = sym size;
          handle = handle;
          state = e;
          others = λ q n. ap (λ m. m q) (sym links);
        },
      )

  -- A connection is made for a link that waits for it.
  pub on_outbound_connection_cb-IsSound :
      (s t : Service T) (p : ℕ) (status : ℤ)
      → p < s.link_list.clients_max
      → elem p (free_links L.list s.link_list) ≡ false
      → (link_at s p).state ≡ LinkState.new
      → IsSound L s.link_list
      → on_outbound_connection_cb s p status ≡ some t
      → IsSound L t.link_list
  on_outbound_connection_cb-IsSound s t p (negsuc n) lt out e i done =
      unfold on_outbound_connection_cb in absurd (ground arith)
  on_outbound_connection_cb-IsSound s t p (pos n) lt out e i done =
      let (h, before, j, k) = Taken-before s.link_list p i lt out e in
      let (u, same, after) = on_outbound_connection_cb_lem L before p h s n k in
      subst (λ (v : Service T). IsSound L v.link_list) (some-injective _ _ (sym same ∙ done))
        (elim after [
          | inl m ↦ Taken-IsSound L before u.link_list p h opened j m
          | inr (m, _) ↦ Taken-IsSound L before u.link_list p h closing j m
        ])

  handle_cmd_open-IsSound :
      (s : Service T) (cmd : Cmd)
      → IsSound L s.link_list
      → IsSound L (handle_cmd_open s cmd).link_list
  handle_cmd_open-IsSound s cmd i = elim (handle_cmd_open-Started L s cmd i.fine) [
    | inl r ↦ Restored-IsSound L s.link_list _ i r
    | inr (p, h, k) ↦ Taken-IsSound L s.link_list _ p h LinkState.new i k
  ]

  handle_cmd_close-IsSound :
      (s : Service T) (cmd : Cmd)
      → IsSound L s.link_list
      → IsSound L (handle_cmd_close s cmd).link_list
  unfolding handle_cmd_close
  handle_cmd_close-IsSound s cmd i = elim (target_cases s cmd.client_id) [
    | inl (h, live, e, f) ↦
        let p = cmd.client_id in
        let k = record (link_at s p) { cmd_close_id = cmd.id; state = closing } in
        rw (e, handle_cmd_close) (rw f (busy-IsSound L s p k refl refl (inl live.is_opened) i))
    | inr (inl e) ↦ rw (e, handle_cmd_close) i
    | inr (inr (p, e, f)) ↦ rw (e, handle_cmd_close) (rw f i)
  ]

  pub dispatch-IsSound :
      (k : CmdType) (s : Service T) (cmd : Cmd)
      → IsSound L s.link_list
      → IsSound L (dispatch k s cmd).link_list
  unfolding dispatch
  dispatch-IsSound client_open s cmd i = handle_cmd_open-IsSound s cmd i
  dispatch-IsSound client_close s cmd i = handle_cmd_close-IsSound s cmd i
  dispatch-IsSound client_send s cmd i = rw (handle_cmd_send-links s cmd) i

  pub on_check_cb-IsSound :
      (fuel : ℕ) (s t : Service T)
      → IsSound L s.link_list
      → on_check_cb fuel s ≡ some t
      → IsSound L t.link_list
  unfolding on_check_cb free_cmd
  on_check_cb-IsSound zero s t i e = absurd (ground arith)
  on_check_cb-IsSound (suc fuel) s t i e = elim (Option-cases (T.cmds.ready_pop_back s.cmds)) [
    | inl f ↦ let same : s ≡ t = ap (λ o. kept o s) (rw (f, on_check_cb) at e) in rw⁻¹ same i
    | inr ((cmd, cmds), f) ↦
        let u = record s { cmds = cmds } in
        let v = dispatch cmd.type u cmd in
        let w = free_cmd cmd v in
        on_check_cb-IsSound fuel w t (unfold dispatch in dispatch-IsSound cmd.type u cmd i)
          (rw (f, on_check_cb) at e)
  ]

  pub execute-IsSound :
      (xs : List Cmd) (s : Service T) → IsSound L s.link_list → IsSound L (execute xs s).link_list
  execute-IsSound [] s i = i
  execute-IsSound (x ∷ xs) s i =
      execute-IsSound xs (dispatch x.type s x) (unfold dispatch in dispatch-IsSound x.type s x i)
