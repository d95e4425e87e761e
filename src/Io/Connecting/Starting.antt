-- ===== src/Io/Connecting/Starting.antt =====
-- What becomes of the links when a connection is started.
use mathlib.Core.Path.{subst}
use mathlib.Core.Option.{some-injective, some-ne-none}
use serverlynx.Link.{Link}
use serverlynx.Io.Links.{link_at-set_link}
use serverlynx.Io.Ensures.{guard_uv-exact, guard_uv_value-exact}
use serverlynx.Prelude.{pos, none, some, ◌≢◌, ℕ, ap, ◌≡◌, refl, sym, ◌∙◌, ◌⊎◌, inl, inr}
use serverlynx.Tn.{Tn, IsTn}
use serverlynx.Tn.Cmds.{Cmd}
use serverlynx.Link.{LinkState}
use serverlynx.Service.{Service}
use serverlynx.Link.List.{LinkList}
use serverlynx.Link.List.Invariant.{IsWellFormed}
use serverlynx.Link.List.Opening.{Opened}
use serverlynx.Io.{link_at, set_link, guard_uv_value, uv_close}
use serverlynx.Tn.Uv.{close_handle_cb}
use serverlynx.Io.Links.{LinksFine}
use serverlynx.Io.Ensures.{attempt_lem}
use serverlynx.Io.Connecting.{
  open_on_link, open_on_memory, handle_cmd_open, start_connect, return_link, open_handle,
  connecting_link,
}
use serverlynx.Io.Connecting.Opens.{Opens, opened_world, open_handle-Ensures}
use serverlynx.Io.Connecting.Restored.{Restored, refl-Restored, return_link_lem}
use serverlynx.Io.Connecting.Taken.{Taken, Opened-Taken}

module _ {T : Tn} (L : IsTn T) where
  -- All its calls succeed, the last of which, `uv_tcp_connect`, leaves the world `w`.
  abbrev pub Connects : Service T → Cmd → ℕ → ℕ → T.uv.World → Type 0
  Connects s cmd p h w =
      let w1 = (T.uv.acquire s.world).1 in
      ((T.uv.acquire s.world).0 ≡ some h)
      × Opens L s.link_list w1 h p
      × (T.uv.connect (opened_world L w1 h) h cmd.endpoint ≡ (pos 0, w))

  -- What an open command leaves.
  abbrev pub Opening : Service T → Cmd → Service T → Type 0
  Opening s cmd t =
      ((p h : ℕ) × (w : T.uv.World) × Connects s cmd p h w
        × (t.world ≡ w)
        × ((link_at t p).cmd_open_id ≡ cmd.id)
        × Taken L s.link_list p h LinkState.new t.link_list)
      ⊎ (((p h : ℕ) (w : T.uv.World) → ¬ Connects s cmd p h w) × Restored L s.link_list t.link_list)

  -- The last call, and what it leaves of the list `l`.
  abbrev Ends : LinkList T.list → Service T → Cmd → ℕ → ℕ → Service T → Type 0
  Ends l t cmd h p u =
      (((T.uv.connect t.world h cmd.endpoint).0 ≡ pos 0)
        × (u.world ≡ (T.uv.connect t.world h cmd.endpoint).1)
        × ((link_at u p).cmd_open_id ≡ cmd.id)
        × Taken L l p h LinkState.new u.link_list)
      ⊎ (((T.uv.connect t.world h cmd.endpoint).0 ≢ pos 0) × Restored L l u.link_list)

  open_on_link_lem :
      (l : LinkList T.list) (t : Service T) (cmd : Cmd) (h p : ℕ)
      → IsWellFormed L.list l
      → Opened L.list T.cmd_invalid l p t.link_list
      → Ends l t cmd h p (open_on_link cmd h p t)
  unfolding open_on_link start_connect
  open_on_link_lem l t cmd h p wf o =
      attempt_lem Good Bad (Ends l t cmd h p) (start_connect cmd h p)
        (λ z. uv_close (return_link p z) h close_handle_cb) (λ _ z. z) t
        (guard_uv-exact Good Bad (λ w. T.uv.connect w h cmd.endpoint) (set_link t p k)
          (λ e. (e, refl, ap (λ m. m.cmd_open_id) (link_at-set_link t p k), taken))
          (λ n. (n, taken)))
        (λ z (n, x). inr (n, return_link_lem L l z p h LinkState.new wf x refl)) (λ _ z x. inl x)
    where
      k : Link
      k = connecting_link h cmd.id (link_at t p)

      taken : Taken L l p h LinkState.new (set_link t p k).link_list
      taken = Opened-Taken L l t p h LinkState.new k o refl refl refl

      Good : Unit {0} → Service T → Type 0
      Good _ z =
          ((T.uv.connect t.world h cmd.endpoint).0 ≡ pos 0)
          × (z.world ≡ (T.uv.connect t.world h cmd.endpoint).1)
          × ((link_at z p).cmd_open_id ≡ cmd.id)
          × Taken L l p h LinkState.new z.link_list

      Bad : Service T → Type 0
      Bad z =
          ((T.uv.connect t.world h cmd.endpoint).0 ≢ pos 0)
          × Taken L l p h LinkState.new z.link_list

  -- The command with the memory of its handle.
  abbrev Handled : Service T → Cmd → ℕ → Service T → Type 0
  Handled t cmd h u =
      let (code, w) = T.uv.connect (opened_world L t.world h) h cmd.endpoint in
      ((p : ℕ) × Opens L t.link_list t.world h p
        × (code ≡ pos 0)
        × (u.world ≡ w)
        × ((link_at u p).cmd_open_id ≡ cmd.id)
        × Taken L t.link_list p h LinkState.new u.link_list)
      ⊎ (((p : ℕ) → Opens L t.link_list t.world h p → code ≢ pos 0)
          × Restored L t.link_list u.link_list)

  open_on_memory_lem :
      (t : Service T) (cmd : Cmd) (h : ℕ)
      → IsWellFormed L.list t.link_list
      → Handled t cmd h (open_on_memory cmd h t)
  unfolding open_on_memory
  open_on_memory_lem t cmd h wf =
      attempt_lem _ _ (Handled t cmd h) (open_handle h) (λ z. uv_close z h close_handle_cb)
        (open_on_link cmd h) t (open_handle-Ensures L t h wf)
        (λ z (same, never). inr (λ p o. absurd (never p o), rw same (refl-Restored L _ wf)))
        (λ p z (opens, world, o). elim (open_on_link_lem t.link_list z cmd h p wf o) [
          | inl (e, after, id, k) ↦ inl (
            p,
            opens,
            ap (λ w. (T.uv.connect w h cmd.endpoint).0) (sym world) ∙ e,
            after ∙ ap (λ w. (T.uv.connect w h cmd.endpoint).1) world,
            id,
            k,
          )
          | inr (n, r) ↦ inr (λ q _ e. n (ap (λ w. (T.uv.connect w h cmd.endpoint).0) world ∙ e), r)
        ])

  -- If all the calls of an open command succeed, up to the start of the connection, then it takes the
  -- next free link, which waits in the state `new` with its handle and the id of the command, touches
  -- no other link, and leaves the world as that start does. If one of them fails, the free links
  -- are as they were, and each link is as it was, or free and in the state `new`: so a link whose
  -- connection cannot be started is back on the free list when the command is done. It is assumed that
  -- the list of links is well formed.
  pub handle_cmd_open_lem :
      (s : Service T) (cmd : Cmd) → LinksFine L s → Opening s cmd (handle_cmd_open s cmd)
  unfolding handle_cmd_open
  handle_cmd_open_lem s cmd wf =
      attempt_lem Memory None (Opening s cmd) (guard_uv_value T.uv.acquire) (λ z. z)
        (open_on_memory cmd) s
        (guard_uv_value-exact Memory None T.uv.acquire s (λ h e. (e, refl)) (λ e. (e, refl)))
        (λ z (e, same).
          inr (λ p h w c. some-ne-none _ (sym c.0 ∙ e), rw same (refl-Restored L _ wf)))
        (λ h z (e, same).
          subst (λ u. Opening s cmd (open_on_memory cmd h u)) (sym same)
            (let t : Service T = record s { world = w1 } in
              with_memory h e (open_on_memory cmd h t) (open_on_memory_lem t cmd h wf)))
    where
      w1 : T.uv.World
      w1 = (T.uv.acquire s.world).1

      Memory : ℕ → Service T → Type 0
      Memory h z =
          ((T.uv.acquire s.world).0 ≡ some h) × (z ≡ record s { world = (T.uv.acquire s.world).1 })

      None : Service T → Type 0
      None z = ((T.uv.acquire s.world).0 ≡ none) × (z.link_list ≡ s.link_list)

      with_memory :
          (h : ℕ)
          → (T.uv.acquire s.world).0 ≡ some h
          → (u : Service T) → Handled (record s { world = w1 }) cmd h u
          → Opening s cmd u
      with_memory h got u (inl (p, opens, code, world, id, k)) =
          let w = (T.uv.connect (opened_world L w1 h) h cmd.endpoint).1 in
          inl (p, h, w, (got, opens, ap (λ c. (c, w)) code), world, id, k)
      with_memory h got u (inr (never, r)) = inr (
        λ p h' w (got', opens, connected).
            (let same : h' ≡ h = some-injective _ _ (sym got' ∙ got) in
              never p (subst (λ j. Opens L s.link_list w1 j p) same opens) (
                subst (λ j. (T.uv.connect (opened_world L w1 j) j cmd.endpoint).0 ≡ pos 0) same
                  (ap (λ c. c.0) connected))),
        r,
      )

  -- The free links as they were, or one link taken from them that waits for its connection.
  pub handle_cmd_open-Started :
      (s : Service T) (cmd : Cmd)
      → LinksFine L s
      → let t = handle_cmd_open s cmd in
        Restored L s.link_list t.link_list
        ⊎ ((p h : ℕ) × Taken L s.link_list p h LinkState.new t.link_list)
  handle_cmd_open-Started s cmd wf = elim (handle_cmd_open_lem s cmd wf) [
    | inl (p, h, _, _, _, _, k) ↦ inr (p, h, k)
    | inr (_, r) ↦ inl r
  ]
