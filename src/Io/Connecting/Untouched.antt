-- ===== src/Io/Connecting/Untouched.antt =====
-- An open command leaves the two lists of commands alone.
use serverlynx.Prelude.{ℕ, ℤ, ◌≡◌, refl, inl, inr, Option, Option-cases}
use serverlynx.Tn.{Tn}
use serverlynx.Tn.Cmds.{Cmd}
use serverlynx.Tn.Uv.{close_handle_cb}
use serverlynx.Service.{Service}
use serverlynx.Link.List.{open_link}
use serverlynx.Io.{link_at, set_link, guard_uv, guard_uv_value, uv_close}
use serverlynx.Io.Ensures.{
  Ensures, Ensures->>=, attempt_lem, guard_uv-Ensures, guard_uv_value-Ensures,
}
use serverlynx.Io.Connecting.{
  open_on_link, open_on_memory, handle_cmd_open, take_link, start_connect, return_link, open_handle,
  connecting_link,
}

module _ {T : Tn} (c : T.cmds.Carrier) where
  Same : Service T → Type 0
  Same t = t.cmds ≡ c

  SameAfter : {A : Type 0} → A → Service T → Type 0
  SameAfter _ t = t.cmds ≡ c

  Same-uv :
      (f : T.uv.World → ℤ × T.uv.World) (t : Service T)
      → t.cmds ≡ c
      → Ensures SameAfter Same (guard_uv f t)
  unfolding Same SameAfter
  Same-uv f t e = guard_uv-Ensures (λ _ z. z.cmds ≡ c) (λ z. z.cmds ≡ c) f t (λ _. e) (λ _. e)

  Same-uv_value :
      (f : T.uv.World → Option ℕ × T.uv.World) (t : Service T)
      → t.cmds ≡ c
      → Ensures SameAfter Same (guard_uv_value f t)
  unfolding Same SameAfter
  Same-uv_value f t e =
      guard_uv_value-Ensures (λ _ z. z.cmds ≡ c) (λ z. z.cmds ≡ c) f t (λ _ _. e) (λ _. e)

  Same-open_handle : (h : ℕ) (t : Service T) → t.cmds ≡ c → Ensures SameAfter Same (open_handle h t)
  unfolding open_handle take_link Same SameAfter
  Same-open_handle h t e =
      Ensures->>= SameAfter SameAfter Same (guard_uv (λ v. T.uv.tcp_init v h)) _ t
        (Same-uv (λ v. T.uv.tcp_init v h) t e)
        (λ _ u f.
          Ensures->>= SameAfter SameAfter Same (guard_uv_value T.uv.acquire) _ u
            (Same-uv_value T.uv.acquire u f)
            (λ _ v g. elim (Option-cases (open_link T.list T.cmd_invalid v.link_list)) [
              | inl n ↦ rw (n, take_link) g
              | inr ((p, l'), n) ↦ rw (n, take_link) g
            ]))

  Same-start_connect :
      (cmd : Cmd) (h p : ℕ) (t : Service T)
      → t.cmds ≡ c
      → Ensures SameAfter Same (start_connect cmd h p t)
  unfolding start_connect
  Same-start_connect cmd h p t e =
      Same-uv (λ w. T.uv.connect w h cmd.endpoint)
        (set_link t p (connecting_link h cmd.id (link_at t p))) e

  same_open_on_link :
      (cmd : Cmd) (h p : ℕ) (t : Service T) → t.cmds ≡ c → (open_on_link cmd h p t).cmds ≡ c
  unfolding open_on_link return_link Same SameAfter
  same_open_on_link cmd h p t e =
      attempt_lem SameAfter Same Same (start_connect cmd h p)
        (λ z. uv_close (return_link p z) h close_handle_cb) (λ _ z. z) t
        (Same-start_connect cmd h p t e) (λ z f. f) (λ _ z f. f)

  same_open_on_memory :
      (cmd : Cmd) (h : ℕ) (t : Service T) → t.cmds ≡ c → (open_on_memory cmd h t).cmds ≡ c
  unfolding open_on_memory Same SameAfter
  same_open_on_memory cmd h t e =
      attempt_lem SameAfter Same Same (open_handle h) (λ z. uv_close z h close_handle_cb)
        (open_on_link cmd h) t (Same-open_handle h t e) (λ z f. f)
        (λ p z f. same_open_on_link cmd h p z f)

module _ {T : Tn} where
  pub handle_cmd_open-cmds : (s : Service T) (cmd : Cmd) → (handle_cmd_open s cmd).cmds ≡ s.cmds
  unfolding handle_cmd_open Same SameAfter
  handle_cmd_open-cmds s cmd =
      attempt_lem (SameAfter s.cmds) (Same s.cmds) (Same s.cmds) (guard_uv_value T.uv.acquire)
        (λ z. z) (open_on_memory cmd) s (Same-uv_value s.cmds T.uv.acquire s refl) (λ z f. f)
        (λ h z f. same_open_on_memory s.cmds cmd h z f)
