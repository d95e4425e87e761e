-- ===== src/Io/Connecting/Blind.antt =====
-- An open command does not look at the lists of commands.
use serverlynx.Prelude.{ℕ, refl, Option-cases, inl, inr}
use serverlynx.Tn.{Tn}
use serverlynx.Tn.Cmds.{Cmd}
use serverlynx.Link.{Link}
use serverlynx.Link.List.{open_link}
use serverlynx.Io.Blind.{
  Blind, Ignores, Blind->>=, Ignores-attempt, Blind-guard_uv, Blind-guard_uv_value,
}
use serverlynx.Io.Connecting.{
  edit_link, take_link, open_handle, start_connect, return_link, open_on_link, open_on_memory,
  handle_cmd_open, connecting_link,
}

module _ (T : Tn) (c : T.cmds.Carrier) where
  Blind-take_link : Blind T c take_link
  unfolding Blind take_link
  Blind-take_link s = elim (Option-cases (open_link T.list T.cmd_invalid s.link_list)) [
    | inl e ↦ rw (e, take_link) refl
    | inr ((p, l), e) ↦ rw (e, take_link) refl
  ]

  Blind-edit_link : (p : ℕ) (f : Link → Link) → Blind T c (edit_link p f)
  unfolding Blind
  Blind-edit_link p f s = refl

  Ignores-open_on_memory : (cmd : Cmd) (h : ℕ) → Ignores T c (open_on_memory cmd h)
  unfolding open_on_memory open_handle open_on_link start_connect
  Ignores-open_on_memory cmd h =
      Ignores-attempt T c _ _ _
        (Blind->>= T c _ _ (Blind-guard_uv T c (λ w. T.uv.tcp_init w h))
          λ _. Blind->>= T c _ _ (Blind-guard_uv_value T c T.uv.acquire) λ r. Blind-take_link)
        (unfold Ignores in λ s. refl)
        λ p.
          Ignores-attempt T c _ _ _
            (Blind->>= T c _ _ (Blind-edit_link p (connecting_link h cmd.id))
              λ _. Blind-guard_uv T c (λ w. T.uv.connect w h cmd.endpoint))
            (unfold Ignores return_link in λ s. refl) λ _. unfold Ignores in λ s. refl

  pub Ignores-handle_cmd_open : (cmd : Cmd) → Ignores T c (λ s. handle_cmd_open s cmd)
  unfolding handle_cmd_open
  Ignores-handle_cmd_open cmd =
      Ignores-attempt T c _ _ _ (Blind-guard_uv_value T c T.uv.acquire)
        (unfold Ignores in λ s. refl) (Ignores-open_on_memory cmd)
