-- ===== src/Io/Connecting/Opens.antt =====
-- The first calls of `handle_cmd_open`, up to the link.
use mathlib.Core.Option.{some-ne-none}
use serverlynx.Link.List.Opening.{open-Opened}
use serverlynx.Io.Ensures.{guard_uv-exact, guard_uv_value-exact}
use serverlynx.Prelude.{pos, some, ℕ, ap, ◌≡◌, refl, sym, ◌∙◌, inl, inr, Option-cases}
use serverlynx.Tn.{Tn, IsTn}
use serverlynx.Service.{Service}
use serverlynx.Link.List.{LinkList, open_link}
use serverlynx.Link.List.Invariant.{IsWellFormed}
use serverlynx.Link.List.Opening.{Opened}
use serverlynx.Io.{guard_uv, guard_uv_value}
use serverlynx.Io.Ensures.{Ensures, Ensures->>=}
use serverlynx.Io.Connecting.{take_link, open_handle}

module _ {T : Tn} (L : IsTn T) where
  -- The calls of `handle_cmd_open` for the handle `h` and the link `p`, up to the link, all succeed from
  -- the world `w1` on.
  abbrev pub Opens : LinkList T.list → T.uv.World → ℕ → ℕ → Type 0
  Opens l w1 h p =
      ((T.uv.tcp_init w1 h).0 ≡ pos 0)
      × ((req : ℕ) × ((T.uv.acquire (T.uv.tcp_init w1 h).1).0 ≡ some req))
      × ((l' : LinkList T.list) × (open_link T.list T.cmd_invalid l ≡ some (p, l')))

  -- The world after them.
  abbrev pub opened_world : T.uv.World → ℕ → T.uv.World
  opened_world w1 h = (T.uv.acquire (T.uv.tcp_init w1 h).1).1

  pub open_handle-Ensures :
      (t : Service T) (h : ℕ)
      → IsWellFormed L.list t.link_list
      → Ensures
          (λ p u.
            Opens t.link_list t.world h p
            × (u.world ≡ opened_world t.world h)
            × Opened L.list T.cmd_invalid t.link_list p u.link_list)
          (λ u. (u.link_list ≡ t.link_list) × ((p : ℕ) → ¬ Opens t.link_list t.world h p))
          (open_handle h t)
  unfolding open_handle take_link
  open_handle-Ensures t h wf =
      Ensures->>= Inited Done Shut (guard_uv (λ v. T.uv.tcp_init v h)) _ t
        (guard_uv-exact Inited Shut (λ v. T.uv.tcp_init v h) t (λ e. (e, refl, refl))
          (λ n. (refl, λ p o. n o.0)))
        (λ _ u (c, uw, ul).
          Ensures->>= Acquired Done Shut (guard_uv_value T.uv.acquire) _ u
            (guard_uv_value-exact Acquired Shut T.uv.acquire u
              (λ req e.
                (c, ap (λ w. (T.uv.acquire w).0) (sym uw) ∙ e, ap (λ w. (T.uv.acquire w).1) uw, ul))
              (λ e. (
                ul,
                λ p o. some-ne-none _ (sym o.1.1 ∙ ap (λ w. (T.uv.acquire w).0) (sym uw) ∙ e),
              )))
            (λ req v (c, got, vw, vl).
              elim (Option-cases (open_link T.list T.cmd_invalid v.link_list)) [
                | inl n ↦ rw (n, take_link) (vl, λ p o. some-ne-none _ (sym o.2.1 ∙ rw vl at n))
                | inr ((p, l'), n) ↦
                    let taken = rw vl at n in
                    rw (n, take_link)
                      (
                        (c, (req, got), (l', taken)),
                        vw,
                        open-Opened L.list T.cmd_invalid t.link_list l' p wf taken,
                      )
              ]))
    where
      Inited : Unit {0} → Service T → Type 0
      Inited _ u =
          ((T.uv.tcp_init t.world h).0 ≡ pos 0)
          × (u.world ≡ (T.uv.tcp_init t.world h).1)
          × (u.link_list ≡ t.link_list)

      Acquired : ℕ → Service T → Type 0
      Acquired req u =
          ((T.uv.tcp_init t.world h).0 ≡ pos 0)
          × ((T.uv.acquire (T.uv.tcp_init t.world h).1).0 ≡ some req)
          × (u.world ≡ opened_world t.world h)
          × (u.link_list ≡ t.link_list)

      Done : ℕ → Service T → Type 0
      Done p u =
          Opens t.link_list t.world h p
          × (u.world ≡ opened_world t.world h)
          × Opened L.list T.cmd_invalid t.link_list p u.link_list

      Shut : Service T → Type 0
      Shut u = (u.link_list ≡ t.link_list) × ((p : ℕ) → ¬ Opens t.link_list t.world h p)
