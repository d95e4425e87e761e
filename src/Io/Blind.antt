-- ===== src/Io/Blind.antt =====
-- Code of the IO thread that does not look at the lists of commands.
use serverlynx.Prelude.{ℕ, ℤ, ◌≡◌, refl, ap, ◌∙◌, Option, inl, inr, Bool-cases, Option-cases}
use serverlynx.Tn.{Tn}
use serverlynx.Service.{Service}
use serverlynx.Io.{Ran, Io, ok, jump, ◌>>=◌, guard_uv, guard_uv_value, attempt, is_zero}

module _ (T : Tn) (c : T.cmds.Carrier) where
  -- The service with other lists of commands.
  abbrev pub put : Service T → Service T
  put s = record s { cmds = c }

  abbrev pub put_ran : {A : Type 0} → Ran T A → Ran T A
  put_ran (ok a t) = ok a (put t)
  put_ran (jump t) = jump (put t)

  -- It does the same whatever the lists are, and leaves them as they are.
  unfoldable pub Blind : {A : Type 0} → Io T A → Type 0
  Blind m = (s : Service T) → m (put s) ≡ put_ran (m s)

  unfoldable pub Ignores : (Service T → Service T) → Type 0
  Ignores f = (s : Service T) → f (put s) ≡ put (f s)

  bind_ran :
      {A B : Type 0} (f : A → Io T B) (r : Ran T A)
      → ((a : A) → Blind (f a))
      → (elim (put_ran r) [ ok a t ↦ f a t | jump t ↦ jump t ])
        ≡ put_ran (elim r [ ok a t ↦ f a t | jump t ↦ jump t ])
  unfolding Blind
  bind_ran f (ok a t) kf = kf a t
  bind_ran f (jump t) kf = refl

  pub Blind->>= :
      {A B : Type 0} (m : Io T A) (f : A → Io T B)
      → Blind m
      → ((a : A) → Blind (f a))
      → Blind (m >>= f)
  unfolding Blind
  Blind->>= m f km kf s =
      ap (λ r. elim r [ ok a t ↦ f a t | jump t ↦ jump t ]) (km s) ∙ bind_ran f (m s) kf

  attempt_ran :
      {A : Type 0} (cleanup : Service T → Service T) (after : A → Service T → Service T)
      → (r : Ran T A) → Ignores cleanup
      → ((a : A) → Ignores (after a))
      → (elim (put_ran r) [ ok a t ↦ after a t | jump t ↦ cleanup t ])
        ≡ put (elim r [ ok a t ↦ after a t | jump t ↦ cleanup t ])
  unfolding Ignores
  attempt_ran cleanup after (ok a t) kc ka = ka a t
  attempt_ran cleanup after (jump t) kc ka = kc t

  pub Ignores-attempt :
      {A : Type 0} (m : Io T A) (cleanup : Service T → Service T)
      (after : A → Service T → Service T)
      → Blind m
      → Ignores cleanup
      → ((a : A) → Ignores (after a))
      → Ignores (attempt m cleanup after)
  unfolding Ignores Blind
  Ignores-attempt m cleanup after km kc ka s =
      ap (λ r. elim r [ ok a t ↦ after a t | jump t ↦ cleanup t ]) (km s)
      ∙ attempt_ran cleanup after (m s) kc ka

module _ (T : Tn) where
  pub Blind-guard_uv :
      (c : T.cmds.Carrier) (f : T.uv.World → ℤ × T.uv.World) → Blind T c (guard_uv f)
  unfolding Blind
  Blind-guard_uv c f s = elim (Bool-cases (is_zero (f s.world).0)) [
    | inl e ↦ rw (e, guard_uv) refl
    | inr e ↦ rw (e, guard_uv) refl
  ]

  pub Blind-guard_uv_value :
      (c : T.cmds.Carrier) (f : T.uv.World → Option ℕ × T.uv.World) → Blind T c (guard_uv_value f)
  unfolding Blind
  Blind-guard_uv_value c f s = elim (Option-cases (f s.world).0) [
    | inl e ↦ rw (e, guard_uv_value) refl
    | inr (a, e) ↦ rw (e, guard_uv_value) refl
  ]
