-- ===== src/Io/Succeeds.antt =====
-- Guarded code where its calls succeed.
use serverlynx.Prelude.{ℕ, ℤ, pos, ◌≡◌, refl, ap, ◌∙◌, Option, none, some}
use serverlynx.Tn.{Tn}
use serverlynx.Service.{Service}
use serverlynx.Io.{Ran, Io, ok, jump, ◌>>=◌, guard_uv, guard_uv_value, guard_some, attempt}

module _ {T : Tn} where
  pub guard_uv-ok :
      (f : T.uv.World → ℤ × T.uv.World) (s : Service T) (w : T.uv.World)
      → f s.world ≡ (pos 0, w)
      → guard_uv f s ≡ ok tt (record s { world = w })
  guard_uv-ok f s w e = rw e refl

  pub guard_uv_value-ok :
      (f : T.uv.World → Option ℕ × T.uv.World) (s : Service T) (a : ℕ) (w : T.uv.World)
      → f s.world ≡ (some a, w)
      → guard_uv_value f s ≡ ok a (record s { world = w })
  guard_uv_value-ok f s a w e =
      ap
        (λ q. elim q.0 [
          | none ↦ jump (record s { world = q.1 })
          | some b ↦ ok b (record s { world = q.1 })
        ])
        e

  pub guard_some-ok :
      {A : Type 0} (o : Option A) (s : Service T) (a : A) → o ≡ some a → guard_some o s ≡ ok a s
  guard_some-ok o s a e = rw e refl

  pub ok->>= :
      {A B : Type 0} (m : Io T A) (f : A → Io T B) (s t : Service T) (a : A) (r : Ran T B)
      → m s ≡ ok a t
      → f a t ≡ r
      → (m >>= f) s ≡ r
  ok->>= m f s t a r e g = ap (λ x. elim x [ ok a t ↦ f a t | jump t ↦ jump t ]) e ∙ g

  pub attempt-ok :
      {A : Type 0} (m : Io T A) (cleanup : Service T → Service T) (next : A → Service T → Service T)
      (s t u : Service T) (a : A)
      → m s ≡ ok a t
      → next a t ≡ u
      → attempt m cleanup next s ≡ u
  attempt-ok m cleanup next s t u a e g =
      ap (λ x. elim x [ ok a t ↦ next a t | jump t ↦ cleanup t ]) e ∙ g
