-- ===== src/Io/Ensures.antt =====
-- Postconditions of guarded code: one for its end, one for the jump to `cleanup`.
use serverlynx.Prelude.{
  ℕ, zero, suc, ℤ, pos, negsuc, ◌≡◌, ◌≢◌, refl, inl, inr, true, false, Option, none, some,
  Bool-cases, Option-cases, arith,
}
use serverlynx.Tn.{Tn}
use serverlynx.Service.{Service}
use serverlynx.Io.{Ran, Io, ok, jump, ◌>>=◌, guard_uv, guard_uv_value, guard_some, attempt, is_zero}

pub is_zero→eq : (c : ℤ) → is_zero c ≡ true → c ≡ pos 0
is_zero→eq (pos zero) h = refl
is_zero→eq (pos (suc n)) h = cc
is_zero→eq (negsuc n) h = cc

pub is_zero→ne : (c : ℤ) → is_zero c ≡ false → c ≢ pos 0
is_zero→ne (pos zero) h e = cc
is_zero→ne (pos (suc n)) h e = ground arith
is_zero→ne (negsuc n) h e = cc

module _ {T : Tn} where
  abbrev pub Ensures :
      {A : Type 0} → (A → Service T → Type 0) → (Service T → Type 0) → Ran T A → Type 0
  Ensures Q F (ok a t) = Q a t
  Ensures Q F (jump t) = F t

  bind_ran :
      {A B : Type 0} (R : A → Service T → Type 0) (Q : B → Service T → Type 0)
      (F : Service T → Type 0) (f : A → Io T B) (r : Ran T A)
      → Ensures R F r
      → ((a : A) (t : Service T) → R a t → Ensures Q F (f a t))
      → Ensures Q F (elim r [ ok a t ↦ f a t | jump t ↦ jump t ])
  bind_ran R Q F f (ok a t) h k = k a t h
  bind_ran R Q F f (jump t) h k = h

  pub Ensures->>= :
      {A B : Type 0} (R : A → Service T → Type 0) (Q : B → Service T → Type 0)
      (F : Service T → Type 0) (m : Io T A) (f : A → Io T B) (s : Service T)
      → Ensures R F (m s)
      → ((a : A) (t : Service T) → R a t → Ensures Q F (f a t))
      → Ensures Q F ((m >>= f) s)
  Ensures->>= R Q F m f s h k = bind_ran R Q F f (m s) h k

  attempt_ran :
      {A : Type 0} (Q : A → Service T → Type 0) (F P : Service T → Type 0)
      (cleanup : Service T → Service T) (after : A → Service T → Service T) (r : Ran T A)
      → Ensures Q F r
      → ((t : Service T) → F t → P (cleanup t))
      → ((a : A) (t : Service T) → Q a t → P (after a t))
      → P (elim r [ ok a t ↦ after a t | jump t ↦ cleanup t ])
  attempt_ran Q F P cleanup after (ok a t) h j q = q a t h
  attempt_ran Q F P cleanup after (jump t) h j q = j t h

  pub attempt_lem :
      {A : Type 0} (Q : A → Service T → Type 0) (F P : Service T → Type 0) (m : Io T A)
      (cleanup : Service T → Service T) (after : A → Service T → Service T) (s : Service T)
      → Ensures Q F (m s)
      → ((t : Service T) → F t → P (cleanup t))
      → ((a : A) (t : Service T) → Q a t → P (after a t))
      → P (attempt m cleanup after s)
  attempt_lem Q F P m cleanup after s h j q = attempt_ran Q F P cleanup after (m s) h j q

  pub Ensures-weaken :
      {A : Type 0} (Q : A → Service T → Type 0) (F G : Service T → Type 0) (r : Ran T A)
      → Ensures Q F r
      → ((t : Service T) → F t → G t)
      → Ensures Q G r
  Ensures-weaken Q F G (ok a t) h w = h
  Ensures-weaken Q F G (jump t) h w = w t h

  -- A call of libuv changes only the world.
  pub guard_uv-Ensures :
      (Q : Unit {0} → Service T → Type 0) (F : Service T → Type 0) (f : T.uv.World → ℤ × T.uv.World)
      (s : Service T)
      → ((w : T.uv.World) → Q tt (record s { world = w }))
      → ((w : T.uv.World) → F (record s { world = w }))
      → Ensures Q F (guard_uv f s)
  guard_uv-Ensures Q F f s q j = elim (Bool-cases (is_zero (f s.world).0)) [
    | inl e ↦ rw e (q (f s.world).1)
    | inr e ↦ rw e (j (f s.world).1)
  ]

  pub guard_uv_value-Ensures :
      (Q : ℕ → Service T → Type 0) (F : Service T → Type 0) (f : T.uv.World → Option ℕ × T.uv.World)
      (s : Service T)
      → ((a : ℕ) (w : T.uv.World) → Q a (record s { world = w }))
      → ((w : T.uv.World) → F (record s { world = w }))
      → Ensures Q F (guard_uv_value f s)
  guard_uv_value-Ensures Q F f s q j = elim (Option-cases (f s.world).0) [
    | inl e ↦ rw (e, Ensures) (j (f s.world).1)
    | inr (a, e) ↦ rw (e, Ensures) (q a (f s.world).1)
  ]

  -- The same, with what the call returned.
  pub guard_uv-exact :
      (Q : Unit {0} → Service T → Type 0) (F : Service T → Type 0) (f : T.uv.World → ℤ × T.uv.World)
      (s : Service T)
      → ((f s.world).0 ≡ pos 0 → Q tt (record s { world = (f s.world).1 }))
      → ((f s.world).0 ≢ pos 0 → F (record s { world = (f s.world).1 }))
      → Ensures Q F (guard_uv f s)
  guard_uv-exact Q F f s q j = elim (Bool-cases (is_zero (f s.world).0)) [
    | inl e ↦ rw e (q (is_zero→eq (f s.world).0 e))
    | inr e ↦ rw e (j (is_zero→ne (f s.world).0 e))
  ]

  pub guard_uv_value-exact :
      (Q : ℕ → Service T → Type 0) (F : Service T → Type 0) (f : T.uv.World → Option ℕ × T.uv.World)
      (s : Service T)
      → ((a : ℕ) → (f s.world).0 ≡ some a → Q a (record s { world = (f s.world).1 }))
      → ((f s.world).0 ≡ none → F (record s { world = (f s.world).1 }))
      → Ensures Q F (guard_uv_value f s)
  guard_uv_value-exact Q F f s q j = elim (Option-cases (f s.world).0) [
    | inl e ↦ rw (e, Ensures) (j e)
    | inr (a, e) ↦ rw (e, Ensures) (q a e)
  ]

  pub guard_some-Ensures :
      {A : Type 0} (Q : A → Service T → Type 0) (F : Service T → Type 0) (o : Option A)
      (s : Service T)
      → ((a : A) → o ≡ some a → Q a s)
      → F s
      → Ensures Q F (guard_some o s)
  guard_some-Ensures Q F none s q j = j
  guard_some-Ensures Q F (some a) s q j = q a refl
