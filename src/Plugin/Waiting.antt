-- ===== src/Plugin/Waiting.antt =====
-- When `service_state_wait` ends, and with what result.
use serverlynx.Prelude.{
  ℕ, zero, suc, ◌+◌, ◌*◌, ◌≤◌, ◌<◌, ◌≡◌, ◌≢◌, refl, sym, ap, ◌∙◌, ◌⊎◌, inl, inr, true, false, some,
  Status, success, failure, arith, leb, Bool-cases, Option,
}
use serverlynx.Tn.{Tn}
use serverlynx.Service.{
  Service, ServiceState, new, starting, started, stopping, stopped, error, invalid,
}
use serverlynx.Plugin.{state_value, same_state, wait_loop, service_state_wait}

of_value : ℕ → ServiceState
of_value zero = new
of_value (suc zero) = starting
of_value (suc (suc zero)) = started
of_value (suc (suc (suc zero))) = stopping
of_value (suc (suc (suc (suc zero)))) = stopped
of_value (suc (suc (suc (suc (suc zero))))) = error
of_value (suc (suc (suc (suc (suc (suc n)))))) = invalid

of_value-state_value : (x : ServiceState) → of_value (state_value x) ≡ x
unfolding of_value
of_value-state_value new = refl
of_value-state_value starting = refl
of_value-state_value started = refl
of_value-state_value stopping = refl
of_value-state_value stopped = refl
of_value-state_value error = refl
of_value-state_value invalid = refl

same_value : (x y : ServiceState) → state_value x ≡ state_value y → x ≡ y
same_value x y e = sym (of_value-state_value x) ∙ ap of_value e ∙ of_value-state_value y

same_state→eq : (x y : ServiceState) → same_state x y ≡ true → x ≡ y
same_state→eq x y e = same_value x y (ground arith)

differs : (x y : ServiceState) → same_state x y ≡ false → x ≢ y
differs x y e p = let h : same_state y y ≡ false = rw p at e in ground arith

module _ {T : Tn} (others : ℕ → Service T → Service T) where
  -- The service after `n` loads, the first of index `k`.
  abbrev pub run : ℕ → ℕ → Service T → Service T
  run k zero s = s
  run k (suc n) s = run (suc k) n (others k s)

  -- What the loads from `k` on, `rounds` in number, decide. After a failure there was one more load.
  abbrev pub Waited : ServiceState → ℕ → ℕ → Service T → Option (Status × ℕ × Service T) → Type 0
  Waited desired_state k rounds s result =
      ((i : ℕ) × (i < rounds)
        × ((run k (suc i) s).state ≡ desired_state)
        × (result ≡ some (success, k + suc i, run k (suc i) s)))
      ⊎ (((i : ℕ) → i < rounds → (run k (suc i) s).state ≢ desired_state)
          × (result ≡ some (failure, k + suc rounds, run k (suc rounds) s)))

  -- One more load that shows another state.
  Waited-step :
      (d : ServiceState) (k rounds : ℕ) (s : Service T) (result : Option (Status × ℕ × Service T))
      → (others k s).state ≢ d
      → Waited d (suc k) rounds (others k s) result
      → Waited d k (suc rounds) s result
  Waited-step d k rounds s result n (inl (i, low, p, r)) =
      let e : suc k + suc i ≡ k + suc (suc i) = omega arith in
      inl (suc i, omega arith, p, rw e at r)
  Waited-step d k rounds s result n (inr (never, r)) =
      let e : suc k + suc rounds ≡ k + suc (suc rounds) = omega arith in inr (later, rw e at r)
    where
      later : (i : ℕ) → i < suc rounds → (run k (suc i) s).state ≢ d
      later zero low = n
      later (suc i) low = never i (omega arith)

  -- The first load decides.
  found :
      (fuel : ℕ) (d : ServiceState) (limit waited k rounds : ℕ) (s : Service T)
      → same_state (others k s).state d ≡ true
      → Waited d k (suc rounds) s (wait_loop others (suc fuel) d limit waited k s)
  unfolding wait_loop
  found fuel d limit waited k rounds s e =
      let next : k + 1 ≡ suc k = omega arith in
      inl (zero, omega arith, same_state→eq _ d e, rw (e, wait_loop) (rw next refl))

  wait_loop_lem :
      (fuel : ℕ) (d : ServiceState) (limit waited k rounds : ℕ) (s : Service T)
      → rounds < fuel
      → limit ≡ waited + 50 * suc rounds
      → Waited d k (suc rounds) s (wait_loop others fuel d limit waited k s)
  unfolding wait_loop
  wait_loop_lem zero d limit waited k rounds s enough total = absurd (omega arith)
  wait_loop_lem (suc fuel) d limit waited k zero s enough total =
      elim (Bool-cases (same_state (others k s).state d)) [
        | inl e ↦ found fuel d limit waited k 0 s e
        | inr e ↦
            let over : leb limit (waited + 50) ≡ true = ground arith in
            let next : suc k + 1 ≡ suc (suc k) = omega arith in
            Waited-step d k 0 s _ (differs _ d e)
              (inr (λ i low. absurd (omega arith), rw (e, wait_loop) (rw over (rw next refl))))
      ]
  wait_loop_lem (suc fuel) d limit waited k (suc rounds) s enough total =
      elim (Bool-cases (same_state (others k s).state d)) [
        | inl e ↦ found fuel d limit waited k (suc rounds) s e
        | inr e ↦
            let more : leb limit (waited + 50) ≡ false = ground arith in
            let rest =
              wait_loop_lem fuel d limit (waited + 50) (suc k) rounds (others k s) (omega arith)
                (omega arith) in
            Waited-step d k (suc rounds) s _ (differs _ d e) (rw (e, wait_loop) (rw more rest))
      ]

  -- A wait of 50 ms times `rounds`, at least one, loads the state as often: it succeeds at the first
  -- of these loads that shows the state that is waited for, and if none does it fails, after one more
  -- load that it does not look at. It always ends: fuel for that many rounds is enough.
  pub service_state_wait_lem :
      (fuel : ℕ) (desired_state : ServiceState) (rounds k : ℕ) (s : Service T)
      → 0 < rounds
      → rounds ≤ fuel
      → Waited desired_state k rounds s
          (service_state_wait others fuel desired_state (50 * rounds) k s)
  unfolding service_state_wait
  service_state_wait_lem fuel d zero k s some_rounds enough = absurd (omega arith)
  service_state_wait_lem fuel d (suc rounds) k s some_rounds enough =
      wait_loop_lem fuel d (50 * suc rounds) 0 k rounds s (omega arith) (omega arith)

  -- Nothing moves a service out of this state from one load to the next.
  abbrev pub Stays : ServiceState → Type 0
  Stays x = (j : ℕ) (u : Service T) → u.state ≡ x → (others j u).state ≡ x

  -- A service that stays in a state which is not waited for.
  pub stays :
      (x : ServiceState) (k n : ℕ) (s : Service T) → Stays x → s.state ≡ x → (run k n s).state ≡ x
  stays x k zero s keep e = e
  stays x k (suc n) s keep e = stays x (suc k) n (others k s) keep (keep k s e)
