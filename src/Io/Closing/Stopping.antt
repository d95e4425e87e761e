-- ===== src/Io/Closing/Stopping.antt =====
-- What the timer closes once the service is not started any more.
use serverlynx.Prelude.{
  ℕ, ◌≡◌, ◌≢◌, refl, ap, ◌∙◌, ◌⊎◌, inl, inr, Bool, true, false, ◌||◌, Option, none, some, ◌==◌,
  arith, Bool-cases,
}
use serverlynx.Tn.{Tn, IsTn}
use serverlynx.Tn.Uv.{no_cb}
use serverlynx.Service.{
  Service, ServiceState, new, starting, started, stopping, stopped, error, invalid,
}
use serverlynx.Service.Commands.{is_started}
use serverlynx.Io.Closing.{safe_close, on_timer_cb}

abbrev pub names : Option ℕ → ℕ → Bool
names none k = false
names (some h) k = h == k

started_cases :
    (x : ServiceState)
    → ((x ≡ started) × (is_started x ≡ true)) ⊎ ((x ≢ started) × (is_started x ≡ false))
started_cases started = inl (refl, refl)
started_cases new = inr (λ e. cc, refl)
started_cases starting = inr (λ e. cc, refl)
started_cases stopping = inr (λ e. cc, refl)
started_cases stopped = inr (λ e. cc, refl)
started_cases error = inr (λ e. cc, refl)
started_cases invalid = inr (λ e. cc, refl)

module _ {T : Tn} (L : IsTn T) where
  safe_close_lem :
      (o : Option ℕ) (s : Service T) (k : ℕ)
      → T.uv.is_closing (safe_close o s).world k ≡ (names o k || T.uv.is_closing s.world k)
  unfolding safe_close
  safe_close_lem none s k = refl
  safe_close_lem (some h) s k = elim (Bool-cases (T.uv.is_closing s.world h)) [
    | inl e ↦ rw (e, safe_close) (same e)
    | inr e ↦ rw (e, safe_close) (L.uv.is_closing-close s.world h k no_cb)
  ]
    where
      same :
          T.uv.is_closing s.world h ≡ true
          → T.uv.is_closing s.world k ≡ (h == k || T.uv.is_closing s.world k)
      same e = elim (Bool-cases (h == k)) [
        | inl f ↦ let m : h ≡ k = ground arith in rw f (rw m at e)
        | inr f ↦ rw f refl
      ]

  -- When the service is started the timer changes nothing. Otherwise it closes the five handles of
  -- the loop as far as they are set and no other: afterwards a handle is closing exactly if it is
  -- one of them or was closing before.
  pub on_timer_cb_lem :
      (s : Service T)
      → ((s.state ≡ started) × (on_timer_cb s ≡ s))
        ⊎ ((s.state ≢ started)
            × ((k : ℕ)
                → T.uv.is_closing (on_timer_cb s).world k ≡ (
                    names s.uv_signal k
                    || (names s.uv_check k
                        || (names s.uv_prep k
                            || (names s.uv_accept_timer k
                                || (names s.tcp_handle k || T.uv.is_closing s.world k)))))))
  unfolding on_timer_cb
  on_timer_cb_lem s = elim (started_cases s.state) [
    | inl (e, f) ↦ inl (e, rw (f, on_timer_cb) refl)
    | inr (e, f) ↦ inr (e, λ k. rw (f, on_timer_cb) (all k))
  ]
    where
      a : Service T
      a = safe_close s.tcp_handle s

      b : Service T
      b = safe_close s.uv_accept_timer a

      c : Service T
      c = safe_close s.uv_prep b

      d : Service T
      d = safe_close s.uv_check c

      all :
          (k : ℕ)
          → T.uv.is_closing (safe_close s.uv_signal d).world k ≡ (
              names s.uv_signal k
              || (names s.uv_check k
                  || (names s.uv_prep k
                      || (names s.uv_accept_timer k
                          || (names s.tcp_handle k || T.uv.is_closing s.world k)))))
      all k =
          safe_close_lem s.uv_signal d k
          ∙ ap (λ x. names s.uv_signal k || x)
              (safe_close_lem s.uv_check c k
                ∙ ap (λ x. names s.uv_check k || x)
                    (safe_close_lem s.uv_prep b k
                      ∙ ap (λ x. names s.uv_prep k || x)
                          (safe_close_lem s.uv_accept_timer a k
                            ∙ ap (λ x. names s.uv_accept_timer k || x)
                                (safe_close_lem s.tcp_handle s k))))
