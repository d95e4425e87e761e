-- ===== src/Programs/Ending.antt =====
-- How the programs end: what they still hold when `main` returns.
use serverlynx.Prelude.{
  ℕ, ◌^◌, ◌<◌, ◌≡◌, ◌⊎◌, inl, inr, refl, Bool, true, false, Option, some, List, [], ◌∷◌, take,
  Status, success, failure, arith, Option-cases,
}
use serverlynx.Tn.{Tn}
use serverlynx.Tn.Events.{Event, EventType, client_open, client_close, client_read, other}
use serverlynx.Service.{Service, stopping}
use serverlynx.Service.Commands.{is_started}
use serverlynx.Service.Lifecycle.{stop, start, set_state}
use serverlynx.Service.Lifecycle.Laws.{stop_cases, await_stop-stop}
use serverlynx.Service.Setup.{service_cleanup}
use serverlynx.Service.Setup.Parts.{whole}
use serverlynx.Service.Updates.{
  acquire, release, release_all, release_one, return_buffer, free_event,
}
use serverlynx.Programs.{
  Moment, looking, acquiring, releasing, ending, App, Ended, handle_client_open, handle_event,
  handle_all, poll, stopped_with, close_down, serve, start_and_serve,
}
use serverlynx.Programs.Laws.{look, frames_lem, handle_all_lem}

Status-cases : (x : Status) → (x ≡ success) ⊎ (x ≡ failure)
Status-cases success = inl refl
Status-cases failure = inr refl

module _ {T : Tn} where
  -- The service still has its private part.
  abbrev pub HasPriv : Service T → Type 0
  HasPriv s = s.priv_set ≡ true

  -- What changes a service, and this not.
  abbrev pub KeepsPriv : (Service T → Service T) → Type 0
  KeepsPriv f = (s : Service T) → HasPriv s → HasPriv (f s)

  return_buffer-HasPriv : (t : EventType) (b : ℕ) → KeepsPriv (return_buffer t b)
  unfolding return_buffer
  return_buffer-HasPriv client_read b s h = ground arith
  return_buffer-HasPriv client_open b s h = h
  return_buffer-HasPriv client_close b s h = h
  return_buffer-HasPriv other b s h = h

  release_one-HasPriv : (x : Event) → KeepsPriv (release_one x)
  unfolding release_one free_event
  release_one-HasPriv x s h =
      let t = return_buffer x.type x.priv s in
      let kept = return_buffer-HasPriv x.type x.priv s h in
      elim (Option-cases (T.events.free_push t.events x)) [
        | inl e ↦ rw (e, free_event) kept
        | inr (c, e) ↦ rw (e, free_event) kept
      ]

  release_all-HasPriv : (xs : List Event) → KeepsPriv (release_all xs)
  unfolding release_all
  release_all-HasPriv [] s h = h
  release_all-HasPriv (x ∷ xs) s h =
      release_all-HasPriv xs (release_one x s) (release_one-HasPriv x s h)

  acquire-HasPriv : KeepsPriv (λ s. (acquire s).2)
  unfolding acquire
  acquire-HasPriv s h = ground arith

  release-HasPriv : KeepsPriv (λ s. (release s).1)
  unfolding release
  release-HasPriv s h = release_all-HasPriv (take s.event_updates_count s.event_updates) s h

  stop-HasPriv :
      (join : Service T → Status × Service T) (s : Service T)
      → HasPriv (join (record s { state = stopping })).1
      → HasPriv s
      → HasPriv (stop join s).1
  stop-HasPriv join s after h = elim (stop_cases s join) [
    | inl (_, inl (_, e)) ↦ rw e after
    | inl (_, inr (_, e)) ↦ rw e after
    | inr (inl (_, e)) ↦ rw e h
    | inr (inr (_, e)) ↦ rw e h
  ]

  start-HasPriv : (launched : Bool) → KeepsPriv (λ s. (start launched s).1)
  unfolding start set_state
  start-HasPriv launched s h = ground arith

  -- What reads an event keeps the private part.
  abbrev pub ReadKeeps : (Service T → Event → Status × Service T) → Type 0
  ReadKeeps read = (x : Event) → KeepsPriv (λ s. (read s x).1)

  -- What the IO thread does keeps it.
  abbrev pub OthersKeep : (ℕ → Moment → Service T → Service T) → Type 0
  OthersKeep others = (n : ℕ) (m : Moment) → KeepsPriv (others n m)

  handle_event-HasPriv :
      (read : Service T → Event → Status × Service T) (t : EventType) (a : App T) (x : Event)
      → ReadKeeps read
      → HasPriv a.service
      → HasPriv (handle_event read t a x).service
  unfolding handle_event handle_client_open
  handle_event-HasPriv read client_open a x keep h = ground arith
  handle_event-HasPriv read client_close a x keep h = h
  handle_event-HasPriv read client_read a x keep h = keep x a.service h
  handle_event-HasPriv read other a x keep h = h

  handle_all-HasPriv :
      (read : Service T → Event → Status × Service T) (xs : List Event) (a : App T)
      → ReadKeeps read
      → HasPriv a.service
      → HasPriv (handle_all read xs a).service
  unfolding handle_all
  handle_all-HasPriv read [] a keep h = h
  handle_all-HasPriv read (x ∷ xs) a keep h =
      handle_all-HasPriv read xs (handle_event read x.type a x) keep
        (handle_event-HasPriv read x.type a x keep h)

  -- A frame of the loop keeps the private part of the service, and its own number.
  pub poll-HasPriv :
      (others : ℕ → Moment → Service T → Service T) (read : Service T → Event → Status × Service T)
      → (a : App T) → OthersKeep others
      → ReadKeeps read
      → HasPriv a.service
      → HasPriv (poll others read a).service
  unfolding poll
  poll-HasPriv others read a still keep h =
      let (status, count, s) = acquire (others a.frame acquiring a.service) in
      let got = acquire-HasPriv _ (still a.frame acquiring a.service h) in
      release-HasPriv _ (
        still _ releasing _ (
          handle_all-HasPriv read (take count s.event_updates) (record a { service = s }) keep got))

  pub poll-frame :
      (others : ℕ → Moment → Service T → Service T) (read : Service T → Event → Status × Service T)
      → (a : App T) → (poll others read a).frame ≡ a.frame
  unfolding poll
  poll-frame others read a =
      let (status, count, s) = acquire (others a.frame acquiring a.service) in
      (handle_all_lem read (take count s.event_updates) (record a { service = s })).1

  -- A join that returns, and that leaves the private part alone.
  pub record Joins (join : Service T → Option (Status × Service T)) : Type 0 where
    pub returns :
        (s : Service T) → s.state ≡ stopping → (r : Status × Service T) × (join s ≡ some r)
    pub keeps : (s : Service T) (r : Status × Service T) → join s ≡ some r → HasPriv s → HasPriv r.1

  stopped_with_lem :
      (r : Status × Service T)
      → HasPriv r.1
      → ((stopped_with whole r).code ≡ failure) ⊎ ((stopped_with whole r).held ≡ [])
  unfolding stopped_with service_cleanup
  stopped_with_lem (failure, t) h = inl refl
  stopped_with_lem (success, t) h = inr (rw (h, service_cleanup) refl)

  close_down_lem :
      (join : Service T → Option (Status × Service T)) (s : Service T)
      → Joins join
      → HasPriv s
      → (r : Ended T) × (close_down join s whole ≡ some r) × ((r.code ≡ failure) ⊎ (r.held ≡ []))
  unfolding close_down
  close_down_lem join s joins h =
      let (r, e) = joins.returns (record s { state = stopping }) refl in
      let after = stop-HasPriv (λ _. r) s (joins.keeps (record s { state = stopping }) r e h) h in
      (
        stopped_with whole (stop (λ _. r) s),
        rw (await_stop-stop join s r e) refl,
        stopped_with_lem (stop (λ _. r) s) after,
      )

  module _ (others : ℕ → Moment → Service T → Service T) (body : App T → Option (App T))
      (join : Service T → Option (Status × Service T)) (still : OthersKeep others)
      (joins : Joins join)
      (runs : (b : App T)
        → HasPriv b.service
        → (c : App T) × (body b ≡ some c) × (c.frame ≡ b.frame) × HasPriv c.service) where
    serve_lem :
        (fuel last : ℕ) (a : App T)
        → ((s : Service T) → is_started (others last looking s).state ≡ false)
        → last < 2 ^ 32
        → last < fuel
        → a.frame ≡ 0
        → HasPriv a.service
        → (r : Ended T) × (serve others body fuel join a whole ≡ some r)
          × ((r.code ≡ failure) ⊎ (r.held ≡ []))
    unfolding serve
    serve_lem fuel last a stops small enough first h =
        let (b, e, p, _) =
          frames_lem others body (λ c. HasPriv c.service) fuel last a last
            (λ c q. (let t = still c.frame looking c.service q in (t, runs (look others c) t)))
            stops small (omega arith) enough h in
        let end = close_down_lem join _ joins (still b.frame ending b.service p) in
        rw (e, serve) end

    -- From the start of the service on, in a program that holds everything.
    pub start_and_serve_lem :
        (fuel last : ℕ) (launched : Bool) (a : App T)
        → ((s : Service T) → is_started (others last looking s).state ≡ false)
        → last < 2 ^ 32
        → last < fuel
        → a.frame ≡ 0
        → HasPriv a.service
        → (r : Ended T) × (start_and_serve others body fuel launched join a whole ≡ some r)
          × ((r.code ≡ failure) ⊎ (r.held ≡ []))
    unfolding start_and_serve
    start_and_serve_lem fuel last launched a stops small enough first h =
        let s = (start launched a.service).1 in
        elim (Status-cases (start launched a.service).0) [
          | inr e ↦ (
            record { code = failure; service = s; held = whole },
            rw (e, start_and_serve) refl,
            inl refl,
          )
          | inl e ↦
              let rest =
                serve_lem fuel last (record a { service = s }) stops small enough first
                  (start-HasPriv launched a.service h) in
              rw (e, start_and_serve) rest
        ]
