-- ===== src/Programs/Laws.antt =====
-- What a program does with the events of a frame, and how its loop and its `main` end.
use serverlynx.Prelude.{
  Option, ℕ, zero, suc, ◌+◌, ◌%◌, ◌^◌, ◌<◌, ◌≡◌, ◌⊎◌, ◌==◌, inl, inr, refl, ap, ◌∙◌, Bool, true,
  false, some, List, [], ◌∷◌, ◌++◌, Status, arith, Bool-cases,
}
use serverlynx.Tn.{Tn}
use serverlynx.Tn.Events.{Event, EventType, client_open, client_close, client_read, other}
use serverlynx.Service.{Service}
use serverlynx.Service.Commands.{is_started}
use serverlynx.Programs.{Moment, looking, App, handle_client_open, handle_event, handle_all, frames}

-- The event tells that the connection of the command `id` is open.
abbrev pub answers : EventType → ℕ → ℕ → Bool
answers client_open id cmd_id = id == cmd_id
answers _ id cmd_id = false

-- No event of a list does.
abbrev pub Silent : ℕ → List Event → Type 0
Silent id [] = Unit
Silent id (x ∷ xs) = (answers x.type id x.cmd_id ≡ false) × Silent id xs

-- The link that the program takes for its own after the events: the one before, or that of the last
-- event which answers its command.
abbrev pub Chosen : ℕ → List Event → ℕ → ℕ → Type 0
Chosen id xs old chosen =
    ((chosen ≡ old) × Silent id xs)
    ⊎ ((before : List Event) × (after : List Event) × (x : Event) × (xs ≡ before ++ x ∷ after)
        × (answers x.type id x.cmd_id ≡ true)
        × Silent id after
        × (chosen ≡ x.client_id))

Chosen-later :
    (id : ℕ) (x : Event) (xs : List Event) (old chosen : ℕ)
    → answers x.type id x.cmd_id ≡ false
    → Chosen id xs old chosen
    → Chosen id (x ∷ xs) old chosen
Chosen-later id x xs old chosen e (inl (same, silent)) = inl (same, (e, silent))
Chosen-later id x xs old chosen e (inr (before, after, y, split, hit, silent, same)) =
    inr (x ∷ before, after, y, ap (◌∷◌ x) split, hit, silent, same)

Chosen-now :
    (id : ℕ) (x : Event) (xs : List Event) (old chosen : ℕ)
    → answers x.type id x.cmd_id ≡ true
    → Chosen id xs x.client_id chosen
    → Chosen id (x ∷ xs) old chosen
Chosen-now id x xs old chosen e (inl (same, silent)) = inr ([], xs, x, refl, e, silent, same)
Chosen-now id x xs old chosen e (inr (before, after, y, split, hit, silent, same)) =
    inr (x ∷ before, after, y, ap (◌∷◌ x) split, hit, silent, same)

module _ {T : Tn} where
  handle_event_lem :
      (read : Service T → Event → Status × Service T) (t : EventType) (a : App T) (x : Event)
      → let b = handle_event read t a x in
        (b.cmd_open_id ≡ a.cmd_open_id)
        × (b.frame ≡ a.frame)
        × (((answers t a.cmd_open_id x.cmd_id ≡ true) × (b.client_id ≡ x.client_id))
            ⊎ ((answers t a.cmd_open_id x.cmd_id ≡ false) × (b.client_id ≡ a.client_id)))
  unfolding handle_event handle_client_open
  handle_event_lem read client_open a x = ground arith
  handle_event_lem read client_close a x = (refl, refl, inr (refl, refl))
  handle_event_lem read client_read a x = (refl, refl, inr (refl, refl))
  handle_event_lem read other a x = (refl, refl, inr (refl, refl))

  -- The events of a frame change neither the command that the program waits for nor the number of the
  -- frame. The link that it takes for its own becomes that of the last event which says that the
  -- connection of this command is open; if there is none, it stays what it was.
  pub handle_all_lem :
      (read : Service T → Event → Status × Service T) (xs : List Event) (a : App T)
      → let b = handle_all read xs a in
        (b.cmd_open_id ≡ a.cmd_open_id)
        × (b.frame ≡ a.frame)
        × Chosen a.cmd_open_id xs a.client_id b.client_id
  unfolding handle_all
  handle_all_lem read [] a = (refl, refl, inl (refl, tt))
  handle_all_lem read (x ∷ xs) a =
      let b = handle_event read x.type a x in
      let (id, frame, one) = handle_event_lem read x.type a x in
      let (id', frame', rest) = handle_all_lem read xs b in
      let rest' : Chosen a.cmd_open_id xs b.client_id (handle_all read xs b).client_id =
        rw id at rest in
      (
        id' ∙ id,
        frame' ∙ frame,
        elim one [
          | inl (e, f) ↦ Chosen-now a.cmd_open_id x xs a.client_id _ e (rw f at rest')
          | inr (e, f) ↦ Chosen-later a.cmd_open_id x xs a.client_id _ e (rw f at rest')
        ],
      )

  -- What a program does in one frame of its loop, with the load of the state at its start.
  abbrev pub look : (ℕ → Moment → Service T → Service T) → App T → App T
  look others a = record a { service = others a.frame looking a.service }

  module _ (others : ℕ → Moment → Service T → Service T) (body : App T → Option (App T)) where
    -- A frame of a program with this property does not crash, keeps the property, and leaves the number
    -- of the frame.
    abbrev pub Keeps : (App T → Type 0) → Type 0
    Keeps P =
        (a : App T)
        → P a
        → P (look others a)
          × ((b : App T) × (body (look others a) ≡ some b)
              × (b.frame ≡ a.frame)
              × P (record b { frame = (b.frame + 1) % 2 ^ 32 }))

    -- The loop ends in the frame in which the load of the state first shows that the service is not
    -- started.
    pub frames_lem :
        (P : App T → Type 0) (fuel left : ℕ) (a : App T) (last : ℕ)
        → Keeps P
        → ((s : Service T) → is_started (others last looking s).state ≡ false)
        → last < 2 ^ 32
        → a.frame + left ≡ last
        → left < fuel
        → P a
        → (b : App T) × (frames others body fuel a ≡ some b)
          × P b
          × (is_started b.service.state ≡ false)
    unfolding frames
    frames_lem P zero left a last keeps stops small total enough p = absurd (omega arith)
    frames_lem P (suc fuel) zero a last keeps stops small total enough p =
        let here : a.frame ≡ last = omega arith in
        let off : is_started (others a.frame looking a.service).state ≡ false =
          rw here (stops a.service) in
        (look others a, rw (off, frames) refl, (keeps a p).0, off)
    frames_lem P (suc fuel) (suc left) a last keeps stops small total enough p =
        elim (Bool-cases (is_started (others a.frame looking a.service).state)) [
          | inr off ↦ (look others a, rw (off, frames) refl, (keeps a p).0, off)
          | inl on ↦
              let (b, ran, counted, kept) = (keeps a p).1 in
              let rest =
                frames_lem P fuel left (record b { frame = (b.frame + 1) % 2 ^ 32 }) last keeps
                  stops small (ground (arith, counted)) (omega arith) kept in
              rw (on, frames) (rw ran rest)
        ]
