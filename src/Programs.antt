-- ===== src/Programs.antt =====
-- What the programs svlynx_sv/svlynx_sv.c and svlynx_lg/svlynx_lg.c have in common: the loop of the main
-- thread, which takes events and submits commands sixty times a second. The IO thread runs beside it:
-- `others n m` says what it does to the service in frame `n` before the moment `m`.
pub mod Server
pub mod Generator
pub mod Laws
pub mod Ending
pub mod Mains
pub mod Handlers
use serverlynx.Prelude.{
  ℕ, zero, suc, ◌+◌, ◌%◌, ◌^◌, ◌==◌, Bool, true, false, Option, none, some, List, [], ◌∷◌, take,
  if◌then◌else◌, Status, success, failure,
}
use serverlynx.Tn.{Tn}
use serverlynx.Tn.Events.{Event, EventType, client_open, client_close, client_read, other}
use serverlynx.Service.{Service, ServiceState}
use serverlynx.Service.Commands.{is_started, uint64_max}
use serverlynx.Service.Lifecycle.{await_stop, start}
use mathlib.Core.Option
use serverlynx.Service.Setup.{Part, service_cleanup}
use serverlynx.Service.Updates.{acquire, release}

pub data Moment : Type 0 where
  looking acquiring releasing commanding ending : Moment

-- The globals of either program, with the service and the counter of frames of its `main`. The globals
-- that are stored but not read again are left out.
pub record App (T : Tn) : Type 0 where
  pub service : Service T
  pub cmd_open_id : ℕ
  pub client_id : ℕ
  pub frame : ℕ

-- What `main` returns, and the service and what it still holds then.
pub record Ended (T : Tn) : Type 0 where
  pub code : Status
  pub service : Service T
  pub held : List Part

module _ {T : Tn} where
  unfoldable pub handle_client_open : App T → Event → App T
  handle_client_open a x =
      if a.cmd_open_id == x.cmd_id then record a { client_id = x.client_id } else a

  -- `handle_client_close` only writes to the log, and the status of `read`, which is
  -- `handle_client_read`, is not looked at.
  unfoldable pub handle_event :
      (Service T → Event → Status × Service T) → EventType → App T → Event → App T
  unfolding handle_client_open
  handle_event read client_open a x = handle_client_open a x
  handle_event read client_close a x = a
  handle_event read client_read a x = record a { service = (read a.service x).1 }
  handle_event read other a x = a

  unfoldable pub handle_all : (Service T → Event → Status × Service T) → List Event → App T → App T
  unfolding handle_event
  handle_all read [] a = a
  handle_all read (x ∷ xs) a = handle_all read xs (handle_event read x.type a x)

  -- The body of the loop but for the commands. The status of the acquire is not looked at: if it
  -- fails, there are no events.
  unfoldable pub poll :
      (ℕ → Moment → Service T → Service T)
      → (Service T → Event → Status × Service T)
      → App T
      → App T
  unfolding handle_all
  poll others read a =
      let (_, count, s) = acquire (others a.frame acquiring a.service) in
      let b = handle_all read (take count s.event_updates) (record a { service = s }) in
      record b { service = (release (others a.frame releasing b.service)).1 }

  -- The loop, with fuel for its frames. `body` is what it does in a frame, `none` if it crashes there.
  unfoldable pub frames :
      (ℕ → Moment → Service T → Service T) → (App T → Option (App T)) → ℕ → App T → Option (App T)
  frames others body zero a = none
  frames others body (suc fuel) a =
      let s = others a.frame looking a.service in
      let rest : Option (App T) = elim (body (record a { service = s })) [
        | none ↦ none
        | some b ↦ frames others body fuel (record b { frame = (b.frame + 1) % 2 ^ 32 })
      ] in
      if is_started s.state then rest else some (record a { service = s })

  -- From the end of the loop to the end of `main`.
  stopped_with : List Part → Status × Service T → Ended T
  stopped_with held (failure, t) = record { code = failure; service = t; held = held }
  stopped_with held (success, t) = record {
    code = success;
    service = t;
    held = service_cleanup t held;
  }

  -- `none` means that the stop waits for good for the IO thread.
  unfoldable pub close_down :
      (Service T → Option (Status × Service T)) → Service T → List Part → Option (Ended T)
  unfolding stopped_with
  close_down join s held = Option.map (stopped_with held) (await_stop join s)

  unfoldable pub serve :
      (ℕ → Moment → Service T → Service T)
      → (App T → Option (App T))
      → ℕ
      → (Service T → Option (Status × Service T))
      → App T
      → List Part
      → Option (Ended T)
  unfolding frames close_down
  serve others body fuel join a held = elim (frames others body fuel a) [
    | none ↦ none
    | some b ↦ close_down join (others b.frame ending b.service) held
  ]

  -- From `svl_service_start` on.
  unfoldable pub start_and_serve :
      (ℕ → Moment → Service T → Service T)
      → (App T → Option (App T))
      → ℕ
      → Bool
      → (Service T → Option (Status × Service T))
      → App T
      → List Part
      → Option (Ended T)
  unfolding serve
  start_and_serve others body fuel launched join a held =
      let (code, s) = start launched a.service in
      elim code [
        | failure ↦ some (record { code = failure; service = s; held = held })
        | success ↦ serve others body fuel join (record a { service = s }) held
      ]
