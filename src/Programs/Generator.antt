-- ===== src/Programs/Generator.antt =====
-- The program svlynx_lg/svlynx_lg.c, which opens one connection and then sends a message on it every 64
-- frames. `msg` and `msglen` are its message, `endpoint` is port 7777 of the machine itself.
use serverlynx.Prelude.{
  ℕ, ◌%◌, ◌==◌, Bool, not, ◌&&◌, Option, none, some, [], if◌then◌else◌, Status, success, failure,
}
use serverlynx.Tn.{Tn}
use serverlynx.Tn.Events.{Event}
use serverlynx.Link.List.{get}
use serverlynx.Service.{Service}
use serverlynx.Service.Commands.{cmd_open, cmd_send}
use serverlynx.Service.Setup.{Setting, Memory, service_setup}
use serverlynx.Programs.{Moment, commanding, App, Ended, poll, start_and_serve}

abbrev pub max_clients : ℕ
max_clients = 1000

module _ {T : Tn} where
  -- `failure` stands for `TN_EVENT_NOCHAN`.
  unfoldable pub handle_client_read : Service T → Event → Status × Service T
  handle_client_read s x = elim (get T.list s.link_list x.client_id) [
    | none ↦ (failure, s)
    | some link ↦ (success, s)
  ]

  -- What the loop does with its commands, once the events have been given back.
  unfoldable pub command : (ℕ → Moment → Service T → Service T) → ℕ → ℕ → ℕ → App T → App T
  command others endpoint msg msglen a =
      let s = others a.frame commanding a.service in
      if a.frame == 0
      then (let (_, id, t) = cmd_open s endpoint in record a { service = t; cmd_open_id = id })
      else if a.frame % 64 == 0 && not (a.client_id == T.cmd_invalid)
      then record a { service = (cmd_send s a.client_id msg msglen).2 }
      else record a { service = s }

  -- One frame.
  unfoldable pub generator_frame : (ℕ → Moment → Service T → Service T) → ℕ → ℕ → ℕ → App T → App T
  unfolding command handle_client_read
  generator_frame others endpoint msg msglen a =
      command others endpoint msg msglen (poll others handle_client_read a)

  load_after_setup :
      (ℕ → Moment → Service T → Service T)
      → ℕ
      → ℕ
      → ℕ
      → ℕ
      → Bool
      → (Service T → Option (Status × Service T))
      → Status
      → Setting T
      → Option (Ended T)
  unfolding generator_frame
  load_after_setup others endpoint msg msglen fuel launched join failure r =
      some (record { code = failure; service = r.service; held = r.held })
  load_after_setup others endpoint msg msglen fuel launched join success r =
      start_and_serve others (λ a. some (generator_frame others endpoint msg msglen a)) fuel
        launched join
        (record {
          service = r.service;
          cmd_open_id = T.cmd_invalid;
          client_id = T.cmd_invalid;
          frame = 0;
        })
        r.held

  -- `main`, with `system` and `raw` as in the program svlynx_sv.
  unfoldable pub generator_main :
      (ℕ → Moment → Service T → Service T)
      → ℕ
      → ℕ
      → ℕ
      → ℕ
      → Bool
      → (Service T → Option (Status × Service T))
      → Status
      → Memory
      → Bool
      → Service T
      → Option (Ended T)
  unfolding load_after_setup
  generator_main others endpoint msg msglen fuel launched join failure m clears raw =
      some (record { code = failure; service = raw; held = [] })
  generator_main others endpoint msg msglen fuel launched join success m clears raw =
      let r = service_setup m clears raw max_clients in
      load_after_setup others endpoint msg msglen fuel launched join r.status r
