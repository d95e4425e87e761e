-- ===== src/Programs/Server.antt =====
-- The program svlynx_sv/svlynx_sv.c, which means to send back to each client what it has sent.
use serverlynx.Prelude.{
  ℕ, Bool, true, false, Option, none, some, List, [], ◌∷◌, take, if◌then◌else◌, Status, success,
  failure,
}
use serverlynx.Tn.{Tn}
use serverlynx.Tn.Events.{Event, client_read}
use serverlynx.Service.{Service}
use serverlynx.Service.Commands.{cmd_send, uint64_max}
use serverlynx.Service.Config.{Sizes, Cfg, config_setup_default}
use serverlynx.Service.Lifecycle.{listen}
use serverlynx.Service.Setup.{Part, Setting, Memory, service_setup}
use serverlynx.Service.Updates.{acquire}
use serverlynx.Programs.{Moment, acquiring, App, Ended, poll, start_and_serve}

-- Whether a read event is among the events.
any_read : List Event → Bool
any_read [] = false
any_read (x ∷ xs) = elim x.type [ client_read ↦ true | _ ↦ any_read xs ]

module _ {T : Tn} where
  -- The status and the service, where `link->id` can be read, and is `stray`: nothing is ever stored in
  -- the local variable `link`.
  unfoldable pub handle_client_read : ℕ → Service T → Event → Status × Service T
  handle_client_read stray s x =
      let heap = T.buffers.read_reset s.heap x.priv in
      let (status, _, t) =
        cmd_send (record s { heap = heap }) stray (T.buffers.read_ptr heap x.priv)
          (T.buffers.read_length heap x.priv) in
      (status, t)

  -- One frame. Where `link->id` cannot be read, which `none` stands for, the first read event of the
  -- frame crashes the program.
  unfoldable pub server_frame :
      (ℕ → Moment → Service T → Service T) → Option ℕ → App T → Option (App T)
  unfolding handle_client_read any_read
  server_frame others (some stray) a = some (poll others (handle_client_read stray) a)
  server_frame others none a =
      let (_, count, s) = acquire (others a.frame acquiring a.service) in
      if any_read (take count s.event_updates)
      then none
      else some (poll others (λ t x. (failure, t)) a)

  -- From `svl_service_listen` on; `endpoint` is port 7777 of every address.
  listen_and_serve :
      (ℕ → Moment → Service T → Service T)
      → Option ℕ
      → ℕ
      → Bool
      → (Service T → Option (Status × Service T))
      → ℕ
      → Status × Service T
      → List Part
      → Option (Ended T)
  unfolding server_frame
  listen_and_serve others stray fuel launched join endpoint (failure, s) held =
      some (record { code = failure; service = s; held = held })
  listen_and_serve others stray fuel launched join endpoint (success, s) held =
      start_and_serve others (server_frame others stray) fuel launched join
        (record { service = s; cmd_open_id = uint64_max; client_id = uint64_max; frame = 0 }) held

  after_setup :
      (ℕ → Moment → Service T → Service T)
      → Option ℕ
      → ℕ
      → Bool
      → (Service T → Option (Status × Service T))
      → ℕ
      → Status
      → Setting T
      → Option (Ended T)
  unfolding listen_and_serve
  after_setup others stray fuel launched join endpoint failure r =
      some (record { code = failure; service = r.service; held = r.held })
  after_setup others stray fuel launched join endpoint success r =
      listen_and_serve others stray fuel launched join endpoint (listen r.service endpoint) r.held

  -- `main`. `system` is what `tn_system_setup` returns, `cfg` what its local configuration held, and
  -- `raw` is its local service.
  unfoldable pub server_main :
      (ℕ → Moment → Service T → Service T)
      → Option ℕ
      → ℕ
      → Bool
      → (Service T → Option (Status × Service T))
      → ℕ
      → Status
      → Sizes
      → Cfg
      → Memory
      → Bool
      → Service T
      → Option (Ended T)
  unfolding after_setup
  server_main others stray fuel launched join endpoint failure z cfg m clears raw =
      some (record { code = failure; service = raw; held = [] })
  server_main others stray fuel launched join endpoint success z cfg m clears raw =
      elim (config_setup_default z cfg 100).0 [
        | failure ↦ some (record { code = failure; service = raw; held = [] })
        | success ↦
            let r = service_setup m clears raw 100 in
            after_setup others stray fuel launched join endpoint r.status r
      ]
