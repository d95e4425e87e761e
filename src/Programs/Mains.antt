-- ===== src/Programs/Mains.antt =====
-- How `main` of the two programs ends.
use serverlynx.Prelude.{
  ℕ, ◌^◌, ◌<◌, ◌≡◌, ◌⊎◌, inl, inr, refl, ◌∙◌, Bool, false, Option, some, [], Status, success,
  failure, arith,
}
use serverlynx.Tn.{Tn, IsTn}
use serverlynx.Tn.Events.{Event}
use serverlynx.Service.{Service, new}
use serverlynx.Service.Commands.{is_started, uint64_max, cmd_open, cmd_send, submit}
use serverlynx.Service.Config.{Sizes, Cfg, config_setup, config_setup_default}
use serverlynx.Service.Lifecycle.{listen}
use serverlynx.Service.Setup.{Memory, service_setup}
use serverlynx.Service.Setup.Laws.{service_setup_lem}
use serverlynx.Programs.{Moment, looking, commanding, App, Ended, poll}
use serverlynx.Programs.Ending.{
  KeepsPriv, OthersKeep, Joins, HasPriv, poll-HasPriv, poll-frame, start_and_serve_lem,
}
use serverlynx.Programs.Generator.{
  generator_main, generator_frame, command, handle_client_read, max_clients,
}
use serverlynx.Programs.Server.{server_main, server_frame}
use serverlynx.Programs.Server

module _ {T : Tn} where
  cmd_open-HasPriv : (endpoint : ℕ) → KeepsPriv {T = T} (λ s. (cmd_open s endpoint).2)
  unfolding cmd_open submit
  cmd_open-HasPriv endpoint s h = ground arith

  cmd_send-HasPriv : (id msg msglen : ℕ) → KeepsPriv {T = T} (λ s. (cmd_send s id msg msglen).2)
  unfolding cmd_send submit
  cmd_send-HasPriv id msg msglen s h = ground arith

  read-HasPriv : (x : Event) → KeepsPriv {T = T} (λ s. (handle_client_read s x).1)
  unfolding handle_client_read
  read-HasPriv x s h = ground arith

  command-HasPriv :
      (others : ℕ → Moment → Service T → Service T) (endpoint msg msglen : ℕ) (a : App T)
      → OthersKeep others
      → HasPriv a.service
      → HasPriv (command others endpoint msg msglen a).service
  unfolding command
  command-HasPriv others endpoint msg msglen a still h =
      let s = others a.frame commanding a.service in
      let kept : HasPriv s = still a.frame commanding a.service h in
      let opened = cmd_open-HasPriv endpoint s kept in
      let sent = cmd_send-HasPriv a.client_id msg msglen s kept in ground arith

  command-frame :
      (others : ℕ → Moment → Service T → Service T) (endpoint msg msglen : ℕ) (a : App T)
      → (command others endpoint msg msglen a).frame ≡ a.frame
  unfolding command
  command-frame others endpoint msg msglen a = ground arith

  generator_frame-HasPriv :
      (others : ℕ → Moment → Service T → Service T) (endpoint msg msglen : ℕ) (a : App T)
      → OthersKeep others
      → HasPriv a.service
      → HasPriv (generator_frame others endpoint msg msglen a).service
  unfolding generator_frame
  generator_frame-HasPriv others endpoint msg msglen a still h =
      command-HasPriv others endpoint msg msglen (poll others handle_client_read a) still
        (poll-HasPriv others handle_client_read a still read-HasPriv h)

  generator_frame-frame :
      (others : ℕ → Moment → Service T → Service T) (endpoint msg msglen : ℕ) (a : App T)
      → (generator_frame others endpoint msg msglen a).frame ≡ a.frame
  unfolding generator_frame
  generator_frame-frame others endpoint msg msglen a =
      command-frame others endpoint msg msglen (poll others handle_client_read a)
      ∙ poll-frame others handle_client_read a

  echo-HasPriv :
      (stray : ℕ) (x : Event) → KeepsPriv {T = T} (λ s. (Server.handle_client_read stray s x).1)
  unfolding Server.handle_client_read
  echo-HasPriv stray x s h =
      let heap = T.buffers.read_reset s.heap x.priv in
      cmd_send-HasPriv stray (T.buffers.read_ptr heap x.priv) (T.buffers.read_length heap x.priv)
        (record s { heap = heap }) h

  module _ (L : IsTn T) (others : ℕ → Moment → Service T → Service T)
      (join : Service T → Option (Status × Service T)) (still : OthersKeep others)
      (joins : Joins join) where
    -- If in some frame before 2^32 the IO thread lets the state be seen not to be STARTED, if it leaves
    -- the private part of the service alone, and if a join of it returns when the service is STOPPING,
    -- then `main` of svlynx_lg returns, and either it says that it failed or it holds nothing any more of
    -- what the set-up of its service acquired.
    pub generator_main_lem :
        (endpoint msg msglen fuel last : ℕ) (launched clears : Bool) (system : Status) (m : Memory)
        → (raw : Service T) → ((s : Service T) → is_started (others last looking s).state ≡ false)
        → last < 2 ^ 32
        → last < fuel
        → (r : Ended T) × (generator_main others endpoint msg msglen fuel launched join system m
              clears raw
            ≡ some r)
          × ((r.code ≡ failure) ⊎ (r.held ≡ []))
    unfolding generator_main
    generator_main_lem endpoint msg msglen fuel last launched clears failure m raw stops small
          enough =
        (record { code = failure; service = raw; held = [] }, refl, inl refl)
    generator_main_lem endpoint msg msglen fuel last launched clears success m raw stops small
          enough =
        let r = service_setup m clears raw max_clients in
        elim (service_setup_lem L m clears raw max_clients) [
          | inl (_, _, _, e, _) ↦ (
            record { code = failure; service = r.service; held = r.held },
            rw (e, generator_main) refl,
            inl refl,
          )
          | inr (e, held, _, priv, _, _, _, _, _) ↦
              let a : App T = record {
                service = r.service;
                cmd_open_id = T.cmd_invalid;
                client_id = T.cmd_invalid;
                frame = 0;
              } in
              let run =
                start_and_serve_lem others
                  (λ b. some (generator_frame others endpoint msg msglen b)) join still joins
                  (λ b p. (
                    generator_frame others endpoint msg msglen b,
                    refl,
                    generator_frame-frame others endpoint msg msglen b,
                    generator_frame-HasPriv others endpoint msg msglen b still p,
                  ))
                  fuel last launched a stops small enough refl priv in
              rw (e, generator_main) (rw held run)
        ]

    -- If in some frame before 2^32 the IO thread lets the state be seen not to be STARTED, if it leaves
    -- the private part of the service alone, if a join of it returns when the service is STOPPING, and
    -- if each read of `link->id` finds a number, always the same, and does not crash the program, though
    -- `link` is never set, then `main` of svlynx_sv returns, and either it says that it failed or it
    -- holds nothing any more of what the set-up of its service acquired.
    pub server_main_lem :
        (stray endpoint fuel last : ℕ) (launched clears : Bool) (system : Status) (z : Sizes)
        → (cfg : Cfg) (m : Memory) (raw : Service T)
        → ((s : Service T) → is_started (others last looking s).state ≡ false)
        → last < 2 ^ 32
        → last < fuel
        → (r : Ended T) × (server_main others
              (some stray)
              fuel
              launched
              join
              endpoint
              system
              z
              cfg
              m
              clears
              raw
            ≡ some r)
          × ((r.code ≡ failure) ⊎ (r.held ≡ []))
    unfolding server_main server_frame config_setup_default config_setup listen
    server_main_lem stray endpoint fuel last launched clears failure z cfg m raw stops small
          enough =
        (record { code = failure; service = raw; held = [] }, refl, inl refl)
    server_main_lem stray endpoint fuel last launched clears success z cfg m raw stops small
          enough =
        let r = service_setup m clears raw 100 in
        elim (service_setup_lem L m clears raw 100) [
          | inl (_, _, _, e, _) ↦ (
            record { code = failure; service = r.service; held = r.held },
            rw (e, server_main) refl,
            inl refl,
          )
          | inr (e, held, is_new, priv, _, _, _, _, _) ↦
              let a : App T = record {
                service = record r.service { state = new; host_listen = endpoint };
                cmd_open_id = uint64_max;
                client_id = uint64_max;
                frame = 0;
              } in
              let run =
                start_and_serve_lem others (server_frame others (some stray)) join still joins
                  (λ b p. (
                    poll others (Server.handle_client_read stray) b,
                    refl,
                    poll-frame others (Server.handle_client_read stray) b,
                    poll-HasPriv others (Server.handle_client_read stray) b still
                        (echo-HasPriv stray) p,
                  ))
                  fuel last launched a stops small enough refl priv in
              rw (e, server_main) (simp (held, is_new) run)
        ]
