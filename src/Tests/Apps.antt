-- ===== src/Tests/Apps.antt =====
-- The theorems on the programs, with an IO thread that starts in the first frame and ends in the next.
use serverlynx.Prelude.{
  ℕ, pos, zero, suc, ◌+◌, ◌≡◌, refl, ◌⊎◌, true, false, Option, some, List, [], ◌∷◌, ◌++◌, count,
  arith, Status, success, failure,
}
use mathlib.Core.Option.{some-ne-none, some-injective}
use mathlib.Core.Path.{subst}
use serverlynx.Tn.Cmds.{Cmd, client_send}
use serverlynx.Tn.Events.{Event, client_open}
use serverlynx.Service.{Service, ServiceState, started, starting, stopped}
use serverlynx.Service.Commands.{cmd_send}
use serverlynx.Service.Config.{Sizes, config_default_instance}
use serverlynx.Service.Setup.{Memory}
use serverlynx.Service.Updates.{release, release_one}
use serverlynx.Io.Receiving.{on_recv_cb}
use serverlynx.System.{then_move, done, receives, releases}
use serverlynx.System.Buffers.{IsSole, Moves-IsSole}
use serverlynx.Programs.{Moment, looking, App, Ended, handle_all}
use serverlynx.Programs.Generator.{generator_main}
use serverlynx.Programs.Server.{server_main, handle_client_read}
use serverlynx.Programs.Laws.{Chosen, handle_all_lem}
use serverlynx.Programs.Ending.{Joins, HasPriv}
use serverlynx.Programs.Mains.{generator_main_lem, server_main_lem}
use serverlynx.Programs.Handlers.{handle_client_read_lem}
use serverlynx.Tests.Sample.{sample, sample-IsTn, in_state, a_read}
use serverlynx.Tests.Stocks.{an_event}

abbrev seen : ℕ → ServiceState
seen zero = started
seen (suc n) = stopped

abbrev others : ℕ → Moment → Service sample → Service sample
others n looking s = record s { state = seen n }
others n m s = s

abbrev joined_well : Service sample → Option (Status × Service sample)
joined_well s = some (success, s)

joined_well-Joins : Joins joined_well
joined_well-Joins = record {
  returns = λ s e. ((success, s), refl);
  keeps = λ s r e h. subst (λ (x : Status × Service sample). HasPriv x.1) (some-injective _ _ e) h;
}

abbrev plenty : Memory
plenty part = true

abbrev app : App sample
app = record { service = in_state started; cmd_open_id = 8; client_id = 99; frame = 0 }

-- A connection of another command, one of command 8, and a read.
abbrev events : List Event
events =
    record (an_event 1 client_open) { cmd_id = 7; client_id = 0 }
    ∷ record (an_event 2 client_open) { cmd_id = 8; client_id = 2 }
    ∷ a_read
    ∷ []

abbrev no_read : Service sample → Event → Status × Service sample
no_read s x = (success, s)

handle_all_lem_example :
    ((handle_all no_read events app).cmd_open_id ≡ 8)
    × ((handle_all no_read events app).frame ≡ 0)
    × Chosen 8 events 99 (handle_all no_read events app).client_id
handle_all_lem_example = handle_all_lem no_read events app

others_keep :
    (n : ℕ) (m : Moment) (s : Service sample) → s.priv_set ≡ true → (others n m s).priv_set ≡ true
others_keep n m s e = ground arith

generator_main_lem_example :
    (r : Ended sample) × (generator_main others 5 70 30 2 true joined_well success plenty true
        (in_state starting)
      ≡ some r)
    × ((r.code ≡ failure) ⊎ (r.held ≡ []))
generator_main_lem_example =
    generator_main_lem sample-IsTn others joined_well others_keep joined_well-Joins 5 70 30 2 1 true
      true success plenty (in_state starting) (λ s. refl) (omega arith) (omega arith)

abbrev sizes : Sizes
sizes = record { event_base = 64; cmd_base = 64; write_req = 64 }

server_main_lem_example :
    (r : Ended sample) × (server_main others
        (some 3)
        2
        true
        joined_well
        5
        success
        sizes
        config_default_instance
        plenty
        true
        (in_state starting)
      ≡ some r)
    × ((r.code ≡ failure) ⊎ (r.held ≡ []))
server_main_lem_example =
    server_main_lem sample-IsTn others joined_well others_keep joined_well-Joins 3 5 2 1 true true
      success sizes config_default_instance plenty (in_state starting) (λ s. refl) (omega arith)
      (omega arith)

abbrev answered : Service sample
answered = (cmd_send (in_state started) 3 121 0).2

handle_client_read_lem_example :
    (c : Cmd) × ((c.type ≡ client_send) × (c.client_id ≡ 3) × (c.buffer ≡ 121) × (c.len ≡ 0))
    × (sample-IsTn.cmds.ready (release_one a_read answered).cmds ≡ [] ++ c ∷ [])
    × (count 21 (sample-IsTn.pool.items (release_one a_read answered).pool_read)
        ≡ 1 + count 21 (sample-IsTn.pool.items answered.pool_read))
unfolding handle_client_read cmd_send
handle_client_read_lem_example =
    handle_client_read_lem sample-IsTn 3 (in_state started) answered a_read refl refl
      (some-ne-none _) (some-ne-none _)

-- The service with one buffer at each place, and the last one in the hands of the main thread.
spread : IsSole sample-IsTn (in_state started) true
spread a = ground arith

-- Data arrives for link 1, and the main thread gives back what it has.
abbrev filled : Service sample
filled = on_recv_cb (in_state started) 1 7 (pos 10) true

Moves-IsSole_example : IsSole sample-IsTn (release filled).1 false
Moves-IsSole_example =
    Moves-IsSole sample-IsTn (in_state started) (release filled).1 true false spread
      (then_move (then_move done (receives 1 7 10 20 true (omega arith) refl)) releases)
