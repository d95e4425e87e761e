-- ===== src/Tests/Callbacks.antt =====
-- The theorems on the IO thread's callbacks, on a service of three links.
use serverlynx.Prelude.{
  ℕ, pos, ◌+◌, ◌%◌, ◌^◌, ◌≤◌, ◌≡◌, ◌≢◌, refl, ◌⊎◌, true, none, some, [], ◌∷◌, ◌++◌, arith, ◌==◌,
  ◌||◌,
}
use mathlib.Core.Option.{some-ne-none}
use serverlynx.Tn.Cmds.{Cmd, client_open, client_close, client_send}
use serverlynx.Tn.Events.{Event, client_read, client_close as event_client_close}
use serverlynx.Tn.Uv.{close_link_cb}
use serverlynx.Link.{closing, closed}
use serverlynx.Service.{Service, started, stopping}
use serverlynx.Io.{kept, link_at}
use serverlynx.Io.Links.{LinksFine, free_of}
use serverlynx.Io.Closing.{on_close_link_cb}
use serverlynx.Io.Closing.{on_timer_cb}
use serverlynx.Io.Closing.Stopping.{names, on_timer_cb_lem}
use serverlynx.Io.Closing.Laws.{on_close_link_cb_lem}
use serverlynx.Io.Receiving.{on_recv_cb}
use serverlynx.Io.Receiving.Laws.{recv_delivers, read_event}
use serverlynx.Io.Sending.{handle_cmd_send}
use serverlynx.Io.Sending.Laws.{Live, req_holders, HasRoom, send_needs-Live, send-holders}
use serverlynx.Io.Connecting.{on_inbound_connection_cb, handle_cmd_open}
use serverlynx.Io.Connecting.Laws.{Accepted, on_inbound_connection_cb_lem}
use serverlynx.Io.Connecting.Starting.{Opening, handle_cmd_open_lem}
use serverlynx.Io.Commands.{handle_cmd_close, on_check_cb}
use serverlynx.Io.Commands.Order.{execute, on_check_cb-execute}
use serverlynx.Io.Commands.Laws.{cmd_close_lem, held}
use serverlynx.Tests.Stocks.{a_cmd, an_event}
use serverlynx.Tests.Sample.{sample, sample-IsTn, in_state, three_links, three_links-IsWellFormed}

abbrev s0 : Service sample
s0 = in_state started

on_close_link_cb_lem_example :
    let t = on_close_link_cb s0 1 in
    LinksFine sample-IsTn t
    × ((link_at t 1).state ≡ closed)
    × ((link_at t 1).read_buffer ≡ none)
    × (((sample.events.free_pop s0.events event_client_close ≡ none)
          × (t.events ≡ s0.events)
          × (free_of sample-IsTn t ≡ free_of sample-IsTn s0))
        ⊎ ((x : Event) × (events : sample.events.Carrier) × (sample.events.free_pop s0.events
                event_client_close
              ≡ some (x, events))
            × (t.events
                ≡ kept
                    (sample.events.ready_push events
                      (record x { client_id = 1; error_code = pos 0; cmd_id = 0 }))
                    events)
            × (free_of sample-IsTn t ≡ 1 ∷ 2 ∷ 0 ∷ [])))
on_close_link_cb_lem_example =
    on_close_link_cb_lem sample-IsTn s0 1 three_links-IsWellFormed (omega arith) refl

recv_delivers_example :
    let t = on_recv_cb s0 1 7 (pos 2) true in
    (t.events.1
      ≡ [] ++ read_event sample-IsTn s0 1 20 (0 ∷ 0 ∷ [], [], 62) (an_event 3 client_read) ∷ [])
    × (client_read ≡ client_read)
    × ((link_at t 1).read_buffer ≡ none)
    × (t.recv_msgs ≡ (0 + 1) % 2 ^ 64)
    × (t.recv_bytes ≡ (0 + 2) % 2 ^ 64)
    × (t.heap ≡ (0 ∷ 0 ∷ [], [], 62))
recv_delivers_example = recv_delivers sample-IsTn s0 1 7 1 20 refl refl refl refl

abbrev a_send : Cmd
a_send = record (a_cmd 2 client_send) { client_id = 1; buffer = 900; len = 10 }

send_needs-Live_example : ((h : ℕ) × Live s0 1 h) ⊎ (handle_cmd_send s0 a_send ≡ s0)
send_needs-Live_example = send_needs-Live s0 a_send

send-holders_example :
    (req_holders sample-IsTn (handle_cmd_send s0 a_send) 0 ≡ 1)
    × HasRoom sample-IsTn (handle_cmd_send s0 a_send)
send-holders_example = send-holders sample-IsTn s0 a_send 0 (omega arith)

on_inbound_connection_cb_lem_example :
    Accepted sample-IsTn three_links (on_inbound_connection_cb s0 (pos 0))
on_inbound_connection_cb_lem_example =
    on_inbound_connection_cb_lem sample-IsTn s0 (pos 0) three_links-IsWellFormed

handle_cmd_open_lem_example :
    Opening sample-IsTn s0 (a_cmd 1 client_open) (handle_cmd_open s0 (a_cmd 1 client_open))
handle_cmd_open_lem_example =
    handle_cmd_open_lem sample-IsTn s0 (a_cmd 1 client_open) three_links-IsWellFormed

abbrev a_close : Cmd
a_close = record (a_cmd 2 client_close) { client_id = 1 }

cmd_close_lem_example :
    let t = handle_cmd_close s0 a_close in
    ((h : ℕ) × Live s0 1 h
      × (t.world ≡ sample.uv.close s0.world h close_link_cb)
      × ((k : ℕ) → sample.uv.is_closing t.world k ≡ (h == k || sample.uv.is_closing s0.world k))
      × ((link_at t 1).state ≡ closing)
      × ((link_at t 1).cmd_close_id ≡ 2)
      × ((q : ℕ) → 1 ≢ q → link_at t q ≡ link_at s0 q))
    ⊎ (((h : ℕ) → ¬ Live s0 1 h) × (t ≡ s0))
cmd_close_lem_example = cmd_close_lem sample-IsTn s0 a_close

abbrev two_wait : Service sample
two_wait = record s0 { cmds = ([], a_close ∷ a_cmd 1 client_open ∷ []) }

once : (a : ℕ) → held sample-IsTn a two_wait ≤ 1
once a = ground arith

on_check_cb-execute_example :
    (c : sample.cmds.Carrier) × (on_check_cb 3 two_wait
      ≡ some (record (execute (a_close ∷ a_cmd 1 client_open ∷ []) two_wait) { cmds = c }))
on_check_cb-execute_example =
    on_check_cb-execute sample-IsTn (λ c x h. some-ne-none _) 3 two_wait once (omega arith)

-- A service that stops, whose listener is handle 60 and whose timer is handle 61.
abbrev stops : Service sample
stops = record (in_state stopping) { tcp_handle = some 60; uv_accept_timer = some 61 }

on_timer_cb_lem_example :
    ((stopping ≡ started) × (on_timer_cb stops ≡ stops))
    ⊎ ((stopping ≢ started)
        × ((k : ℕ)
            → sample.uv.is_closing (on_timer_cb stops).world k ≡ (
                names none k
                || (names none k
                    || (names none k
                        || (names (some 61) k
                            || (names (some 60) k || sample.uv.is_closing stops.world k)))))))
on_timer_cb_lem_example = on_timer_cb_lem sample-IsTn stops
