-- ===== src/Tests/Whole.antt =====
-- The theorems on both threads together.
use serverlynx.Prelude.{
  ℕ, zero, suc, ℤ, pos, negsuc, ◌+◌, ◌%◌, ◌^◌, ◌<◌, ◌≤◌, ◌≡◌, ◌≢◌, refl, inl, true, false, some, [],
  ◌∷◌, ◌++◌, arith, elem,
}
use mathlib.Core.Option.{some-ne-none}
use serverlynx.Tn.Cmds.{CmdType}
use serverlynx.Tn.Events.{client_close}
use serverlynx.Link.{LinkState, closing}
use serverlynx.Service.{Service, starting, started, stopping}
use serverlynx.Service.Commands.{cmd_close, cmd_send}
use serverlynx.Service.Commands.Laws.{closes, sends, call}
use serverlynx.Service.IoThread.{UvCall, loop_close, io_thread}
use serverlynx.Service.IoThread.Refines.{Steps, stays, then_step, view, io_thread-Steps}
use serverlynx.Service.Threads.{
  MainPc, IoPc, at_rest, setting_up, looping, done, Step, timer, signal_load, signal_store,
}
use serverlynx.Io.{link_at, kept}
use serverlynx.Io.Links.{free_of}
use serverlynx.Io.Closing.{on_close_link_cb}
use serverlynx.Io.Commands.{dispatch, on_check_cb, handle_cmd_close}
use serverlynx.Io.Connecting.{handle_cmd_open}
use serverlynx.Link.List.{open_link, get}
use serverlynx.Io.Commands.Laws.{held}
use serverlynx.Io.Commands.Order.{execute}
use serverlynx.Io.Receiving.{on_recv_cb}
use serverlynx.Io.Sending.{on_send_cb, live_handle}
use serverlynx.Io.Sending.Laws.{Live, free_reqs}
use serverlynx.Io.Sound.{IsSound}
use serverlynx.Service.Updates.{
  acquire, release, release_all, release_one, return_buffer, free_event,
}
use serverlynx.System.{Move, Moves, receives_error, submits}
use serverlynx.System.Deliveries.{filled, on_send_cb-cmd_send}
use serverlynx.System.Endings.{close_event, on_close_link_cb-cmd_close}
use serverlynx.System.Meanwhile.{Meanwhile}
use serverlynx.System.Links.{Run, Run-IsSound}
use serverlynx.System.States.{Cycles}
use serverlynx.System.States.Cycling.{Run-Cycles}
use serverlynx.System.Stocks.{IsOnce, Moves-IsOnce}
use serverlynx.System.Requests.{Executed, on_check_cb-call}
use serverlynx.Tests.Sample.{sample, sample-IsTn, in_state, three_links, three_links-IsWellFormed}
use serverlynx.Tests.Stocks.{a_cmd, an_event}

free_new : (p : ℕ) → elem p (2 ∷ 0 ∷ []) ≡ true → (three_links.client_map p).state ≡ LinkState.new
free_new zero e = refl
free_new (suc zero) e = absurd (ground arith)
free_new (suc (suc j)) e = refl

taken_handled :
    (p : ℕ)
    → p < 3
    → elem p (2 ∷ 0 ∷ []) ≡ false
    → (h : ℕ) × ((three_links.client_map p).priv ≡ some h)
taken_handled zero b e = absurd (ground arith)
taken_handled (suc zero) b e = (7, refl)
taken_handled (suc (suc j)) b e = absurd (ground arith)

pub three_links-IsSound : IsSound sample-IsTn three_links
three_links-IsSound = record {
  fine = three_links-IsWellFormed;
  idle = λ p e. inl (free_new p e);
  handled = taken_handled;
}

-- Reading from link 1 fails, and the close of its handle ends.
abbrev failed : Service sample
failed = on_recv_cb (in_state started) 1 7 (negsuc 4) true

failed_closing : (link_at failed 1).state ≡ closing
unfolding on_recv_cb
failed_closing = refl

failed_size : failed.link_list.clients_max ≡ 3
unfolding on_recv_cb
failed_size = refl

fails : Move (in_state started) false failed false
fails = receives_error 1 7 4 true

closes_1 : Move failed false (on_close_link_cb failed 1) false
closes_1 = Move.closes 1 (omega (arith, failed_size))

Run-IsSound_example : IsSound sample-IsTn (on_close_link_cb failed 1).link_list
unfolding fails closes_1
Run-IsSound_example =
    Run-IsSound sample-IsTn (in_state started) (on_close_link_cb failed 1) false false
      three_links-IsSound
      (Run.then_move (Run.then_move Run.done fails (inl refl)) closes_1 failed_closing)

Run-Cycles_example : Cycles sample-IsTn failed.link_list (on_close_link_cb failed 1).link_list
unfolding fails closes_1
Run-Cycles_example =
    Run-Cycles sample-IsTn (in_state started) failed (on_close_link_cb failed 1) false false false
      three_links-IsSound (Run.then_move Run.done fails (inl refl)) closes_1 failed_closing

-- A signal comes while the loop runs, and the timer finds that the service stops.
abbrev signalled : Service sample → Service sample
signalled u = record u { state = stopping }

signalled_path :
    (n : MainPc) (v : Service sample)
    → v.state ≡ started
    → (n' : MainPc) × Steps (view v n looping) (view (signalled v) n' IoPc.closing)
signalled_path n v e = (
  n,
  then_step
      (then_step (then_step stays (Step.signal (signal_load refl refl)))
        (Step.signal (signal_store refl (ground arith) refl)))
      (Step.io (timer refl (ground arith) refl)),
)

-- The first call that closes the loop fails.
abbrev answers : UvCall → ℤ
answers loop_close = negsuc 15
answers x = pos 0

abbrev ended : Service sample
ended =
    (io_thread (λ x. 90) (negsuc 11) (λ x. true) answers true true (λ u. u) signalled
      (in_state starting)).0

io_thread-Steps_example :
    (m' : MainPc) × Steps (view (in_state starting) at_rest setting_up) (view ended m' done)
io_thread-Steps_example =
    io_thread-Steps (λ x. 90) (negsuc 11) (λ x. true) answers true true (λ u. u) signalled
      (in_state starting) at_rest (λ n v. (n, stays)) signalled_path

-- An open command waits, and command 2 is free.
abbrev pub waits : Service sample
waits = record (in_state started) { cmds = (2 ∷ [], a_cmd 1 CmdType.client_open ∷ []) }

pub once : (a : ℕ) → held sample-IsTn a waits ≤ 1
once a = ground arith

abbrev pub after : Service sample
after = execute (a_cmd 1 CmdType.client_open ∷ []) waits

on_check_cb-call_example :
    (t : Service sample) × (on_check_cb 3 (call waits (closes 1)).2 ≡ some t)
    × Executed sample-IsTn (closes 1) waits 2 t
unfolding cmd_close
on_check_cb-call_example =
    on_check_cb-call sample-IsTn (λ c x h. some-ne-none _) (closes 1) waits
      (call waits (closes 1)).2 2 3 once refl (omega arith)

after-Live : Live after 1 7
unfolding dispatch handle_cmd_open open_link
after-Live = record { in_array = omega arith; handle = refl; is_opened = refl; running = refl }

-- The IO thread executes both commands, and the main thread asks for another close.
abbrev executed : Service sample
executed = kept (on_check_cb 3 (call waits (closes 1)).2) (call waits (closes 1)).2

abbrev asked_again : Service sample
asked_again = (call executed (closes 2)).2

asked_again_size : asked_again.link_list.clients_max ≡ 3
unfolding cmd_close dispatch handle_cmd_open open_link on_check_cb handle_cmd_close get live_handle
asked_again_size = refl

asks_again : Meanwhile sample-IsTn 1 executed false asked_again false
asks_again = Meanwhile.then_move Meanwhile.done (submits (closes 2)) tt tt

on_close_link_cb-cmd_close_example :
    (on_check_cb 3 (call waits (closes 1)).2 ≡ some executed)
    × (sample.uv.is_closing executed.world 7 ≡ true)
    × (let u = on_close_link_cb asked_again 1 in
        (free_of sample-IsTn u ≡ 1 ∷ free_of sample-IsTn asked_again)
        × (u.events.1
            ≡ asked_again.events.1 ++ close_event sample-IsTn (an_event 3 client_close) 1 2 ∷ []))
unfolding cmd_close dispatch handle_cmd_open open_link on_check_cb handle_cmd_close get live_handle
on_close_link_cb-cmd_close_example =
    on_close_link_cb-cmd_close sample-IsTn (λ c x h. some-ne-none _) waits (call waits (closes 1)).2
      1 7 2 3 asked_again false false (an_event 3 client_close) (4 ∷ [], [])
      (4 ∷ [], close_event sample-IsTn (an_event 3 client_close) 1 2 ∷ []) once three_links-IsSound
      refl (omega arith) after-Live asks_again (omega (arith, asked_again_size)) refl refl

on_send_cb-cmd_send_example :
    (t : Service sample) × (on_check_cb 3 (call waits (sends 1 500 12)).2 ≡ some t)
    × (t.world ≡ ([], 0 ∷ [], 52))
    × (t.world.1 ≡ 0 ∷ after.world.1)
    × (t.send_req 0 ≡ filled 1 500 12 2)
    × ((q : ℕ) → 0 ≢ q → t.send_req q ≡ after.send_req q)
    × (let u = on_send_cb (record t { world = ([], [], 53) }) 0 (pos 0) in
        (free_reqs sample-IsTn u ≡ free_reqs sample-IsTn after)
        × (u.send_bytes ≡ (after.send_bytes + 12) % 2 ^ 64)
        × (u.send_msgs ≡ (after.send_msgs + 1) % 2 ^ 64))
unfolding cmd_send dispatch handle_cmd_open open_link
on_send_cb-cmd_send_example =
    on_send_cb-cmd_send sample-IsTn (λ c x h. some-ne-none _) waits (call waits (sends 1 500 12)).2
      1 7 500 12 2 0 3 (4, 1 ∷ []) ([], 0 ∷ [], 52) ([], [], 53) once refl (omega arith) after-Live
      (omega arith) refl refl

spread-IsOnce : IsOnce sample-IsTn (in_state started) true
spread-IsOnce a = (ground arith, ground arith)

-- The main thread gives back what it has, and takes what link 1 brings.
abbrev brought : Service sample
brought = on_recv_cb (release (in_state started)).1 1 7 (pos 10) true

Moves-IsOnce_example : IsOnce sample-IsTn (acquire brought).2 true
unfolding release release_all release_one return_buffer free_event
Moves-IsOnce_example =
    Moves-IsOnce sample-IsTn (in_state started) (acquire brought).2 true true spread-IsOnce (
      Moves.then_move
        (Moves.then_move (Moves.then_move Moves.done Move.releases)
          (Move.receives 1 7 10 20 true (omega arith) refl))
        Move.acquires)
