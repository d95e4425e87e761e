-- ===== src/Service/Commands.antt =====
-- `svl_service_cmd_open`, `_cmd_close` and `_cmd_send` of svlynx/service.c, by which the main thread
-- queues commands for the IO thread. Each returns its status, what it leaves in `*cmd_id`, and the
-- service. The three have their guards and the order of their pops and pushes in common, in
-- `submit`; `fill` are the fields that the call writes.
pub mod Laws
use serverlynx.Prelude.{
  ℕ, ◌-◌, ◌^◌, Bool, true, false, Option, none, some, Status, success, failure, if◌then◌else◌,
}
use serverlynx.Tn.{Tn}
use serverlynx.Tn.Cmds.{Cmd, CmdType, client_open, client_close, client_send}
use serverlynx.Service.{Service, ServiceState, started}

abbrev pub uint64_max : ℕ
uint64_max = 18446744073709551615

abbrev pub is_started : ServiceState → Bool
is_started started = true
is_started _ = false

module _ {T : Tn} where
  -- From `tn_cmd_list_free_pop_*` to the end of the function. The command is lost if the push fails.
  unfoldable pub submit : CmdType → (Cmd → Cmd) → Service T → Status × ℕ × Service T
  submit kind fill s = elim (T.cmds.free_pop s.cmds kind) [
    | none ↦ (failure, uint64_max, s)
    | some (x, cmds) ↦ elim (T.cmds.ready_push cmds (fill x)) [
      | none ↦ (failure, x.id, record s { cmds = cmds })
      | some cmds' ↦ (success, x.id, record s { cmds = cmds' })
    ]
  ]

  unfoldable pub cmd_open : Service T → ℕ → Status × ℕ × Service T
  unfolding submit
  cmd_open s endpoint =
      if is_started s.state
      then submit client_open (λ x. record x { endpoint = endpoint }) s
      else (failure, uint64_max, s)

  unfoldable pub cmd_close : Service T → ℕ → Status × ℕ × Service T
  unfolding submit
  cmd_close s client_id =
      if is_started s.state
      then submit client_close (λ x. record x { client_id = client_id }) s
      else (failure, uint64_max, s)

  -- A write request must be free, but it stays in the queue: it is peeked at and not popped.
  unfoldable pub cmd_send : Service T → ℕ → ℕ → ℕ → Status × ℕ × Service T
  unfolding submit
  cmd_send s client_id msg msglen =
      if is_started s.state
      then elim (T.queue.peek s.write_reqs_free) [
        | none ↦ (failure, uint64_max, s)
        | some send_req ↦
            submit client_send
              (λ x. record x { client_id = client_id; buffer = msg; len = msglen; priv = send_req })
              s
      ]
      else (failure, uint64_max, s)
