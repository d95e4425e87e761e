-- ===== src/Io/Commands.antt =====
-- `handle_cmd_close` and `on_check_cb` of svlynx/service_internal.c.
pub mod Laws
pub mod Holders
pub mod Sound
pub mod Stocks
pub mod Order
use serverlynx.Prelude.{ℕ, zero, suc, Option, none, some}
use serverlynx.Tn.{Tn}
use serverlynx.Tn.Cmds.{Cmd, CmdType, client_open, client_close, client_send}
use serverlynx.Tn.Uv.{close_link_cb}
use serverlynx.Link.{LinkState}
use serverlynx.Link.List.{get}
use serverlynx.Service.{Service}
use serverlynx.Io.{kept, link_at, set_link, uv_close}
use serverlynx.Io.Sending.{live_handle, handle_cmd_send}
use serverlynx.Io.Connecting.{handle_cmd_open}

module _ {T : Tn} where
  unfoldable pub handle_cmd_close : Service T → Cmd → Service T
  handle_cmd_close s cmd = elim (get T.list s.link_list cmd.client_id) [
    | none ↦ s
    | some p ↦ elim (live_handle s (link_at s p)) [
      | none ↦ s
      | some h ↦
          uv_close
            (set_link s p
              (record (link_at s p) { cmd_close_id = cmd.id; state = LinkState.closing }))
            h close_link_cb
    ]
  ]

  unfoldable pub dispatch : CmdType → Service T → Cmd → Service T
  dispatch client_open s cmd = handle_cmd_open s cmd
  dispatch client_close s cmd = handle_cmd_close s cmd
  dispatch client_send s cmd = handle_cmd_send s cmd

  unfoldable pub free_cmd : Cmd → Service T → Service T
  free_cmd cmd s = record s { cmds = kept (T.cmds.free_push s.cmds cmd) s.cmds }

  -- The loop, with fuel; `none` means that the fuel ran out.
  unfoldable pub on_check_cb : ℕ → Service T → Option (Service T)
  unfolding dispatch free_cmd
  on_check_cb zero s = none
  on_check_cb (suc fuel) s = elim (T.cmds.ready_pop_back s.cmds) [
    | none ↦ some s
    | some (cmd, cmds) ↦
        on_check_cb fuel (free_cmd cmd (dispatch cmd.type (record s { cmds = cmds }) cmd))
  ]
