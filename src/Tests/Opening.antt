-- ===== src/Tests/Opening.antt =====
-- The theorem on a connection from its call to its event.
use serverlynx.Prelude.{pos, ◌≡◌, refl, some, [], ◌∷◌, ◌++◌, arith}
use mathlib.Core.Option.{some-ne-none}
use serverlynx.Tn.Events.{client_open}
use serverlynx.Link.{LinkState, opened, update}
use serverlynx.Link.List.{LinkList, open_link}
use serverlynx.Service.{Service}
use serverlynx.Service.Commands.{cmd_open}
use serverlynx.Service.Commands.Laws.{opens, call}
use serverlynx.Io.{link_at}
use serverlynx.Io.Links.{free_of, LinksFine}
use serverlynx.Io.Commands.{dispatch, on_check_cb}
use serverlynx.Io.Commands.Sound.{execute-IsSound}
use serverlynx.Io.Connecting.{handle_cmd_open, on_outbound_connection_cb}
use serverlynx.System.Openings.{opened_event, on_outbound_connection_cb-cmd_open}
use serverlynx.Tests.Sample.{sample, sample-IsTn}
use serverlynx.Tests.Lists.{pointers}
use serverlynx.Tests.Stocks.{a_cmd, an_event}
use serverlynx.Tests.Whole.{waits, once, after, three_links-IsSound}
use serverlynx.Tn.Cmds.{CmdType}

-- The list of links once link 0 is taken too.
abbrev none_free : LinkList pointers
none_free = record after.link_list {
  client_list_free = (3, []);
  client_map =
      update after.link_list.client_map 0
        (record (link_at after 0) { cmd_open_id = 99; cmd_close_id = 99 });
}

after-LinksFine : LinksFine sample-IsTn after
after-LinksFine =
    (execute-IsSound sample-IsTn (a_cmd 1 CmdType.client_open ∷ []) waits three_links-IsSound).fine

on_outbound_connection_cb-cmd_open_example :
    (t : Service sample) × (on_check_cb 3 (call waits (opens 0)).2 ≡ some t)
    × (free_of sample-IsTn after ≡ 0 ∷ free_of sample-IsTn t)
    × ((link_at t 0).state ≡ LinkState.new)
    × (u : Service sample) × (on_outbound_connection_cb
          (record t { world = ([], [], 54) })
          0
          (pos 0)
        ≡ some u)
    × ((link_at u 0).state ≡ opened)
    × ((link_at u 0).priv ≡ some 52)
    × (u.events.1 ≡ after.events.1 ++ opened_event (an_event 3 client_open) 0 452 2 ∷ [])
unfolding cmd_open dispatch handle_cmd_open open_link
on_outbound_connection_cb-cmd_open_example =
    on_outbound_connection_cb-cmd_open sample-IsTn (λ c x h. some-ne-none _) waits
      (call waits (opens 0)).2 0 2 3 0 52 53 0 352 352 452 452 none_free ([], [], 53) ([], [], 53)
      ([], [], 54) ([], [], 54) ([], [], 54) ([], [], 54) ([], [], 54) ([], [], 54)
      (an_event 3 client_open) (4 ∷ [], [])
      (4 ∷ [], opened_event (an_event 3 client_open) 0 452 2 ∷ []) once refl (omega arith)
      after-LinksFine refl refl refl refl refl refl refl refl refl refl refl refl
