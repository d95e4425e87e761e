-- ===== src/Tests/Sample.antt =====
-- One instance of the libraries, and services over it.
use serverlynx.Prelude.{ℕ, zero, suc, negsuc, ◌≡◌, refl, true, none, some, [], ◌∷◌, arith}
use serverlynx.Tn.{Tn, IsTn}
use serverlynx.Tn.Events.{Event, client_read}
use serverlynx.Link.{Link, opened}
use serverlynx.Link.List.{LinkList}
use serverlynx.Link.List.Invariant.{IsWellFormed, fresh_link}
use serverlynx.Service.{Service, ServiceState}
use serverlynx.Tests.Lists.{pointers, pointers-IsListPtr, pool, pool-IsPool, queue, queue-IsQueue}
use serverlynx.Tests.Stocks.{cmds, cmds-IsCmds, events, events-IsEvents, an_event}
use serverlynx.Tests.World.{buffers, buffers-IsBuffers, uv, uv-IsUv}

abbrev pub sample : Tn
sample = record {
  list = pointers;
  buffers = buffers;
  pool = pool;
  cmds = cmds;
  events = events;
  queue = queue;
  uv = uv;
  cmd_invalid = 99;
  recv_error = negsuc 1;
  recv_ebuf = negsuc 2;
  recv_evtpop = negsuc 3;
  recv_evtpush = negsuc 4;
  convert_from = λ a. some a;
}

abbrev pub sample-IsTn : IsTn sample
sample-IsTn = record {
  list = pointers-IsListPtr;
  buffers = buffers-IsBuffers;
  pool = pool-IsPool;
  cmds = cmds-IsCmds;
  events = events-IsEvents;
  queue = queue-IsQueue;
  uv = uv-IsUv;
}

-- Link 1 of three is open, with handle 7, and has read buffer 20.
abbrev pub open_link_1 : Link
open_link_1 = record (fresh_link 1) { priv = some 7; state = opened; read_buffer = some 20 }

abbrev pub three_links : LinkList pointers
three_links = record {
  client_map = λ i. elim i [
    | zero ↦ fresh_link 0
    | suc zero ↦ open_link_1
    | suc (suc j) ↦ fresh_link (suc (suc j))
  ];
  clients_max = 3;
  client_list_free = (3, 2 ∷ 0 ∷ []);
  client_list_open = (0, []);
}

abbrev pub a_read : Event
a_read = record (an_event 5 client_read) { priv = 21 }

abbrev pub in_state : ServiceState → Service sample
in_state x = record {
  state = x;
  host_listen = 0;
  client_count_max = 3;
  buffer_count = 8;
  link_list = three_links;
  pool_read = 22 ∷ 23 ∷ [];
  pool_write = [];
  cmds = (1 ∷ 2 ∷ [], []);
  events = (3 ∷ 4 ∷ [], []);
  event_updates = a_read ∷ [];
  event_updates_count = 1;
  write_reqs_free = (4, 0 ∷ []);
  write_reqs_ready = (4, []);
  priv_set = true;
  tcp_handle = none;
  uv_accept_timer = none;
  uv_prep = none;
  uv_check = none;
  uv_signal = none;
  send_req = λ i. record { link = 0; buf_base = 0; buf_len = 10; cmd_id = 0 };
  send_req_list = (4, 0 ∷ 1 ∷ []);
  world = ([], [], 50);
  heap = ([], [], 64);
  send_msgs = 0;
  send_bytes = 0;
  recv_msgs = 0;
  recv_bytes = 0;
}

abbrev pub three_links-IsWellFormed : IsWellFormed pointers-IsListPtr three_links
three_links-IsWellFormed = record {
  ids = λ i h. go i;
  in_range = (omega arith, (omega arith, tt));
  distinct = (refl, (refl, tt));
  room = omega arith;
}
  where
    go : (i : ℕ) → (three_links.client_map i).id ≡ i
    go zero = refl
    go (suc zero) = refl
    go (suc (suc j)) = refl
