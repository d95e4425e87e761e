-- ===== src/Tests/Connection.antt =====
-- The theorem on a connection that is made, for link 2 with handle 8.
use serverlynx.Prelude.{pos, ◌≡◌, ◌⊎◌, refl, some, true, [], ◌∷◌, arith}
use serverlynx.Link.{Link, LinkState, opened, closing, update}
use serverlynx.Link.List.{LinkList}
use serverlynx.Link.List.Invariant.{IsWellFormed, fresh_link}
use serverlynx.Service.{Service, started}
use serverlynx.Io.Connecting.{on_outbound_connection_cb}
use serverlynx.Io.Connecting.Taken.{Taken}
use serverlynx.Io.Connecting.Connected.{on_outbound_connection_cb_lem}
use serverlynx.Tests.Lists.{pointers, pointers-IsListPtr}
use serverlynx.Tests.Sample.{sample, sample-IsTn, in_state, three_links, three_links-IsWellFormed}

abbrev waiting_link : Link
waiting_link = record (fresh_link 2) { priv = some 8; service = true }

abbrev waiting_links : LinkList pointers
waiting_links = record three_links {
  client_map = update three_links.client_map 2 waiting_link;
  client_list_free = (3, 0 ∷ []);
}

abbrev waits : Service sample
waits = record (in_state started) { link_list = waiting_links }

waiting_links-IsWellFormed : IsWellFormed pointers-IsListPtr waiting_links
waiting_links-IsWellFormed = record {
  ids = λ i h. ground (arith, three_links-IsWellFormed.ids i);
  in_range = (omega arith, tt);
  distinct = (refl, tt);
  room = omega arith;
}

link_2-Taken : Taken sample-IsTn three_links 2 8 LinkState.new waiting_links
link_2-Taken = record {
  taken = refl;
  fine = waiting_links-IsWellFormed;
  size = refl;
  handle = refl;
  state = refl;
  others = λ q n. ground arith;
}

on_outbound_connection_cb_lem_example :
    (t : Service sample) × (on_outbound_connection_cb waits 2 (pos 0) ≡ some t)
    × (Taken sample-IsTn three_links 2 8 opened t.link_list
        ⊎ (Taken sample-IsTn three_links 2 8 closing t.link_list
            × (sample.uv.is_closing t.world 8 ≡ true)))
on_outbound_connection_cb_lem_example =
    on_outbound_connection_cb_lem sample-IsTn three_links 2 8 waits 0 link_2-Taken
