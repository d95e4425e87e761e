-- ===== src/Link.antt =====
-- The data of `include/svlynx/link.h`: a link, and the list of links of a service. A `svl_link_t *` is
-- the link's index in `client_map`, a handle, a buffer and an endpoint are opaque numbers, and NULL is
-- `none`. `opened` is `SVL_LINK_OPEN`. `svl_link_t.service` points at the one service, so only whether
-- it is set is kept. `priv` of the list is used by no code and left out.
pub mod List
pub mod Reader
use serverlynx.Prelude.{ℕ, ℤ, Bool, Option, none, false, ◌==◌, if◌then◌else◌, pos}

pub data LinkState : Type 0 where
  new opened closing closed error invalid : LinkState

pub data ReadState : Type 0 where
  read_none read_header read_payload read_error read_invalid : ReadState

pub record Link : Type 0 where
  pub priv : Option ℕ
  pub id : ℕ
  pub service : Bool
  pub read_buffer : Option ℕ
  pub endpoint_local : ℕ
  pub endpoint_remote : ℕ
  pub error_code : ℤ
  pub state : LinkState
  pub read_state : ReadState
  pub next_payload_len : ℕ
  pub last_msg_id : ℕ
  pub cmd_open_id : ℕ
  pub cmd_close_id : ℕ

-- A link whose bytes are all zero.
abbrev pub zero_link : Link
zero_link = record {
  priv = none;
  id = 0;
  service = false;
  read_buffer = none;
  endpoint_local = 0;
  endpoint_remote = 0;
  error_code = pos 0;
  state = LinkState.new;
  read_state = ReadState.read_none;
  next_payload_len = 0;
  last_msg_id = 0;
  cmd_open_id = 0;
  cmd_close_id = 0;
}

-- A write through a `svl_link_t *`.
abbrev pub update : (ℕ → Link) → ℕ → Link → ℕ → Link
update m p v i = if p == i then v else m i

-- `svl_link_state` and `svl_link_read_state` of svlynx/link.c.
unfoldable pub link_state : Link → LinkState
link_state l = l.state

unfoldable pub link_read_state : Link → ReadState
link_read_state l = l.read_state
