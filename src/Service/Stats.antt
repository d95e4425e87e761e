-- ===== src/Service/Stats.antt =====
-- `svl_service_stats_t` of svlynx/service.h, and `svl_service_stats_clear`, `_stats_get` and
-- `svl_service_state` of svlynx/service.c. Neither of the first two reads or writes anything: the
-- counters that the callbacks of the IO thread keep are not reset, and what `stats` points at stays as
-- it is.
use serverlynx.Prelude.{ℕ, Status, success}
use serverlynx.Tn.{Tn}
use serverlynx.Service.{Service, ServiceState}

pub record Stats : Type 0 where
  pub recv_count : ℕ
  pub recv_bytes : ℕ
  pub send_count : ℕ
  pub send_bytes : ℕ
  pub tstamp_last : ℕ

module _ {T : Tn} where
  unfoldable pub stats_clear : Service T → Status × Service T
  stats_clear s = (success, s)

  unfoldable pub stats_get : Service T → Stats → Status × Stats
  stats_get s stats = (success, stats)

  unfoldable pub service_state : Service T → ServiceState
  service_state s = s.state
