-- ===== src/Service/Updates.antt =====
-- `svl_service_events_acquire` and `_events_release` of svlynx/service.c, by which the main thread
-- takes the ready events and gives them back. `*out_evt_base` is `event_updates` on success and NULL
-- otherwise, and is not returned here; what is returned is the status and `*out_count`. A push that
-- fails is ignored, and leaves its list as it was.
pub mod Laws
pub mod Holders
use serverlynx.Prelude.{
  ℕ, Option, none, some, List, [], ◌∷◌, length, take, Status, success, failure,
}
use serverlynx.Tn.{Tn}
use serverlynx.Tn.Events.{Event, EventType, client_read}
use serverlynx.Service.{Service}

module _ {T : Tn} where
  unfoldable pub acquire : Service T → Status × ℕ × Service T
  acquire s = elim (T.events.ready_pop_all s.events s.buffer_count) [
    | none ↦ (failure, 0, record s { event_updates_count = 0 })
    | some (xs, events) ↦ (
      success,
      length xs,
      record s { events = events; event_updates = xs; event_updates_count = length xs },
    )
  ]

  -- `tn_buffer_pool_push(&service->pool_read, evt_read->priv)`.
  unfoldable pub return_buffer : EventType → ℕ → Service T → Service T
  return_buffer client_read b s = elim (T.pool.push s.pool_read b) [
    | none ↦ s
    | some pool ↦ record s { pool_read = pool }
  ]
  return_buffer _ b s = s

  unfoldable pub free_event : Event → Service T → Service T
  free_event x s = elim (T.events.free_push s.events x) [
    | none ↦ s
    | some events ↦ record s { events = events }
  ]

  unfoldable pub release_one : Event → Service T → Service T
  unfolding return_buffer free_event
  release_one x s = free_event x (return_buffer x.type x.priv s)

  unfoldable pub release_all : List Event → Service T → Service T
  release_all [] s = s
  release_all (x ∷ xs) s = release_all xs (release_one x s)

  -- The count of the updates is not reset.
  unfoldable pub release : Service T → Status × Service T
  unfolding release_all release_one
  release s = (success, release_all (take s.event_updates_count s.event_updates) s)
