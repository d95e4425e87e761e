-- ===== src/Io/Receiving.antt =====
-- `on_recv_alloc_cb` and `on_recv_cb` of svlynx/service_internal.c. `TN_BUFLEN_CAST` only changes the
-- type of a length. `work_req` is always NULL.
pub mod Laws
pub mod Holders
pub mod Sound
pub mod Stocks
use serverlynx.Prelude.{
  ptr, ℕ, ◌+◌, ◌%◌, ◌^◌, ℤ, pos, negsuc, zero, suc, Bool, true, false, Option, none, some,
  if◌then◌else◌,
}
use serverlynx.Tn.{Tn}
use serverlynx.Tn.Events.{Event, client_read}
use serverlynx.Tn.Uv.{close_link_cb}
use serverlynx.Link.{LinkState}
use serverlynx.Service.{Service}
use serverlynx.Io.{link_at, set_link, uv_close}

module _ {T : Tn} where
  -- `buf->base` and `buf->len` for a link that has a buffer.
  room_of : Service T → ℕ → ℕ × ℕ
  room_of s b = (T.buffers.write_ptr s.heap b, T.buffers.remaining s.heap b)

  alloc_with : Option ℕ → Service T → ℕ → (ℕ × ℕ) × Service T
  unfolding room_of
  alloc_with (some b) s p = (room_of s b, s)
  alloc_with none s p = elim (T.pool.pop_back s.pool_read) [
    | none ↦ ((0, 0), s)
    | some (b, pool) ↦ (
      room_of s b,
      set_link (record s { pool_read = pool }) p (record (link_at s p) { read_buffer = some b }),
    )
  ]

  -- The base and the length that libuv is given, NULL and 0 if there is no buffer.
  unfoldable pub on_recv_alloc_cb : Service T → ℕ → (ℕ × ℕ) × Service T
  unfolding alloc_with
  on_recv_alloc_cb s p = alloc_with (link_at s p).read_buffer s p

  -- `cleanup`, with no link to close.
  recv_failed : ℤ → Service T → ℕ → Service T
  recv_failed ret s p = set_link s p (record (link_at s p) { error_code = ret })

  -- `cleanup`, with the link to close.
  recv_closed : ℤ → Service T → ℕ → ℕ → Service T
  recv_closed ret s p handle =
      if T.uv.is_closing s.world handle
      then set_link s p (record (link_at s p) { error_code = ret })
      else uv_close
          (set_link s p (record (link_at s p) { error_code = ret; state = LinkState.closing }))
          handle close_link_cb

  -- `tn_event_list_ready_push` and what follows it.
  push_read : Event → Service T → ℕ → Service T
  unfolding recv_failed
  push_read evt s p = elim (T.events.ready_push s.events evt) [
    | none ↦ recv_failed T.recv_evtpush s p
    | some events ↦
        set_link (record s { events = events }) p (record (link_at s p) { read_buffer = none })
  ]

  -- From `tn_event_list_free_pop_read` on, for a buffer `b` that has taken the bytes in.
  deliver : Service T → ℕ → ℕ → Service T
  unfolding recv_failed push_read
  deliver s p b = elim (T.events.free_pop s.events client_read) [
    | none ↦ recv_failed T.recv_evtpop s p
    | some (x, events) ↦
        push_read
          (record x {
            client_id = (link_at s p).id;
            priv = b;
            buffer = T.buffers.read_ptr s.heap b;
            len = T.buffers.read_length s.heap b;
          })
          (record s { events = events }) p
  ]

  abbrev pub counted_recv : Service T → ℕ → Service T
  counted_recv s nread = record s {
    recv_msgs = (s.recv_msgs + 1) % 2 ^ 64;
    recv_bytes = (s.recv_bytes + nread) % 2 ^ 64;
  }

  received : Service T → ℕ → ℕ → ℕ → Service T
  unfolding deliver recv_failed
  received s p b nread = elim (T.buffers.add_length s.heap b nread) [
    | none ↦ recv_failed T.recv_ebuf (counted_recv s nread) p
    | some heap ↦ deliver (record (counted_recv s nread) { heap = heap }) p b
  ]

  -- `has_buf` is whether `buf` is not NULL.
  unfoldable pub on_recv_cb : Service T → ℕ → ℕ → ℤ → Bool → Service T
  unfolding recv_closed recv_failed received
  on_recv_cb s p handle (negsuc n) has_buf = recv_closed (negsuc n) s p handle
  on_recv_cb s p handle (pos zero) has_buf = recv_failed T.recv_error s p
  on_recv_cb s p handle (pos (suc n)) has_buf =
      if has_buf
      then received s p (ptr (link_at s p).read_buffer) (suc n)
      else recv_failed T.recv_error s p
