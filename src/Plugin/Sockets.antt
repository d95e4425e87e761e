-- ===== src/Plugin/Sockets.antt =====
-- The calls `socklynx_*` of src/svlynx/plugin.c, which pass their arguments on to the socklynx library.
-- A pointer that is NULL is `none`. Buffers and endpoints are only passed on.
use serverlynx.Prelude.{
  ℤ, ℕ, ◌≡◌, refl, ap, ◌∙◌, Bool, true, Option, none, some, Status, success, failure, if◌then◌else◌,
  ◌&&◌, ◌==◌,
}

-- What is used of `socklynx/sock.h` and `socklynx/sys.h`: the status, and what becomes of the structure.
-- `create` is for a UDP socket.
-- `err` is what `SL_GUARD_NULL` returns.
pub record SockOps : Type 1 where
  pub Sys : Type 0
  pub Sock : Type 0
  pub sys_setup : Sys → Status × Sys
  pub sys_cleanup : Sys → Status × Sys
  pub nonblocking_set : Sock → Status × Sock
  pub blocking_set : Sock → Status × Sock
  pub create : Sock → Status × Sock
  pub bind : Sock → Status × Sock
  pub close : Sock → Status × Sock
  pub send : Sock → ℕ → ℤ × Sock
  pub recv : Sock → ℕ → ℤ × Sock
  pub err : ℤ

-- `is_open` is whether the socket has a descriptor. A bind that fails does not close it.
pub record IsSock (O : SockOps) : Type 0 where
  pub is_open : O.Sock → Bool
  pub create_opens : (k k' : O.Sock) → O.create k ≡ (success, k') → is_open k' ≡ true
  pub bind_keeps : (k k' : O.Sock) (r : Status) → O.bind k ≡ (r, k') → is_open k' ≡ is_open k

module _ (O : SockOps) where
  unfoldable pub socklynx_setup : O.Sys → Status × O.Sys
  socklynx_setup sys = O.sys_setup sys

  unfoldable pub socklynx_cleanup : O.Sys → Status × O.Sys
  socklynx_cleanup sys = O.sys_cleanup sys

  unfoldable pub socklynx_socket_nonblocking : O.Sock → ℕ → Status × O.Sock
  socklynx_socket_nonblocking k enabled =
      if enabled == 0 then O.blocking_set k else O.nonblocking_set k

  bind_created : Status × O.Sock → Status × Option O.Sock
  bind_created (failure, k) = (failure, some k)
  bind_created (success, k) = let (r, k') = O.bind k in (r, some k')

  -- A create that succeeds, and then a bind whose status is returned.
  unfoldable pub socklynx_socket_open : Option O.Sock → Status × Option O.Sock
  unfolding bind_created
  socklynx_socket_open none = (failure, none)
  socklynx_socket_open (some k) = bind_created (O.create k)

  unfoldable pub socklynx_socket_close : Option O.Sock → Status × Option O.Sock
  socklynx_socket_close none = (failure, none)
  socklynx_socket_close (some k) = let (r, k') = O.close k in (r, some k')

  -- `has_buf` and `has_endpoint` are whether these pointers are not NULL.
  unfoldable pub socklynx_socket_send : Option O.Sock → Bool → ℕ → Bool → ℤ × Option O.Sock
  socklynx_socket_send none has_buf bufcount has_endpoint = (O.err, none)
  socklynx_socket_send (some k) has_buf bufcount has_endpoint =
      if has_buf && has_endpoint
      then (let (n, k') = O.send k bufcount in (n, some k'))
      else (O.err, some k)

  unfoldable pub socklynx_socket_recv : Option O.Sock → Bool → ℕ → Bool → ℤ × Option O.Sock
  socklynx_socket_recv none has_buf bufcount has_endpoint = (O.err, none)
  socklynx_socket_recv (some k) has_buf bufcount has_endpoint =
      if has_buf && has_endpoint
      then (let (n, k') = O.recv k bufcount in (n, some k'))
      else (O.err, some k)

module _ {O : SockOps} (L : IsSock O) where
  -- An open socket is what a call leaves that succeeds, and also one whose bind alone failed.
  socket_open_lem :
      (k k' : O.Sock)
      → O.create k ≡ (success, k')
      → (k'' : O.Sock) × (socklynx_socket_open O (some k) ≡ ((O.bind k').0, some k''))
        × (L.is_open k'' ≡ true)
  unfolding socklynx_socket_open bind_created
  socket_open_lem k k' e =
      ((O.bind k').1, ap (bind_created O) e, L.bind_keeps k' _ _ refl ∙ L.create_opens k k' e)
