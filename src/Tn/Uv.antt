-- ===== src/Tn/Uv.antt =====
-- libuv and the allocator, as operations on one world that also decides what each call answers.
-- A handle is a number. A call that returns a code gives the code, zero for success.
use serverlynx.Prelude.{ℕ, ℤ, pos, ◌≡◌, ◌≢◌, List, ◌∷◌, Option, Bool, ◌==◌, ◌||◌}

-- The function that libuv calls once a handle is closed.
pub data CloseCb : Type 0 where
  no_cb close_handle_cb close_link_cb : CloseCb

pub record UvOps : Type 1 where
  pub World : Type 0
  -- `TN_MEM_ACQUIRE`, `none` for NULL.
  pub acquire : World → Option ℕ × World
  pub tcp_init : World → ℕ → ℤ × World
  pub accept : World → ℕ → ℤ × World
  pub getpeername : World → ℕ → Option ℕ × World
  pub getsockname : World → ℕ → Option ℕ × World
  pub read_start : World → ℕ → ℤ × World
  -- `uv_tcp_connect` of a handle to an endpoint.
  pub connect : World → ℕ → ℕ → ℤ × World
  -- `uv_write` of a request to a handle: the bytes at a pointer, and how many.
  pub write : World → ℕ → ℕ → ℕ → ℕ → ℤ × World
  pub is_closing : World → ℕ → Bool
  pub close : World → ℕ → CloseCb → World

-- `pending` are the write requests that libuv holds, whose callback is still to come.
pub record IsUv (U : UvOps) : Type 0 where
  pub pending : U.World → List ℕ
  pub write_accepted :
      (w w' : U.World) (req h p n : ℕ)
      → U.write w req h p n ≡ (pos 0, w')
      → (pending w' ≡ req ∷ pending w) × ((k : ℕ) → U.is_closing w' k ≡ U.is_closing w k)
  pub write_refused :
      (w w' : U.World) (req h p n : ℕ) (code : ℤ)
      → U.write w req h p n ≡ (code, w')
      → code ≢ pos 0
      → (pending w' ≡ pending w) × ((k : ℕ) → U.is_closing w' k ≡ U.is_closing w k)
  pub is_closing-close :
      (w : U.World) (h k : ℕ) (cb : CloseCb)
      → U.is_closing (U.close w h cb) k ≡ (h == k || U.is_closing w k)
  pub pending-close : (w : U.World) (h : ℕ) (cb : CloseCb) → pending (U.close w h cb) ≡ pending w
