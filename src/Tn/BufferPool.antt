-- ===== src/Tn/BufferPool.antt =====
-- `tn_buffer_pool_t` of `tn/buffer_pool.h`: a pool of buffers, set up full.
use serverlynx.Prelude.{ℕ, ◌≡◌, List, ◌∷◌, Option, some, count}

pub record PoolOps : Type 1 where
  pub Carrier : Type 0
  pub zeroed : Carrier
  -- How many buffers, and of what size each.
  pub setup : ℕ → ℕ → Option Carrier
  pub pop_back : Carrier → Option (ℕ × Carrier)
  pub push : Carrier → ℕ → Option Carrier

-- What the pool holds, in any order: `count a (items c)` is how often it holds `a`.
pub record IsPool (P : PoolOps) : Type 0 where
  pub items : P.Carrier → List ℕ
  pub count-pop_back :
      (c c' : P.Carrier) (b : ℕ)
      → P.pop_back c ≡ some (b, c')
      → (a : ℕ) → count a (items c) ≡ count a (b ∷ items c')
  pub count-push :
      (c c' : P.Carrier) (b : ℕ)
      → P.push c b ≡ some c'
      → (a : ℕ) → count a (items c') ≡ count a (b ∷ items c)
