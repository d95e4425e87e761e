-- ===== src/Tn/Buffers.antt =====
-- `tn_buffer_t` of `tn/buffer.h`. A `tn_buffer_t *` is a number, all buffers stand on one heap,
-- and so do the bytes that a `uint8_t *` points at. A call that returns nonzero gives `none`.
use serverlynx.Prelude.{
  ℕ, ◌+◌, ◌-◌, ◌*◌, ◌≤◌, ◌<◌, ◌≡◌, List, ◌∷◌, Option, none, some, length, take, drop,
}

pub record BufferOps : Type 1 where
  pub Heap : Type 0
  pub read_be32 : Heap → ℕ → Option (ℕ × Heap)
  pub read_reset : Heap → ℕ → Heap
  pub read_ptr : Heap → ℕ → ℕ
  pub read_skip : Heap → ℕ → ℕ → Option Heap
  pub read_length : Heap → ℕ → ℕ
  pub write_ptr : Heap → ℕ → ℕ
  pub remaining : Heap → ℕ → ℕ
  pub add_length : Heap → ℕ → ℕ → Option Heap
  -- `tn_buffer_write_buffer(dst, src, 0)`.
  pub write_buffer : Heap → ℕ → ℕ → Option Heap

-- The number that four bytes are in network order.
abbrev pub be32 : ℕ → ℕ → ℕ → ℕ → ℕ
be32 a b c d = ((a * 256 + b) * 256 + c) * 256 + d

-- `bytes` are those of a buffer that are yet to be read, `peek p n` the `n` bytes at a pointer.
pub record IsBuffers (B : BufferOps) : Type 0 where
  pub bytes : B.Heap → ℕ → List ℕ
  pub peek : B.Heap → ℕ → ℕ → List ℕ
  pub read_be32_short : (h : B.Heap) (b : ℕ) → length (bytes h b) < 4 → B.read_be32 h b ≡ none
  pub read_be32_enough :
      (h : B.Heap) (b w x y z : ℕ) (rest : List ℕ)
      → bytes h b ≡ w ∷ x ∷ y ∷ z ∷ rest
      → (h' : B.Heap) × (B.read_be32 h b ≡ some (be32 w x y z, h')) × (bytes h' b ≡ rest)
  pub read_skip_short : (h : B.Heap) (b n : ℕ) → length (bytes h b) < n → B.read_skip h b n ≡ none
  pub read_skip_enough :
      (h : B.Heap) (b n : ℕ)
      → n ≤ length (bytes h b)
      → (h' : B.Heap) × (B.read_skip h b n ≡ some h')
        × (bytes h' b ≡ drop n (bytes h b))
        × (peek h' (B.read_ptr h b) n ≡ take n (bytes h b))
  pub read_length_lem : (h : B.Heap) (b : ℕ) → B.read_length h b ≡ length (bytes h b)
  pub add_length_room :
      (h : B.Heap) (b n : ℕ)
      → n ≤ B.remaining h b
      → (h' : B.Heap) × (B.add_length h b n ≡ some h')
        × (B.read_length h' b ≡ B.read_length h b + n)
        × (B.remaining h' b ≡ B.remaining h b - n)
