-- ===== src/Link/Reader.antt =====
-- `svl_link_read_header`, `svl_link_read_payload` and `svl_link_buffer_swap` of svlynx/link.c, by
-- which the application takes frames, a length and as many bytes, from the buffer of a link. All
-- buffers stand on one heap; the functions assert that the link has one.
pub mod Laws
use serverlynx.Prelude.{ℕ, Option, none, some, if◌then◌else◌, ◌==◌, Status, success, failure, ptr}
use serverlynx.Tn.Buffers.{BufferOps}
use serverlynx.Tn.BufferPool.{PoolOps}
use serverlynx.Link.{Link, ReadState}

-- `tn_buffer_span_t`.
pub record Span : Type 0 where
  pub ptr : ℕ
  pub len : ℕ

module _ (B : BufferOps) where
  -- The status and `*out_len`.
  unfoldable pub link_read_header : B.Heap → Link → Status × ℕ × B.Heap × Link
  link_read_header heap l = elim (B.read_be32 heap (ptr l.read_buffer)) [
    | none ↦ (failure, 0, heap, l)
    | some (n, heap') ↦
        (success, n, heap', record l { next_payload_len = n; read_state = ReadState.read_payload })
  ]

  -- The status and `*out_span`.
  unfoldable pub link_read_payload : B.Heap → Link → Status × Span × B.Heap × Link
  link_read_payload heap l =
      let b = ptr l.read_buffer in
      elim (B.read_skip heap b l.next_payload_len) [
        | none ↦ (failure, record { ptr = 0; len = 0 }, heap, l)
        | some heap' ↦ (
          success,
          record { ptr = B.read_ptr heap b; len = l.next_payload_len },
          heap',
          record l { read_state = ReadState.read_header },
        )
      ]

  module _ (P : PoolOps) where
    -- What is left in the buffer `prev` goes into the new one.
    copied : B.Heap → P.Carrier → Link → ℕ → ℕ → Status × B.Heap × P.Carrier × Link
    copied heap pool l prev b =
        if B.read_length heap prev == 0
        then (success, heap, pool, l)
        else elim (B.write_buffer heap b prev) [
          | none ↦ (failure, heap, pool, l)
          | some heap' ↦ (success, heap', pool, l)
        ]

    unfoldable pub link_buffer_swap : B.Heap → P.Carrier → Link → Status × B.Heap × P.Carrier × Link
    unfolding copied
    link_buffer_swap heap pool l = elim (P.pop_back pool) [
      | none ↦ (failure, heap, pool, l)
      | some (b, pool') ↦
          copied heap pool' (record l { read_buffer = some b }) (ptr l.read_buffer) b
    ]
