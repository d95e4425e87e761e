-- ===== src/Tests/Frames.antt =====
-- The theorems on the reader of frames, on a buffer with a frame of two bytes and one byte more.
use serverlynx.Prelude.{arith, ◌≡◌, refl, [], ◌∷◌, take, success}
use serverlynx.Link.{Link, ReadState}
use serverlynx.Link.Reader.{Span, link_read_header, link_read_payload}
use serverlynx.Link.Reader.Laws.{read_frame}
use serverlynx.Tests.World.{buffers, buffers-IsBuffers, Memory}
use serverlynx.Tests.Sample.{open_link_1}

abbrev a_frame : Memory
a_frame = (0 ∷ 0 ∷ 0 ∷ 2 ∷ 65 ∷ 66 ∷ 7 ∷ [], [], 9)

abbrev at_payload : Link
at_payload = record open_link_1 { next_payload_len = 2; read_state = ReadState.read_payload }

read_frame_example :
    (heap heap' : Memory) × (span : Span) × ((link_read_header buffers a_frame open_link_1
        ≡ (success, 2, heap, at_payload))
      × (link_read_payload buffers heap at_payload
          ≡ (success, span, heap', record at_payload { read_state = ReadState.read_header }))
      × (take span.len heap'.1 ≡ 65 ∷ 66 ∷ [])
      × (span.len ≡ 2)
      × (heap'.0 ≡ 7 ∷ []))
read_frame_example =
    read_frame buffers-IsBuffers a_frame open_link_1 (65 ∷ 66 ∷ []) (7 ∷ []) (omega arith) refl
