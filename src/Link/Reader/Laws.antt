-- ===== src/Link/Reader/Laws.antt =====
-- Frames that are read back as they were written, and input that is too short for one.
use serverlynx.Prelude.{
  ℕ, ◌/◌, ◌%◌, ◌^◌, ◌≤◌, ◌<◌, ◌≡◌, refl, sym, ap, ◌∙◌, ◌⊎◌, inl, inr, List, [], ◌∷◌, ◌++◌, length,
  take, drop, take-append, drop-append, length-append, arith, success, failure, ptr, leb,
  Bool-cases,
}
use serverlynx.Tn.Buffers.{BufferOps, IsBuffers, be32}
use serverlynx.Link.{Link, ReadState}
use serverlynx.Link.Reader.{Span, link_read_header, link_read_payload}

-- The four bytes of a number in network order.
abbrev pub be32_bytes : ℕ → List ℕ
be32_bytes n = n / 2 ^ 24 % 256 ∷ n / 2 ^ 16 % 256 ∷ n / 2 ^ 8 % 256 ∷ n % 256 ∷ []

-- A payload behind its length.
abbrev pub frame : List ℕ → List ℕ
frame payload = be32_bytes (length payload) ++ payload

be32-be32_bytes :
    (n : ℕ)
    → n < 2 ^ 32
    → be32 (n / 2 ^ 24 % 256) (n / 2 ^ 16 % 256) (n / 2 ^ 8 % 256) (n % 256) ≡ n
be32-be32_bytes n small = omega arith

length_four :
    (xs : List ℕ)
    → (length xs < 4) ⊎ ((w x y z : ℕ) × (rest : List ℕ) × (xs ≡ w ∷ x ∷ y ∷ z ∷ rest))
length_four [] = inl (omega arith)
length_four (w ∷ []) = inl (omega arith)
length_four (w ∷ x ∷ []) = inl (omega arith)
length_four (w ∷ x ∷ y ∷ []) = inl (omega arith)
length_four (w ∷ x ∷ y ∷ z ∷ rest) = inr (w, x, y, z, rest, refl)

module _ {B : BufferOps} (L : IsBuffers B) where
  -- What is left to read of a link's buffer.
  abbrev pub unread : B.Heap → Link → List ℕ
  unread heap l = L.bytes heap (ptr l.read_buffer)

  -- A header is read exactly when four bytes are there: it is their number in network order, they
  -- are gone from the buffer, and the link expects as many bytes of payload. With fewer bytes the
  -- call fails with length 0 and changes nothing, so that it can be repeated.
  pub link_read_header_lem :
      (heap : B.Heap) (l : Link)
      → ((length (unread heap l) < 4) × (link_read_header B heap l ≡ (failure, 0, heap, l)))
        ⊎ ((w x y z : ℕ) × (heap' : B.Heap) × (unread heap l ≡ w ∷ x ∷ y ∷ z ∷ unread heap' l)
            × (link_read_header B heap l ≡ (
              success,
              be32 w x y z,
              heap',
              record l { next_payload_len = be32 w x y z; read_state = ReadState.read_payload },
            )))
  unfolding link_read_header
  link_read_header_lem heap l = elim (length_four (unread heap l)) [
    | inl short ↦
        inl (short, rw (L.read_be32_short heap (ptr l.read_buffer) short, link_read_header) refl)
    | inr (w, x, y, z, rest, e) ↦
        let (heap', done, left) = L.read_be32_enough heap (ptr l.read_buffer) w x y z rest e in
        inr (
          w,
          x,
          y,
          z,
          heap',
          e ∙ ap (λ r. w ∷ x ∷ y ∷ z ∷ r) (sym left),
          rw (done, link_read_header) refl,
        )
  ]

  -- A payload is read exactly when all of it is there: the span shows its bytes, they are gone
  -- from the buffer, and the link expects a header. Otherwise the call fails with an empty span
  -- and changes nothing.
  pub link_read_payload_lem :
      (heap : B.Heap) (l : Link)
      → ((length (unread heap l) < l.next_payload_len)
          × (link_read_payload B heap l ≡ (failure, record { ptr = 0; len = 0 }, heap, l)))
        ⊎ ((l.next_payload_len ≤ length (unread heap l))
            × (span : Span) × (heap' : B.Heap) × (link_read_payload B heap l
                ≡ (success, span, heap', record l { read_state = ReadState.read_header }))
            × (L.peek heap' span.ptr span.len ≡ take l.next_payload_len (unread heap l))
            × (span.len ≡ l.next_payload_len)
            × (unread heap' l ≡ drop l.next_payload_len (unread heap l)))
  unfolding link_read_payload
  link_read_payload_lem heap l =
      elim (Bool-cases (leb l.next_payload_len (length (unread heap l)))) [
        | inl e ↦
            let fits : l.next_payload_len ≤ length (unread heap l) = ground arith in
            let (heap', done, left, seen) =
              L.read_skip_enough heap (ptr l.read_buffer) l.next_payload_len fits in
            inr (fits, _, heap', rw (done, link_read_payload) refl, seen, refl, left)
        | inr e ↦
            let short : length (unread heap l) < l.next_payload_len = ground arith in
            inl (
              short,
              rw
                  (
                    L.read_skip_short heap (ptr l.read_buffer) l.next_payload_len short,
                    link_read_payload,
                  )
                  refl,
            )
      ]

  -- A frame of less than 2^32 bytes at the start of the buffer is read back: the header gives its
  -- length, the payload's span shows its bytes, what stood behind it is left in the buffer, and the
  -- link is as before but for that length, ready for the next header.
  pub read_frame :
      (heap : B.Heap) (l : Link) (payload rest : List ℕ)
      → length payload < 2 ^ 32
      → unread heap l ≡ frame payload ++ rest
      → (heap' : B.Heap) × (heap'' : B.Heap) × (span : Span) × (let n = length payload in
          let l' = record l { next_payload_len = n; read_state = ReadState.read_payload } in
          (link_read_header B heap l ≡ (success, n, heap', l'))
          × (link_read_payload B heap' l'
              ≡ (success, span, heap'', record l' { read_state = ReadState.read_header }))
          × (L.peek heap'' span.ptr span.len ≡ payload)
          × (span.len ≡ n)
          × (unread heap'' l ≡ rest))
  unfolding link_read_header link_read_payload
  read_frame heap l payload rest small e =
      let b = ptr l.read_buffer in
      let n = length payload in
      let (heap', done, left) = L.read_be32_enough heap b _ _ _ _ (payload ++ rest) e in
      let fits : n ≤ length (L.bytes heap' b) =
        rw left (let h = length-append payload rest in omega arith) in
      let (heap'', skipped, left', seen) = L.read_skip_enough heap' b n fits in
      (
        heap',
        heap'',
        record { ptr = B.read_ptr heap' b; len = n },
        (
          rw (done, link_read_header) (rw (be32-be32_bytes n small) refl),
          rw (skipped, link_read_payload) refl,
          seen ∙ ap (take n) left ∙ take-append payload rest,
          refl,
          left' ∙ ap (drop n) left ∙ drop-append payload rest,
        ),
      )
