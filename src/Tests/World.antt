-- ===== src/Tests/World.antt =====
-- Buffers and a libuv that keep the documented laws.
use serverlynx.Prelude.{
  ℕ, zero, suc, ℤ, pos, negsuc, ◌+◌, ◌-◌, ◌≤◌, ◌<◌, ◌≡◌, ◌≢◌, refl, ap, ◌∙◌, Option, none, some,
  List, [], ◌∷◌, ◌++◌, length, arith, elem, if◌then◌else◌, leb, take, drop, length-append,
}
use serverlynx.Tn.Buffers.{BufferOps, IsBuffers, be32}
use serverlynx.Tn.Uv.{UvOps, IsUv}

-- One buffer: the bytes to be read, those before the last skip, and the room left.
abbrev pub Memory : Type 0
Memory = List ℕ × List ℕ × ℕ

abbrev pub next_be32 : Memory → ℕ → Option (ℕ × Memory)
next_be32 (w ∷ x ∷ y ∷ z ∷ rest, last, n) b = some (be32 w x y z, (rest, last, n))
next_be32 _ b = none

abbrev pub skip : Memory → ℕ → ℕ → Option Memory
skip (xs, last, room) b n = if leb n (length xs) then some (drop n xs, xs, room) else none

abbrev pub zeros : ℕ → List ℕ
zeros zero = []
zeros (suc n) = 0 ∷ zeros n

abbrev pub extend : Memory → ℕ → ℕ → Option Memory
extend (xs, last, room) b n = if leb n room then some (xs ++ zeros n, last, room - n) else none

abbrev pub buffers : BufferOps
buffers = record {
  Heap = Memory;
  read_be32 = next_be32;
  read_reset = λ h b. h;
  read_ptr = λ h b. 100 + b;
  read_skip = skip;
  read_length = λ h b. length h.0;
  write_ptr = λ h b. 200 + b;
  remaining = λ h b. h.2;
  add_length = extend;
  write_buffer = λ h d s. some h;
}

pub length-zeros : (n : ℕ) → length (zeros n) ≡ n
length-zeros zero = refl
length-zeros (suc n) = ap suc (length-zeros n)

pub be32_short : (h : Memory) (b : ℕ) → length h.0 < 4 → next_be32 h b ≡ none
be32_short ([], l, m) b k = refl
be32_short (w ∷ [], l, m) b k = refl
be32_short (w ∷ x ∷ [], l, m) b k = refl
be32_short (w ∷ x ∷ y ∷ [], l, m) b k = refl
be32_short (w ∷ x ∷ y ∷ z ∷ rest, l, m) b k = absurd (omega arith)

pub be32_enough :
    (h : Memory) (b w x y z : ℕ) (rest : List ℕ)
    → h.0 ≡ w ∷ x ∷ y ∷ z ∷ rest
    → (h' : Memory) × (next_be32 h b ≡ some (be32 w x y z, h')) × (h'.0 ≡ rest)
be32_enough (xs, last, n) b w x y z rest e = ((rest, last, n), rw e refl, refl)

pub extend_room :
    (h : Memory) (b n : ℕ)
    → n ≤ h.2
    → (h' : Memory) × (extend h b n ≡ some h') × (length h'.0 ≡ length h.0 + n) × (h'.2 ≡ h.2 - n)
extend_room (xs, last, room) b n l = (
  (xs ++ zeros n, last, room - n),
  ground arith,
  length-append xs (zeros n) ∙ ap (◌+◌ (length xs)) (length-zeros n),
  refl,
)

abbrev pub buffers-IsBuffers : IsBuffers buffers
buffers-IsBuffers = record {
  bytes = λ h b. h.0;
  peek = λ h p n. take n h.1;
  read_be32_short = be32_short;
  read_be32_enough = be32_enough;
  read_skip_short = λ h b n l. ground arith;
  read_skip_enough = λ h b n l. ((drop n h.0, h.0, h.2), ground arith, refl, refl);
  read_length_lem = λ h b. refl;
  add_length_room = extend_room;
}

-- What is closing, what is pending, and the next memory. A write of no bytes is refused.
abbrev pub Loop : Type 0
Loop = List ℕ × List ℕ × ℕ

abbrev pub write : Loop → ℕ → ℕ → ℕ → ℕ → ℤ × Loop
write w req h p zero = (negsuc 0, w)
write (c, pending, m) req h p (suc n) = (pos 0, (c, req ∷ pending, m))

abbrev pub uv : UvOps
uv = record {
  World = Loop;
  acquire = λ w. (some w.2, (w.0, w.1, suc w.2));
  tcp_init = λ w h. (pos 0, w);
  accept = λ w h. (pos 0, w);
  getpeername = λ w h. (some (300 + h), w);
  getsockname = λ w h. (some (400 + h), w);
  read_start = λ w h. (pos 0, w);
  connect = λ w h e. (pos e, w);
  write = write;
  is_closing = λ w h. elem h w.0;
  close = λ w h cb. (h ∷ w.0, w.1, w.2);
}

pub accepted :
    (w w' : Loop) (req h p n : ℕ)
    → write w req h p n ≡ (pos 0, w')
    → (w'.1 ≡ req ∷ w.1) × (w'.0 ≡ w.0)
accepted w w' req h p zero e = ground arith
accepted (c, q, m) w' req h p (suc n) e = ground arith

pub refused :
    (w w' : Loop) (req h p n : ℕ) (code : ℤ)
    → write w req h p n ≡ (code, w')
    → code ≢ pos 0
    → (w'.1 ≡ w.1) × (w'.0 ≡ w.0)
refused w w' req h p zero code e f = ground arith
refused (c, q, m) w' req h p (suc n) code e f = ground arith

abbrev pub uv-IsUv : IsUv uv
uv-IsUv = record {
  pending = λ w. w.1;
  write_accepted =
      λ w w' req h p n e. let (q, c) = accepted w w' req h p n e in (q, λ k. ap (elem k) c);
  write_refused = λ w w' req h p n code e f.
      let (q, c) = refused w w' req h p n code e f in (q, λ k. ap (elem k) c);
  is_closing-close = λ w h k cb. refl;
  pending-close = λ w h cb. refl;
}
