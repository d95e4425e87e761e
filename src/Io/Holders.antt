-- ===== src/Io/Holders.antt =====
-- How often a read buffer is held by the service, and what single writes do to that.
use serverlynx.Prelude.{
  ℕ, zero, suc, ◌+◌, ◌≤◌, ◌<◌, ◌≡◌, ◌≢◌, refl, sym, ap, ◌∙◌, some, [], count, count-append, arith,
  Bool-cases, true, false, ◌==◌, leb, inl, inr,
}
use serverlynx.Tn.{Tn, IsTn}
use serverlynx.Tn.Events.{Event, EventType}
use serverlynx.Link.{Link, update}
use serverlynx.Service.{Service}
use serverlynx.Service.Updates.Laws.{buffers_of, buffer_of, buffers_of-append, updates}
use serverlynx.Io.{link_at, set_link}
use serverlynx.Io.Links.{opt}

-- How often the first `n` links hold the buffer `a`.
abbrev pub in_links : (ℕ → Link) → ℕ → ℕ → ℕ
in_links m zero a = 0
in_links m (suc n) a = count a (opt (m n).read_buffer) + in_links m n a

-- What a list of links is read for.
buffer_at : (ℕ → Link) → ℕ → ℕ → ℕ
buffer_at m n a = count a (opt (m n).read_buffer)

update_here :
    (m : ℕ → Link) (p a : ℕ) (l : Link) → buffer_at (update m p l) p a ≡ count a (opt l.read_buffer)
unfolding buffer_at
update_here m p a l = let same : p == p ≡ true = ground arith in rw same refl

update_there :
    (m : ℕ → Link) (p n a : ℕ) (l : Link) → p ≢ n → buffer_at (update m p l) n a ≡ buffer_at m n a
unfolding buffer_at
update_there m p n a l h = let other : p == n ≡ false = ground arith in rw other refl

in_links-update_above :
    (m : ℕ → Link) (p n a : ℕ) (l : Link) → n ≤ p → in_links (update m p l) n a ≡ in_links m n a
unfolding buffer_at
in_links-update_above m p zero a l h = refl
in_links-update_above m p (suc n) a l h =
    let rest = in_links-update_above m p n a l (omega arith) in
    let here = update_there m p n a l (λ e. omega arith) in omega arith

-- A write of a link of the array.
pub in_links-update :
    (m : ℕ → Link) (p n a : ℕ) (l : Link)
    → p < n
    → in_links (update m p l) n a + count a (opt (m p).read_buffer)
      ≡ in_links m n a + count a (opt l.read_buffer)
unfolding buffer_at
in_links-update m p zero a l h = absurd (omega arith)
in_links-update m p (suc n) a l h = elim (Bool-cases (p == n)) [
  | inl e ↦
      let same : p ≡ n = ground arith in
      let rest = in_links-update_above m p n a l (omega arith) in
      let here : buffer_at (update m p l) n a ≡ count a (opt l.read_buffer) =
        ap (λ i. buffer_at (update m p l) i a) (sym same) ∙ update_here m p a l in
      let old : count a (opt (m p).read_buffer) ≡ count a (opt (m n).read_buffer) =
        ap (λ i. count a (opt (m i).read_buffer)) same in
      omega arith
  | inr e ↦
      let rest = in_links-update m p n a l (ground arith) in
      let here = update_there m p n a l (ground arith) in omega arith
]

-- A write that does not give the link a buffer.
pub in_links-update_le :
    (m : ℕ → Link) (p n a : ℕ) (l : Link)
    → count a (opt l.read_buffer) ≤ count a (opt (m p).read_buffer)
    → in_links (update m p l) n a ≤ in_links m n a
in_links-update_le m p n a l h = elim (Bool-cases (leb n p)) [
  | inl e ↦ let same = in_links-update_above m p n a l (ground arith) in omega arith
  | inr e ↦ let same = in_links-update m p n a l (ground arith) in omega arith
]

-- A write that may give it one.
pub in_links-update_give :
    (m : ℕ → Link) (p n a : ℕ) (l : Link)
    → in_links (update m p l) n a ≤ in_links m n a + count a (opt l.read_buffer)
in_links-update_give m p n a l = elim (Bool-cases (leb n p)) [
  | inl e ↦ let same = in_links-update_above m p n a l (ground arith) in omega arith
  | inr e ↦ let same = in_links-update m p n a l (ground arith) in omega arith
]

module _ {T : Tn} (L : IsTn T) where
  -- How often the service holds it: in the read pool, with a link, or in an event that waits for the
  -- main thread.
  abbrev pub held : Service T → ℕ → ℕ
  held s a =
      count a (L.pool.items s.pool_read)
      + in_links s.link_list.client_map s.link_list.clients_max a
      + count a (buffers_of (L.events.ready s.events))

  -- `t` holds no buffer more often than `s`, and the events in the hands of the main thread are the same.
  pub record NoMore (s t : Service T) : Type 0 where
    pub hands : updates t ≡ updates s
    pub fewer : (a : ℕ) → held t a ≤ held s a

  pub same-NoMore :
      (s t : Service T) → updates t ≡ updates s → ((a : ℕ) → held t a ≡ held s a) → NoMore s t
  same-NoMore s t e h = record { hands = e; fewer = λ a. (let x = h a in omega arith) }

  pub refl-NoMore : (s : Service T) → NoMore s s
  refl-NoMore s = same-NoMore s s refl (λ a. refl)

  pub trans-NoMore : (s t u : Service T) → NoMore s t → NoMore t u → NoMore s u
  trans-NoMore s t u m n = record {
    hands = n.hands ∙ m.hands;
    fewer = λ a. (let x = m.fewer a in let y = n.fewer a in omega arith);
  }

  -- A write of a link that does not give it a buffer.
  pub set_link-NoMore :
      (s : Service T) (p : ℕ) (l : Link)
      → ((a : ℕ) → count a (opt l.read_buffer) ≤ count a (opt (link_at s p).read_buffer))
      → NoMore s (set_link s p l)
  set_link-NoMore s p l h = record {
    hands = refl;
    fewer = λ a.
        (let x = in_links-update_le s.link_list.client_map p s.link_list.clients_max a l (h a) in
          omega arith);
  }

  -- The world and a link, the latter as above.
  pub closing-NoMore :
      (s : Service T) (p : ℕ) (l : Link) (w : T.uv.World)
      → ((a : ℕ) → count a (opt l.read_buffer) ≤ count a (opt (link_at s p).read_buffer))
      → NoMore s (record (set_link s p l) { world = w })
  closing-NoMore s p l w h = record { hands = refl; fewer = λ a. (set_link-NoMore s p l h).fewer a }

  -- A push of an event that brings no buffer, and a pop of a free one.
  pub ready_push-NoMore :
      (s : Service T) (x : Event) (events : T.events.Carrier)
      → T.events.ready_push s.events x ≡ some events
      → buffer_of x.type x.priv ≡ []
      → NoMore s (record s { events = events })
  ready_push-NoMore s x events e empty =
      let queue = (L.events.ready_push_lem s.events events x e).0 in
      same-NoMore s (record s { events = events }) refl
        (λ a. rw (queue, buffers_of-append, count-append, empty) (omega arith))

  pub free_pop-NoMore :
      (s : Service T) (k : EventType) (x : Event) (events : T.events.Carrier)
      → T.events.free_pop s.events k ≡ some (x, events)
      → NoMore s (record s { events = events })
  free_pop-NoMore s k x events e =
      let queue = (L.events.free_pop_lem s.events events k x e).1 in
      same-NoMore s (record s { events = events }) refl
        (λ a.
          ap
            (λ q.
              count a (L.pool.items s.pool_read)
              + in_links s.link_list.client_map s.link_list.clients_max a
              + count a (buffers_of q))
            queue)
