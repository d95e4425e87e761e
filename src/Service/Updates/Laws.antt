-- ===== src/Service/Updates/Laws.antt =====
-- Where the events and their buffers are before and after the main thread has handled them.
use mathlib.Core.List.{append_assoc}
use serverlynx.Prelude.{
  ℕ, ◌+◌, ◌*◌, ◌≡◌, ◌≤◌, ◌≢◌, refl, sym, ap, ◌∙◌, ◌⊎◌, inl, inr, none, List, [], ◌∷◌, ◌++◌, map,
  count, count-append, length, take, success, failure, arith, Option-cases,
}
use serverlynx.Tn.{Tn, IsTn}
use serverlynx.Tn.Events.{Event, EventType, client_read, client_open, client_close, other}
use serverlynx.Service.{Service}
use serverlynx.Service.Updates.{
  acquire, release, release_all, release_one, return_buffer, free_event,
}

-- The buffers that an event, and a list of events, bring to the main thread.
abbrev pub buffer_of : EventType → ℕ → List ℕ
buffer_of client_read b = b ∷ []
buffer_of _ b = []

abbrev pub buffers_of : List Event → List ℕ
buffers_of [] = []
buffers_of (x ∷ xs) = buffer_of x.type x.priv ++ buffers_of xs

pub buffers_of-append :
    (xs ys : List Event) → buffers_of (xs ++ ys) ≡ buffers_of xs ++ buffers_of ys
buffers_of-append [] ys = refl
buffers_of-append (x ∷ xs) ys =
    ap (λ l. buffer_of x.type x.priv ++ l) (buffers_of-append xs ys)
    ∙ sym (append_assoc (buffer_of x.type x.priv) (buffers_of xs) (buffers_of ys))

abbrev pub addresses : List Event → List ℕ
addresses = map (λ x. x.address)

pub take-length {ℓ} : {A : Type ℓ} (xs : List A) → take (length xs) xs ≡ xs
take-length [] = refl
take-length (x ∷ xs) = ap (◌∷◌ x) (take-length xs)

-- The events that the last acquire handed out.
abbrev pub updates : {T : Tn} → Service T → List Event
updates s = take s.event_updates_count s.event_updates

-- No push of a release fails.
abbrev pub BufferFits : {T : Tn} → EventType → ℕ → Service T → Type 0
BufferFits {T} client_read b s = T.pool.push s.pool_read b ≢ none
BufferFits _ b s = Unit

abbrev pub Fits : {T : Tn} → List Event → Service T → Type 0
Fits [] s = Unit
Fits {T} (x ∷ xs) s =
    BufferFits x.type x.priv s × (T.events.free_push s.events x ≢ none) × Fits xs (release_one x s)

module _ {T : Tn} (L : IsTn T) where
  -- `t` is `s` with the events of `xs` free and their buffers in the read pool.
  pub record Returned (xs : List Event) (s t : Service T) : Type 0 where
    pub events :
        (a : ℕ)
        → count a (L.events.free t.events)
          ≡ count a (addresses xs) + count a (L.events.free s.events)
    pub buffers :
        (a : ℕ)
        → count a (L.pool.items t.pool_read)
          ≡ count a (buffers_of xs) + count a (L.pool.items s.pool_read)
    pub waiting : L.events.ready t.events ≡ L.events.ready s.events
    pub rest : t ≡ record s { events = t.events; pool_read = t.pool_read }

  return_buffer_lem :
      (k : EventType) (b : ℕ) (s : Service T)
      → BufferFits k b s
      → ((a : ℕ)
          → count a (L.pool.items (return_buffer k b s).pool_read)
            ≡ count a (buffer_of k b) + count a (L.pool.items s.pool_read))
        × (return_buffer k b s ≡ record s { pool_read = (return_buffer k b s).pool_read })
  unfolding return_buffer
  return_buffer_lem client_read b s fits = elim (Option-cases (T.pool.push s.pool_read b)) [
    | inl e ↦ absurd (fits e)
    | inr (p, e) ↦
        rw (e, return_buffer) (λ a. (let c = L.pool.count-push _ p b e a in omega arith), refl)
  ]
  return_buffer_lem client_open b s fits = (λ a. omega arith, refl)
  return_buffer_lem client_close b s fits = (λ a. omega arith, refl)
  return_buffer_lem other b s fits = (λ a. omega arith, refl)

  free_event_lem :
      (x : Event) (u : Service T)
      → T.events.free_push u.events x ≢ none
      → ((a : ℕ)
          → count a (L.events.free (free_event x u).events)
            ≡ count a (x.address ∷ L.events.free u.events))
        × (L.events.ready (free_event x u).events ≡ L.events.ready u.events)
        × (free_event x u ≡ record u { events = (free_event x u).events })
  unfolding free_event
  free_event_lem x u fits = elim (Option-cases (T.events.free_push u.events x)) [
    | inl e ↦ absurd (fits e)
    | inr (c, e) ↦
        let (ready, free) = L.events.free_push_lem _ c x e in rw (e, free_event) (free, ready, refl)
  ]

  pub release_one-Returned :
      (x : Event) (s : Service T)
      → BufferFits x.type x.priv s
      → T.events.free_push s.events x ≢ none
      → Returned (x ∷ []) s (release_one x s)
  unfolding release_one
  release_one-Returned x s fits event_fits =
      let u = return_buffer x.type x.priv s in
      let (buffers, same) = return_buffer_lem x.type x.priv s fits in
      let kept : u.events ≡ s.events = ap (λ r. r.events) same in
      let (free, ready, rest) = free_event_lem x u (rw kept event_fits) in
      record {
        events = λ a. (let p = free a in omega (arith, ap (λ c. count a (L.events.free c)) kept));
        buffers = λ a.
            (let p = buffers a in
              omega (
                arith,
                ap (λ r. count a (L.pool.items r.pool_read)) rest,
                count-append a (buffer_of x.type x.priv) [],
              ));
        waiting = ready ∙ ap L.events.ready kept;
        rest = cc (same, rest);
      }

  release_all-Returned :
      (xs : List Event) (s : Service T) → Fits xs s → Returned xs s (release_all xs s)
  unfolding release_all
  release_all-Returned [] s f = record {
    events = λ a. omega arith;
    buffers = λ a. omega arith;
    waiting = refl;
    rest = refl;
  }
  release_all-Returned (x ∷ xs) s (fits, event_fits, later) =
      let one = release_one-Returned x s fits event_fits in
      let all = release_all-Returned xs (release_one x s) later in
      record {
        events = λ a. (let p = one.events a in let q = all.events a in omega arith);
        buffers = λ a.
            (let p = one.buffers a in
              let q = all.buffers a in
              omega (
                arith,
                count-append a (buffer_of x.type x.priv) (buffers_of xs),
                count-append a (buffer_of x.type x.priv) [],
              ));
        waiting = all.waiting ∙ one.waiting;
        rest = cc (one.rest, all.rest);
      }

  -- An acquire either fails, and then hands out nothing, takes nothing from the queue and forgets
  -- the events of the last one; or it hands out the oldest ready events, in order and no more than
  -- there is room for, and keeps exactly these for the release.
  pub acquire_lem :
      (s : Service T)
      → (acquire s ≡ (failure, 0, record s { event_updates_count = 0 }))
        ⊎ ((xs : List Event) × (s' : Service T) × (acquire s ≡ (success, length xs, s'))
            × (L.events.ready s.events ≡ xs ++ L.events.ready s'.events)
            × (L.events.free s'.events ≡ L.events.free s.events)
            × (length xs ≤ s.buffer_count)
            × (take s'.event_updates_count s'.event_updates ≡ xs)
            × (s' ≡ record s {
              events = s'.events;
              event_updates = s'.event_updates;
              event_updates_count = s'.event_updates_count;
            }))
  unfolding acquire
  acquire_lem s = elim (Option-cases (T.events.ready_pop_all s.events s.buffer_count)) [
    | inl e ↦ inl (rw (e, acquire) refl)
    | inr ((xs, c), e) ↦
        let (ready, free, few) = L.events.ready_pop_all_lem _ c _ xs e in
        inr (
          xs,
          record s { events = c; event_updates = xs; event_updates_count = length xs },
          rw (e, acquire) refl,
          ready,
          free,
          few,
          take-length xs,
          refl,
        )
  ]

  -- A release of acquired events, none of whose pushes fails, makes every one of them free again and
  -- gives the buffer of every read event back to the read pool, once each, and changes nothing else
  -- of the service; the queue of ready events is left alone.
  pub release-Returned :
      (s : Service T)
      → Fits (updates s) s
      → (t : Service T) × (release s ≡ (success, t)) × Returned (updates s) s t
  unfolding release
  release-Returned s f = (_, refl, release_all-Returned _ s f)

  -- A second release with no acquire in between, when no push fails, gives the same buffers and
  -- events back once more: each then stands in the pool, or in the free list, once too often.
  pub release_twice :
      (s : Service T)
      → Fits (updates s) s
      → Fits (updates s) (release s).1
      → (a : ℕ)
      → let u = (release (release s).1).1 in
        (count a (L.pool.items u.pool_read)
          ≡ 2 * count a (buffers_of (updates s)) + count a (L.pool.items s.pool_read))
        × (count a (L.events.free u.events)
            ≡ 2 * count a (addresses (updates s)) + count a (L.events.free s.events))
  unfolding release
  release_twice s f g a =
      let xs = take s.event_updates_count s.event_updates in
      let t = release_all xs s in
      let one = release_all-Returned xs s f in
      let two = release_all-Returned xs t g in
      let same : take t.event_updates_count t.event_updates ≡ xs =
        ap (λ r. take r.event_updates_count r.event_updates) one.rest in
      rw same (
        (let p = one.buffers a in let q = two.buffers a in omega arith),
        (let p = one.events a in let q = two.events a in omega arith),
      )
