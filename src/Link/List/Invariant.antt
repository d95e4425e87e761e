-- ===== src/Link/List/Invariant.antt =====
-- When a list of links is well formed, and that `setup`, `open_link`, `close_link` and `reset`
-- keep it so. The free list is read through the laws of the list of pointers.
use serverlynx.Prelude.{
  ℕ, zero, suc, ◌+◌, ◌≤◌, ◌<◌, ◌≡◌, refl, ap, ◌≢◌, inl, inr, true, none, some, List, [], length,
  Below, Distinct, elem, arith, ltb, if◌then◌else◌, Option-cases, Below-elem, Below-mono, success,
}
use serverlynx.Tn.ListPtr.{ListPtr, IsListPtr}
use serverlynx.Link.{Link, zero_link, update}
use serverlynx.Link.List.{LinkList, fill, setup, reset}

-- A link as `setup` leaves it.
abbrev pub fresh_link : ℕ → Link
fresh_link i = record zero_link { id = i }

module _ {P : ListPtr} (L : IsListPtr P) where
  -- The links that are free, the next one to hand out first.
  abbrev pub free_links : LinkList P → List ℕ
  free_links l = L.items l.client_list_free

  -- Each link knows its index, the free list names links of the array, none twice, and has room
  -- for all of them.
  pub record IsWellFormed (l : LinkList P) : Type 0 where
    pub ids : (i : ℕ) → i < l.clients_max → (l.client_map i).id ≡ i
    pub in_range : Below l.clients_max (free_links l)
    pub distinct : Distinct (free_links l)
    pub room : l.clients_max ≤ L.reserved l.client_list_free

  -- What `fill` leaves: `n` is the number of links, `i` the next one.
  record Filled (n i : ℕ) (m : ℕ → Link) (free : P.Carrier) : Type 0 where
    links : (j : ℕ) → j < i → m j ≡ fresh_link j
    blank : (j : ℕ) → j < n → i ≤ j → m j ≡ zero_link
    in_range : Below i (L.items free)
    distinct : Distinct (L.items free)
    whole : (j : ℕ) → j < i → elem j (L.items free) ≡ true
    count : length (L.items free) ≡ i
    room : n ≤ L.reserved free

  fill_step :
      (n i : ℕ) (m : ℕ → Link) (free free' : P.Carrier)
      → i < n
      → Filled n i m free
      → P.push_back free i ≡ some free'
      → Filled n (suc i) (update m i (record (m i) { id = i })) free'
  fill_step n i m free free' lt f e =
      let (items_eq, more) = L.items-push_back free free' i e in
      record {
        links = λ j h. ground (arith, f.links j, f.blank j);
        blank = λ j h k. ground (arith, f.blank j);
        in_range = rw items_eq (omega arith, Below-mono i (suc i) _ (omega arith) f.in_range);
        distinct = rw items_eq (Below-elem i _ f.in_range, f.distinct);
        whole = λ j h. rw items_eq (ground (arith, f.whole j));
        count = rw items_eq (ap suc f.count);
        room = omega arith;
      }

  -- With room for `n` links the loop pushes them all.
  fill_lem :
      (n rounds i : ℕ) (m : ℕ → Link) (free : P.Carrier)
      → rounds + i ≡ n
      → Filled n i m free
      → (m' : ℕ → Link) × (free' : P.Carrier) × (fill P rounds i m free ≡ (success, m', free'))
        × Filled n n m' free'
  unfolding fill
  fill_lem n zero i m free e f = let p : i ≡ n = omega arith in (m, free, refl, rw p at f)
  fill_lem n (suc rounds) i m free e f = elim (Option-cases (P.push_back free i)) [
    | inl stuck ↦
        absurd (L.push_back_room free i (let c = f.count in let r = f.room in omega arith) stuck)
    | inr (free', done) ↦
        rw (done, fill)
          (fill_lem n rounds (suc i) _ free' (omega arith)
            (fill_step n i m free free' (omega arith) f done))
  ]

  -- A list all of whose links are free and as `setup` leaves them.
  pub record IsFresh (n : ℕ) (l : LinkList P) : Type 0 where
    pub size : l.clients_max ≡ n
    pub links : (i : ℕ) → i < n → l.client_map i ≡ fresh_link i
    pub whole : (i : ℕ) → i < n → elem i (free_links l) ≡ true
    pub count : length (free_links l) ≡ n

  Filled-start :
      (n : ℕ) (m : ℕ → Link) (free : P.Carrier)
      → ((j : ℕ) → j < n → m j ≡ zero_link)
      → L.items free ≡ []
      → n ≤ L.reserved free
      → Filled n 0 m free
  Filled-start n m free blank empty room = record {
    links = λ j h. absurd (omega arith);
    blank = λ j h _. blank j h;
    in_range = rw empty tt;
    distinct = rw empty tt;
    whole = λ j h. absurd (omega arith);
    count = rw empty refl;
    room = room;
  }

  Filled-IsWellFormed :
      (l : LinkList P)
      → Filled l.clients_max l.clients_max l.client_map l.client_list_free
      → IsWellFormed l
  Filled-IsWellFormed l f = record {
    ids = λ i h. ap (λ k. k.id) (f.links i h);
    in_range = f.in_range;
    distinct = f.distinct;
    room = f.room;
  }

  Filled-IsFresh :
      (l : LinkList P)
      → Filled l.clients_max l.clients_max l.client_map l.client_list_free
      → IsFresh l.clients_max l
  Filled-IsFresh l f = record { size = refl; links = f.links; whole = f.whole; count = f.count }

  -- Given its memory, `setup` succeeds, and the new list is well formed, with the number of links
  -- asked for, every one of them free and blank but for its id.
  pub setup_lem :
      (n : ℕ)
      → P.setup n ≢ none
      → (l : LinkList P) × (setup P true n ≡ some l) × IsWellFormed l × IsFresh n l
  unfolding setup
  setup_lem n memory = elim (Option-cases (P.setup n)) [
    | inl e ↦ absurd (memory e)
    | inr (free, e) ↦
        let (empty, room) = L.items-setup n free e in
        let (m, free', done, f) =
          fill_lem n n 0 _ free (omega arith)
            (Filled-start n (λ _. zero_link) free (λ j h. refl) empty room) in
        let l : LinkList P = record {
          client_map = m;
          clients_max = n;
          client_list_free = free';
          client_list_open = P.zeroed;
        } in
        (l, rw (e, done, setup) refl, Filled-IsWellFormed l f, Filled-IsFresh l f)
  ]

  -- From any state of a list that kept the room for its links, `reset` succeeds and leaves the
  -- list as `setup` does, whatever links were open.
  pub reset_lem :
      (l : LinkList P)
      → l.clients_max ≤ L.reserved l.client_list_free
      → (l' : LinkList P) × (reset P l ≡ (success, l')) × IsWellFormed l' × IsFresh l.clients_max l'
  unfolding reset
  reset_lem l room =
      let n = l.clients_max in
      let (empty, more) = L.items-clear l.client_list_free in
      let (m, free, done, f) = fill_lem n n 0 _ _ (omega arith) (
        Filled-start n (λ i. if ltb i n then zero_link else l.client_map i)
          (P.clear l.client_list_free) (λ j h. ground arith) empty (omega arith)) in
      let l' : LinkList P = record l {
        client_map = m;
        client_list_free = free;
        client_list_open = P.clear l.client_list_open;
      } in
      (l', rw (done, reset) refl, Filled-IsWellFormed l' f, Filled-IsFresh l' f)
