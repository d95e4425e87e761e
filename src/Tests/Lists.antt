-- ===== src/Tests/Lists.antt =====
-- Lists of pointers, pools and queues that keep the documented laws, as plain lists.
use serverlynx.Prelude.{
  ℕ, suc, ◌≤◌, ◌<◌, ◌≡◌, ◌≢◌, refl, ap, Option, none, some, List, [], ◌∷◌, ◌++◌, length, arith,
  if◌then◌else◌, leb, count,
}
use serverlynx.Tn.ListPtr.{ListPtr as ListPtrOps, IsListPtr}
use serverlynx.Tn.BufferPool.{PoolOps, IsPool}
use serverlynx.Tn.Queue.{QueueOps, IsQueue}

-- A capacity, and the items.
abbrev pub Bounded : Type 0
Bounded = ℕ × List ℕ

abbrev pub push : Bounded → ℕ → Option Bounded
push (n, xs) p = if leb (suc (length xs)) n then some (n, p ∷ xs) else none

abbrev pub pop : Bounded → Option (ℕ × Bounded)
pop (n, []) = none
pop (n, x ∷ xs) = some (x, (n, xs))

abbrev pub pointers : ListPtrOps
pointers = record {
  Carrier = Bounded;
  zeroed = (0, []);
  setup = λ n. some (n, []);
  push_back = push;
  pop_back = pop;
  clear = λ l. (l.0, []);
}

pub push_lem : (l l' : Bounded) (p : ℕ) → push l p ≡ some l' → (l'.1 ≡ p ∷ l.1) × (l.0 ≤ l'.0)
push_lem (n, xs) l' p e = ground arith

pub pop_lem : (l l' : Bounded) (p : ℕ) → pop l ≡ some (p, l') → (l.1 ≡ p ∷ l'.1) × (l.0 ≤ l'.0)
pop_lem (n, []) l' p e = ground arith
pop_lem (n, x ∷ xs) l' p e = ground arith

pub pop-none : (l : Bounded) → pop l ≡ none → l.1 ≡ []
pop-none (n, []) e = refl
pop-none (n, x ∷ xs) e = ground arith

pub push_room : (l : Bounded) (p : ℕ) → length l.1 < l.0 → push l p ≢ none
push_room (n, xs) p h = ground arith

abbrev pub pointers-IsListPtr : IsListPtr pointers
pointers-IsListPtr = record {
  items = λ l. l.1;
  reserved = λ l. l.0;
  items-setup = λ n l e. ground arith;
  items-push_back = push_lem;
  push_back_room = push_room;
  items-pop_back = pop_lem;
  pop_back_empty = pop-none;
  items-clear = λ l. (refl, omega arith);
}

abbrev pub pool_pop : List ℕ → Option (ℕ × List ℕ)
pool_pop [] = none
pool_pop (x ∷ xs) = some (x, xs)

abbrev pub pool : PoolOps
pool = record {
  Carrier = List ℕ;
  zeroed = [];
  setup = λ n size. some [];
  pop_back = pool_pop;
  push = λ c b. some (b ∷ c);
}

pub pool_pop_lem : (c c' : List ℕ) (b : ℕ) → pool_pop c ≡ some (b, c') → c ≡ b ∷ c'
pool_pop_lem [] c' b e = ground arith
pool_pop_lem (x ∷ xs) c' b e = ground arith

pub push_eq : (c c' : List ℕ) (b : ℕ) → some (b ∷ c) ≡ some c' → c' ≡ b ∷ c
push_eq c c' b e = ground arith

abbrev pub pool-IsPool : IsPool pool
pool-IsPool = record {
  items = λ c. c;
  count-pop_back = λ c c' b e a. ap (count a) (pool_pop_lem c c' b e);
  count-push = λ c c' b e a. ap (count a) (push_eq c c' b e);
}

abbrev pub queue_push : Bounded → ℕ → Option Bounded
queue_push (n, xs) p = if leb (suc (length xs)) n then some (n, xs ++ p ∷ []) else none

abbrev pub queue_peek : Bounded → Option ℕ
queue_peek (n, []) = none
queue_peek (n, x ∷ xs) = some x

abbrev pub queue : QueueOps
queue = record {
  Carrier = Bounded;
  zeroed = (0, []);
  setup = λ n. some (n, []);
  push = queue_push;
  peek = queue_peek;
}

pub queue_push_lem :
    (q q' : Bounded) (p : ℕ) → queue_push q p ≡ some q' → (q'.1 ≡ q.1 ++ p ∷ []) × (q'.0 ≡ q.0)
queue_push_lem (n, xs) q' p e = ground arith

pub queue_room : (q : Bounded) (p : ℕ) → length q.1 < q.0 → queue_push q p ≢ none
queue_room (n, xs) p h = ground arith

pub queue_peek-none : (q : Bounded) → q.1 ≡ [] → queue_peek q ≡ none
queue_peek-none (n, []) e = refl
queue_peek-none (n, x ∷ xs) e = ground arith

pub queue_peek-some : (q : Bounded) (p : ℕ) (ps : List ℕ) → q.1 ≡ p ∷ ps → queue_peek q ≡ some p
queue_peek-some (n, []) p ps e = ground arith
queue_peek-some (n, x ∷ xs) p ps e = ground arith

abbrev pub queue-IsQueue : IsQueue queue
queue-IsQueue = record {
  items = λ q. q.1;
  bound = λ q. q.0;
  items-setup = λ n q e. ground arith;
  items-push = queue_push_lem;
  push_room = queue_room;
  peek_none = queue_peek-none;
  peek_some = queue_peek-some;
}
