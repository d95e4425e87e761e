-- ===== src/Tn/Queue.antt =====
-- `tn_queue_spsc_t` of `tn/queue_spsc.h`: a bounded queue of pointers, for one thread that pushes
-- and one that pops.
use serverlynx.Prelude.{ℕ, ◌<◌, ◌≡◌, ◌≢◌, List, [], ◌∷◌, ◌++◌, Option, none, some, length}

pub record QueueOps : Type 1 where
  pub Carrier : Type 0
  pub zeroed : Carrier
  pub setup : ℕ → Option Carrier
  pub push : Carrier → ℕ → Option Carrier
  -- The item that a pop would take, which stays in the queue.
  pub peek : Carrier → Option ℕ

-- A queue is its items, the oldest first, and holds at least as many as it was set up for.
pub record IsQueue (Q : QueueOps) : Type 0 where
  pub items : Q.Carrier → List ℕ
  pub bound : Q.Carrier → ℕ
  pub items-setup : (n : ℕ) (q : Q.Carrier) → Q.setup n ≡ some q → (items q ≡ []) × (bound q ≡ n)
  pub items-push :
      (q q' : Q.Carrier) (p : ℕ)
      → Q.push q p ≡ some q'
      → (items q' ≡ items q ++ p ∷ []) × (bound q' ≡ bound q)
  pub push_room : (q : Q.Carrier) (p : ℕ) → length (items q) < bound q → Q.push q p ≢ none
  pub peek_none : (q : Q.Carrier) → items q ≡ [] → Q.peek q ≡ none
  pub peek_some : (q : Q.Carrier) (p : ℕ) (ps : List ℕ) → items q ≡ p ∷ ps → Q.peek q ≡ some p
