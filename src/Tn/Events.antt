-- ===== src/Tn/Events.antt =====
-- `tn_event_list_t` of `tn/event.h`: a fixed stock of events, each either free, or ready and in
-- the queue from the IO thread to the main thread, or in the hands of who popped it. The event
-- structures are one record, and a pointer to an event is the event; `address` tells them apart.
use serverlynx.Prelude.{ℕ, ℤ, ◌≤◌, ◌≡◌, List, [], ◌∷◌, ◌++◌, Option, some, count, length}

-- `other` stands for the types that the program does not handle.
pub data EventType : Type 0 where
  client_open client_close client_read other : EventType

pub record Event : Type 0 where
  pub address : ℕ
  pub type : EventType
  pub client_id : ℕ
  pub cmd_id : ℕ
  pub error_code : ℤ
  pub host : ℕ
  pub priv : ℕ
  pub buffer : ℕ
  pub len : ℕ

pub record EventOps : Type 1 where
  pub Carrier : Type 0
  pub zeroed : Carrier
  pub setup : ℕ → Option Carrier
  pub free_pop : Carrier → EventType → Option (Event × Carrier)
  pub free_push : Carrier → Event → Option Carrier
  pub ready_push : Carrier → Event → Option Carrier
  -- At most the given number of ready events.
  pub ready_pop_all : Carrier → ℕ → Option (List Event × Carrier)

-- `free` are the addresses of the free events in any order, `ready` the queue, its oldest first.
pub record IsEvents (E : EventOps) : Type 0 where
  pub free : E.Carrier → List ℕ
  pub ready : E.Carrier → List Event
  pub free_pop_lem :
      (c c' : E.Carrier) (t : EventType) (x : Event)
      → E.free_pop c t ≡ some (x, c')
      → (x.type ≡ t)
        × (ready c' ≡ ready c)
        × ((a : ℕ) → count a (free c) ≡ count a (x.address ∷ free c'))
  pub free_push_lem :
      (c c' : E.Carrier) (x : Event)
      → E.free_push c x ≡ some c'
      → (ready c' ≡ ready c) × ((a : ℕ) → count a (free c') ≡ count a (x.address ∷ free c))
  pub ready_push_lem :
      (c c' : E.Carrier) (x : Event)
      → E.ready_push c x ≡ some c'
      → (ready c' ≡ ready c ++ x ∷ []) × (free c' ≡ free c)
  pub ready_pop_all_lem :
      (c c' : E.Carrier) (n : ℕ) (xs : List Event)
      → E.ready_pop_all c n ≡ some (xs, c')
      → (ready c ≡ xs ++ ready c') × (free c' ≡ free c) × (length xs ≤ n)
