-- ===== src/Tests/Stocks.antt =====
-- Stocks of commands and of events that keep the documented laws, as plain lists.
use serverlynx.Prelude.{
  ℕ, zero, suc, pos, ◌≤◌, ◌≡◌, refl, ap, Option, none, some, List, [], ◌∷◌, ◌++◌, length, arith,
  count, take, drop,
}
use serverlynx.Tn.Cmds.{CmdType, Cmd, CmdOps, IsCmds}
use serverlynx.Tn.Events.{EventType, Event, EventOps, IsEvents}

abbrev pub a_cmd : ℕ → CmdType → Cmd
a_cmd id t = record {
  id = id;
  type = t;
  client_id = 0;
  endpoint = 0;
  buffer = 0;
  len = 0;
  priv = 0;
}

-- The ids of the free commands, and the queue.
abbrev pub CmdStock : Type 0
CmdStock = List ℕ × List Cmd

abbrev pub cmd_pop : CmdStock → CmdType → Option (Cmd × CmdStock)
cmd_pop ([], r) t = none
cmd_pop (x ∷ xs, r) t = some (a_cmd x t, (xs, r))

abbrev pub cmd_next : CmdStock → Option (Cmd × CmdStock)
cmd_next (f, []) = none
cmd_next (f, x ∷ xs) = some (x, (f, xs))

abbrev pub cmds : CmdOps
cmds = record {
  Carrier = CmdStock;
  zeroed = ([], []);
  setup = λ n. some ([], []);
  free_pop = cmd_pop;
  free_push = λ c x. some (x.id ∷ c.0, c.1);
  ready_push = λ c x. some (c.0, c.1 ++ x ∷ []);
  ready_pop_back = cmd_next;
}

pub cmd_pop_lem :
    (c c' : CmdStock) (t : CmdType) (x : Cmd)
    → cmd_pop c t ≡ some (x, c')
    → (x.type ≡ t) × (c'.1 ≡ c.1) × (c.0 ≡ x.id ∷ c'.0)
cmd_pop_lem ([], r) c' t x e = ground arith
cmd_pop_lem (y ∷ ys, r) c' t x e = ground arith

pub cmd_next_lem :
    (c c' : CmdStock) (x : Cmd) → cmd_next c ≡ some (x, c') → (c.1 ≡ x ∷ c'.1) × (c'.0 ≡ c.0)
cmd_next_lem (f, []) c' x e = ground arith
cmd_next_lem (f, y ∷ ys) c' x e = ground arith

pub cmd_next-none : (c : CmdStock) → cmd_next c ≡ none → c.1 ≡ []
cmd_next-none (f, []) e = refl
cmd_next-none (f, y ∷ ys) e = ground arith

pub cmd_free_lem :
    (c c' : CmdStock) (x : Cmd)
    → some (x.id ∷ c.0, c.1) ≡ some c'
    → (c'.1 ≡ c.1) × (c'.0 ≡ x.id ∷ c.0)
cmd_free_lem c c' x e = ground arith

pub cmd_ready_lem :
    (c c' : CmdStock) (x : Cmd)
    → some (c.0, c.1 ++ x ∷ []) ≡ some c'
    → (c'.1 ≡ c.1 ++ x ∷ []) × (c'.0 ≡ c.0)
cmd_ready_lem c c' x e = ground arith

abbrev pub cmds-IsCmds : IsCmds cmds
cmds-IsCmds = record {
  free = λ c. c.0;
  ready = λ c. c.1;
  free_pop_lem =
      λ c c' t x e. let (k, r, f) = cmd_pop_lem c c' t x e in (k, r, λ a. ap (count a) f);
  free_push_lem = λ c c' x e. let (r, f) = cmd_free_lem c c' x e in (r, λ a. ap (count a) f);
  ready_push_lem = cmd_ready_lem;
  ready_pop_back_lem = cmd_next_lem;
  ready_pop_back_none = cmd_next-none;
}

abbrev pub an_event : ℕ → EventType → Event
an_event i t = record {
  address = i;
  type = t;
  client_id = 0;
  cmd_id = 0;
  error_code = pos 0;
  host = 0;
  priv = 0;
  buffer = 0;
  len = 0;
}

-- The addresses of the free events, and the queue.
abbrev pub EventStock : Type 0
EventStock = List ℕ × List Event

abbrev pub event_pop : EventStock → EventType → Option (Event × EventStock)
event_pop ([], r) t = none
event_pop (x ∷ xs, r) t = some (an_event x t, (xs, r))

abbrev pub event_all : EventStock → ℕ → Option (List Event × EventStock)
event_all c n = some (take n c.1, (c.0, drop n c.1))

abbrev pub events : EventOps
events = record {
  Carrier = EventStock;
  zeroed = ([], []);
  setup = λ n. some ([], []);
  free_pop = event_pop;
  free_push = λ c x. some (x.address ∷ c.0, c.1);
  ready_push = λ c x. some (c.0, c.1 ++ x ∷ []);
  ready_pop_all = event_all;
}

pub event_pop_lem :
    (c c' : EventStock) (t : EventType) (x : Event)
    → event_pop c t ≡ some (x, c')
    → (x.type ≡ t) × (c'.1 ≡ c.1) × (c.0 ≡ x.address ∷ c'.0)
event_pop_lem ([], r) c' t x e = ground arith
event_pop_lem (y ∷ ys, r) c' t x e = ground arith

pub event_free_lem :
    (c c' : EventStock) (x : Event)
    → some (x.address ∷ c.0, c.1) ≡ some c'
    → (c'.1 ≡ c.1) × (c'.0 ≡ x.address ∷ c.0)
event_free_lem c c' x e = ground arith

pub event_ready_lem :
    (c c' : EventStock) (x : Event)
    → some (c.0, c.1 ++ x ∷ []) ≡ some c'
    → (c'.1 ≡ c.1 ++ x ∷ []) × (c'.0 ≡ c.0)
event_ready_lem c c' x e = ground arith

pub take-drop : (n : ℕ) (xs : List Event) → (xs ≡ take n xs ++ drop n xs) × (length (take n xs) ≤ n)
take-drop zero xs = (refl, omega arith)
take-drop (suc n) [] = (refl, omega arith)
take-drop (suc n) (x ∷ xs) = let (e, l) = take-drop n xs in (ap (◌∷◌ x) e, omega arith)

pub event_all_lem :
    (c c' : EventStock) (n : ℕ) (xs : List Event)
    → event_all c n ≡ some (xs, c')
    → (xs ≡ take n c.1) × (c'.1 ≡ drop n c.1) × (c'.0 ≡ c.0)
event_all_lem c c' n xs e = ground arith

abbrev pub events-IsEvents : IsEvents events
events-IsEvents = record {
  free = λ c. c.0;
  ready = λ c. c.1;
  free_pop_lem =
      λ c c' t x e. let (k, r, f) = event_pop_lem c c' t x e in (k, r, λ a. ap (count a) f);
  free_push_lem = λ c c' x e. let (r, f) = event_free_lem c c' x e in (r, λ a. ap (count a) f);
  ready_push_lem = event_ready_lem;
  ready_pop_all_lem = λ c c' n xs e.
      let (f, r, g) = event_all_lem c c' n xs e in
      let (whole, l) = take-drop n c.1 in (rw (f, r) whole, g, rw f l);
}
