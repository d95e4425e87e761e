-- ===== src/Io/Stocks.antt =====
-- How often a command and an event are in the lists, and what single steps do to that.
use serverlynx.Prelude.{
  ℕ, ◌+◌, ◌≤◌, ◌≡◌, refl, ap, ◌∙◌, some, List, [], ◌∷◌, ◌++◌, count, count-append, arith,
}
use serverlynx.Tn.{Tn, IsTn}
use serverlynx.Tn.Events.{Event, EventType}
use serverlynx.Service.{Service}
use serverlynx.Service.Updates.Laws.{updates}
use serverlynx.Io.Commands.Laws.{held, ids}
use serverlynx.Io.Connecting.Frame.{IsFrame}

abbrev pub addresses : List Event → List ℕ
addresses [] = []
addresses (x ∷ xs) = x.address ∷ addresses xs

pub addresses-append : (xs ys : List Event) → addresses (xs ++ ys) ≡ addresses xs ++ addresses ys
addresses-append [] ys = refl
addresses-append (x ∷ xs) ys = ap (◌∷◌ x.address) (addresses-append xs ys)

module _ {T : Tn} (L : IsTn T) where
  -- How often an event is free or ready.
  abbrev pub listed : Service T → ℕ → ℕ
  listed s a = count a (L.events.free s.events) + count a (addresses (L.events.ready s.events))

  -- `t` has no event and no command more often than `s`, and the events in the hands of the main thread
  -- are the same.
  pub record NoneNew (s t : Service T) : Type 0 where
    pub hands : updates t ≡ updates s
    pub events : (a : ℕ) → listed t a ≤ listed s a
    pub cmds : (a : ℕ) → held L a t ≤ held L a s

  -- The same, with the event `x` in no list.
  pub record WithEvent (s : Service T) (x : Event) (t : Service T) : Type 0 where
    pub hands : updates t ≡ updates s
    pub events : (a : ℕ) → listed t a + count a (x.address ∷ []) ≤ listed s a
    pub cmds : (a : ℕ) → held L a t ≤ held L a s

  pub same-NoneNew :
      (s t : Service T)
      → updates t ≡ updates s
      → t.events ≡ s.events
      → t.cmds ≡ s.cmds
      → NoneNew s t
  same-NoneNew s t h e c = record {
    hands = h;
    events = λ a.
        (let x = ap (λ v. count a (L.events.free v) + count a (addresses (L.events.ready v))) e in
          omega arith);
    cmds = λ a.
        (let x = ap (λ v. count a (ids (L.cmds.ready v)) + count a (L.cmds.free v)) c in
          omega arith);
  }

  pub refl-NoneNew : (s : Service T) → NoneNew s s
  refl-NoneNew s = same-NoneNew s s refl refl refl

  pub trans-NoneNew : (s t u : Service T) → NoneNew s t → NoneNew t u → NoneNew s u
  trans-NoneNew s t u m n = record {
    hands = n.hands ∙ m.hands;
    events = λ a. (let x = m.events a in let y = n.events a in omega arith);
    cmds = λ a. (let x = m.cmds a in let y = n.cmds a in omega arith);
  }

  pub free_pop-WithEvent :
      (s t : Service T) (k : EventType) (x : Event) (events : T.events.Carrier)
      → NoneNew s t
      → T.events.free_pop t.events k ≡ some (x, events)
      → WithEvent s x (record t { events = events })
  free_pop-WithEvent s t k x events m e =
      let (_, ready, free) = L.events.free_pop_lem t.events events k x e in
      record {
        hands = m.hands;
        events = λ a.
            (let b = m.events a in
              let c = free a in let d = ap (λ l. count a (addresses l)) ready in omega arith);
        cmds = m.cmds;
      }

  pub ready_push-NoneNew :
      (s t : Service T) (x y : Event) (events : T.events.Carrier)
      → WithEvent s x t
      → y.address ≡ x.address
      → T.events.ready_push t.events y ≡ some events
      → NoneNew s (record t { events = events })
  ready_push-NoneNew s t x y events m same e =
      let (ready, free) = L.events.ready_push_lem t.events events y e in
      record {
        hands = m.hands;
        events = λ a.
            (let b = m.events a in
              let c = ap (count a) free in
              let d : count a (addresses (L.events.ready events))
                  ≡ count a (addresses (L.events.ready t.events)) + count a (y.address ∷ []) =
                ap (λ l. count a (addresses l)) ready
                ∙ ap (count a) (addresses-append (L.events.ready t.events) (y ∷ []))
                ∙ count-append a (addresses (L.events.ready t.events)) (y.address ∷ []) in
              let i = ap (λ n. count a (n ∷ [])) same in omega arith);
        cmds = m.cmds;
      }

  pub lost-NoneNew : (s t : Service T) (x : Event) → WithEvent s x t → NoneNew s t
  lost-NoneNew s t x m = record {
    hands = m.hands;
    events = λ a. (let b = m.events a in omega arith);
    cmds = m.cmds;
  }

  pub NoneNew-IsFrame : (s : Service T) → IsFrame (NoneNew s) (WithEvent s)
  NoneNew-IsFrame s = record {
    world = λ t w m. record { hands = m.hands; events = m.events; cmds = m.cmds };
    links = λ t l same m. record { hands = m.hands; events = m.events; cmds = m.cmds };
    pop = λ t x events m e. free_pop-WithEvent s t _ x events m e;
    push = λ t x y events m same kind e. ready_push-NoneNew s t x y events m same e;
    drop = λ t x m. lost-NoneNew s t x m;
  }
