-- ===== src/Link/List/Opening.antt =====
-- `open_link`, `close_link` and `get` of a well-formed list of links, on every branch.
use serverlynx.Prelude.{
  ℕ, suc, ◌≤◌, ◌<◌, ◌≡◌, refl, sym, ◌∙◌, ◌≢◌, ◌⊎◌, inl, inr, false, none, some, [], ◌∷◌, length,
  Below, Distinct, elem, arith, leb, Bool-cases, Option-cases, length-le_of_Distinct,
}
use mathlib.Core.Path.{subst}
use mathlib.Core.Option.{some-ne-none, some-injective}
use serverlynx.Tn.ListPtr.{ListPtr, IsListPtr}
use serverlynx.Link.{update}
use serverlynx.Link.List.{LinkList, open_link, close_link, get}
use serverlynx.Link.List.Invariant.{IsWellFormed, free_links}

module _ {P : ListPtr} (L : IsListPtr P) (cmd_invalid : ℕ) where
  -- `p` has left the free list, and of the links only its command ids have changed.
  pub record Opened (l : LinkList P) (p : ℕ) (l' : LinkList P) : Type 0 where
    pub taken : free_links L l ≡ p ∷ free_links L l'
    pub in_array : p < l.clients_max
    pub gone : elem p (free_links L l') ≡ false
    pub size : l'.clients_max ≡ l.clients_max
    pub link :
        l'.client_map p
        ≡ record (l.client_map p) { cmd_open_id = cmd_invalid; cmd_close_id = cmd_invalid }
    pub others : (q : ℕ) → p ≢ q → l'.client_map q ≡ l.client_map q
    pub kept : IsWellFormed L l'

  open_some :
      (l : LinkList P) (p : ℕ) (free : P.Carrier)
      → IsWellFormed L l
      → P.pop_back l.client_list_free ≡ some (p, free)
      → (l' : LinkList P) × (open_link P cmd_invalid l ≡ some (p, l')) × Opened l p l'
  unfolding open_link
  open_some l p free w e =
      let (items_eq, more) = L.items-pop_back l.client_list_free free p e in
      let b : Below l.clients_max (p ∷ L.items free) = rw items_eq at w.in_range in
      let d : Distinct (p ∷ L.items free) = rw items_eq at w.distinct in
      let l' : LinkList P = record l {
        client_list_free = free;
        client_map =
            update l.client_map p
              (record (l.client_map p) { cmd_open_id = cmd_invalid; cmd_close_id = cmd_invalid });
      } in
      (
        l',
        rw (e, open_link) refl,
        record {
          taken = items_eq;
          in_array = b.0;
          gone = d.0;
          size = refl;
          link = ground arith;
          others = λ q h. ground arith;
          kept = record {
            ids = λ i h. ground (arith, w.ids i);
            in_range = b.1;
            distinct = d.1;
            room = let r = w.room in omega arith;
          };
        },
      )

  -- `open_link` fails exactly when no link is free. Otherwise it hands out a link of the array
  -- that is free no longer, resets its command ids and leaves all other links alone.
  pub open_lem :
      (l : LinkList P)
      → IsWellFormed L l
      → ((free_links L l ≡ []) × (open_link P cmd_invalid l ≡ none))
        ⊎ ((p : ℕ) × (l' : LinkList P) × (open_link P cmd_invalid l ≡ some (p, l')) × Opened l p l')
  unfolding open_link
  open_lem l w = elim (Option-cases (P.pop_back l.client_list_free)) [
    | inl e ↦ inl (L.pop_back_empty _ e, rw (e, open_link) refl)
    | inr ((p, free), e) ↦
        let (l', done, opened) = open_some l p free w e in inr (p, l', done, opened)
  ]

  pub open-Opened :
      (l l' : LinkList P) (p : ℕ)
      → IsWellFormed L l
      → open_link P cmd_invalid l ≡ some (p, l')
      → Opened l p l'
  open-Opened l l' p w e = elim (open_lem l w) [
    | inl (_, closed) ↦ absurd (some-ne-none _ (sym e ∙ closed))
    | inr (q, k, done, opened) ↦
        subst (λ (x : ℕ × LinkList P). Opened l x.0 x.1) (some-injective _ _ (sym done ∙ e)) opened
  ]

module _ {P : ListPtr} (L : IsListPtr P) where
  -- Closing a link that is not free always succeeds: the link is free again, next in turn, and
  -- the links themselves are untouched.
  pub close_lem :
      (l : LinkList P) (p : ℕ)
      → IsWellFormed L l
      → p < l.clients_max
      → elem p (free_links L l) ≡ false
      → (l' : LinkList P) × (close_link P l p ≡ some l')
        × (free_links L l' ≡ p ∷ free_links L l)
        × (l'.client_map ≡ l.client_map)
        × (l'.clients_max ≡ l.clients_max)
        × IsWellFormed L l'
  unfolding close_link
  close_lem l p w lt out = elim (Option-cases (P.push_back l.client_list_free p)) [
    | inl e ↦ absurd (L.push_back_room _ p (omega (arith, bound, w.room)) e)
    | inr (free, e) ↦
        let (items_eq, more) = L.items-push_back _ free p e in
        (
          record l { client_list_free = free },
          rw (e, close_link) refl,
          items_eq,
          refl,
          refl,
          record {
            ids = w.ids;
            in_range = rw items_eq (lt, w.in_range);
            distinct = rw items_eq (out, w.distinct);
            room = let r = w.room in omega arith;
          },
        )
  ]
    where
      bound : suc (length (free_links L l)) ≤ l.clients_max
      bound = length-le_of_Distinct _ (p ∷ free_links L l) (out, w.distinct) (lt, w.in_range)

  -- What is known of a list from which `p` was closed.
  abbrev pub Closed : LinkList P → ℕ → LinkList P → Type 0
  Closed l p l' =
      (free_links L l' ≡ p ∷ free_links L l)
      × (l'.client_map ≡ l.client_map)
      × (l'.clients_max ≡ l.clients_max)
      × IsWellFormed L l'

  pub close-Closed :
      (l l' : LinkList P) (p : ℕ)
      → IsWellFormed L l
      → p < l.clients_max
      → elem p (free_links L l) ≡ false
      → close_link P l p ≡ some l'
      → Closed l p l'
  close-Closed l l' p w lt out e =
      let (k, done, free, links, size, kept) = close_lem l p w lt out in
      subst (Closed l p) (some-injective _ _ (sym done ∙ e)) (free, links, size, kept)

  -- A link that has just been opened can be closed, and the free list is as it was before.
  pub close-open :
      (cmd_invalid : ℕ) (l l' : LinkList P) (p : ℕ)
      → IsWellFormed L l
      → open_link P cmd_invalid l ≡ some (p, l')
      → (l'' : LinkList P) × (close_link P l' p ≡ some l'')
        × (free_links L l'' ≡ free_links L l)
        × IsWellFormed L l''
  close-open cmd_invalid l l' p w e =
      let o = open-Opened L cmd_invalid l l' p w e in
      let (l'', done, free, _, _, kept) =
        close_lem l' p o.kept (let s = o.size in let b = o.in_array in omega arith) o.gone in
      (l'', done, free ∙ sym o.taken, kept)

  -- `get` gives a link exactly when the id is below the number of links, and then the link of
  -- that id.
  pub get_lem :
      (l : LinkList P) (id : ℕ)
      → IsWellFormed L l
      → ((id < l.clients_max) × (p : ℕ) × (get P l id ≡ some p) × ((l.client_map p).id ≡ id))
        ⊎ ((l.clients_max ≤ id) × (get P l id ≡ none))
  unfolding get
  get_lem l id w = elim (Bool-cases (leb l.clients_max id)) [
    | inl out ↦ inr (ground arith, ground arith)
    | inr inside ↦ inl (ground arith, id, ground arith, w.ids id (ground arith))
  ]
