-- ===== src/Link/List/Held.antt =====
-- The list of links against its specification: a set of links that are held, of at most
-- `clients_max`. A client opens links and closes the ones that it holds.
use mathlib.Core.Bool.{not}
use mathlib.Core.Path.{subst}
use mathlib.Core.Option.{some-ne-none, some-injective}
use serverlynx.Prelude.{
  ◌⊎◌, ℕ, ◌+◌, ◌≤◌, ◌<◌, ◌≡◌, refl, sym, ap, ◌∙◌, ◌≢◌, ◌↔◌, inl, inr, true, false, none, some, List,
  [], ◌∷◌, length, Below, Distinct, elem, remove, arith, if◌then◌else◌, Bool-cases, Option-cases,
  remove-Distinct, remove-Below_same, length-remove-elem, elem-remove_if, elem_of_Below,
}
use serverlynx.Tn.ListPtr.{ListPtr, IsListPtr}
use serverlynx.Link.List.{LinkList, setup, open_link, close_link}
use serverlynx.Link.List.Invariant.{IsWellFormed, IsFresh, free_links, setup_lem}
use serverlynx.Link.List.Opening.{open_lem, close_lem, open-Opened, close-Closed}

pub data Call : Type 0 where
  opens : Call
  closes : ℕ → Call

-- The held links and the list behind them.
abbrev pub Client : ListPtr → Type 0
Client P = List ℕ × LinkList P

module _ (P : ListPtr) (cmd_invalid : ℕ) where
  unfoldable pub serve : Client P → Call → Client P
  serve (held, l) opens = elim (open_link P cmd_invalid l) [
    | none ↦ (held, l)
    | some (p, l') ↦ (p ∷ held, l')
  ]
  serve (held, l) (closes p) = elim (close_link P l p) [
    | none ↦ (held, l)
    | some l' ↦ if elem p held then (remove p held, l') else (held, l)
  ]

  unfoldable pub serve_all : Client P → List Call → Client P
  serve_all c [] = c
  serve_all c (k ∷ ks) = serve_all (serve c k) ks

-- A well-formed list of `n` links, of which exactly the held ones are not free.
pub record Holds {P : ListPtr} (L : IsListPtr P) (n : ℕ) (c : Client P) : Type 0 where
  pub size : c.1.clients_max ≡ n
  pub wf : IsWellFormed L c.1
  pub distinct : Distinct c.0
  pub in_array : Below n c.0
  pub split : (i : ℕ) → i < n → elem i (free_links L c.1) ≡ not (elem i c.0)
  pub count : length (free_links L c.1) + length c.0 ≡ n

module _ {P : ListPtr} (L : IsListPtr P) (cmd_invalid n : ℕ) where
  opens-Holds :
      (held : List ℕ) (l l' : LinkList P) (p : ℕ)
      → Holds L n (held, l)
      → open_link P cmd_invalid l ≡ some (p, l')
      → Holds L n (p ∷ held, l')
  opens-Holds held l l' p h e =
      let o = open-Opened L cmd_invalid l l' p h.wf e in
      let t = o.taken in
      let lt : p < n = (let b = o.in_array in let s = h.size in omega arith) in
      record {
        size = o.size ∙ h.size;
        wf = o.kept;
        distinct = (ground (arith, h.split p), h.distinct);
        in_array = (lt, h.in_array);
        split = λ i b. ground (arith, h.split i b, o.gone);
        count = (let c = h.count in omega (arith, ap length t));
      }

  closes-Holds :
      (held : List ℕ) (l l' : LinkList P) (p : ℕ)
      → Holds L n (held, l)
      → elem p held ≡ true
      → close_link P l p ≡ some l'
      → Holds L n (remove p held, l')
  closes-Holds held l l' p h m e =
      let lt : p < n = elem_of_Below n p held h.in_array m in
      let out : elem p (free_links L l) ≡ false = ground (arith, h.split p lt) in
      let (free, _, size, kept) =
        close-Closed L l l' p h.wf (let s = h.size in omega arith) out e in
      record {
        size = size ∙ h.size;
        wf = kept;
        distinct = remove-Distinct p held h.distinct;
        in_array = remove-Below_same n p held h.in_array;
        split = λ i b. rw free (ground (arith, h.split i b, elem-remove_if p i held));
        count =
            (let c = h.count in
              omega (arith, ap length free, length-remove-elem p held h.distinct m));
      }

  serve-Holds : (c : Client P) (k : Call) → Holds L n c → Holds L n (serve P cmd_invalid c k)
  unfolding serve
  serve-Holds (held, l) opens h = elim (Option-cases (open_link P cmd_invalid l)) [
    | inl e ↦ rw (e, serve) h
    | inr ((p, l'), e) ↦ rw (e, serve) (opens-Holds held l l' p h e)
  ]
  serve-Holds (held, l) (closes p) h = elim (Bool-cases (elem p held)) [
    | inr m ↦ ground (arith, Option-cases (close_link P l p))
    | inl m ↦ elim (Option-cases (close_link P l p)) [
      | inl e ↦ rw (e, serve) h
      | inr (l', e) ↦ rw (e, serve) (rw m (closes-Holds held l l' p h m e))
    ]
  ]

  -- Whatever links a client opens, and whichever of those it closes again, the links that it holds
  -- are distinct links of the array, and they are exactly the ones that are not free.
  pub serve_all-Holds :
      (ks : List Call) (c : Client P) → Holds L n c → Holds L n (serve_all P cmd_invalid c ks)
  unfolding serve_all
  serve_all-Holds [] c h = h
  serve_all-Holds (k ∷ ks) c h = serve_all-Holds ks (serve P cmd_invalid c k) (serve-Holds c k h)

  setup-Holds : (l : LinkList P) → IsWellFormed L l → IsFresh L n l → Holds L n ([], l)
  setup-Holds l w f = record {
    size = f.size;
    wf = w;
    distinct = tt;
    in_array = tt;
    split = f.whole;
    count = (let c = f.count in omega arith);
  }

  pub setup-eq-some : (l : LinkList P) → setup P true n ≡ some l → IsWellFormed L l × IsFresh L n l
  unfolding setup
  setup-eq-some l e =
      let (k, done, w, f) = setup_lem L n (λ z. some-ne-none l (sym e ∙ refused z)) in
      let same : k ≡ l = some-injective _ _ (sym done ∙ e) in
      (subst (IsWellFormed L) same w, subst (IsFresh L n) same f)
    where
      refused : P.setup n ≡ none → setup P true n ≡ none
      refused z = rw (z, setup) refl

  Holds-capacity :
      (c : Client P)
      → Holds L n c
      → (length c.0 ≤ n)
        × ((open_link P cmd_invalid c.1 ≡ none) ↔ (length c.0 ≡ n))
        × ((p : ℕ) → (elem p c.0 ≡ false) ⊎ (close_link P c.1 p ≢ none))
  Holds-capacity (held, l) h = (
    (let c = h.count in omega arith),
    (full, refused),
    λ p. elim (Bool-cases (elem p held)) [ inl m ↦ inr (closes_held p m) | inr m ↦ inl m ],
  )
    where
      closes_held : (p : ℕ) → elem p held ≡ true → close_link P l p ≢ none
      closes_held p m e =
          let lt : p < n = elem_of_Below n p held h.in_array m in
          let (_, done, _, _, _, _) =
            close_lem L l p h.wf (let s = h.size in omega arith) (ground (arith, h.split p lt)) in
          some-ne-none _ (sym done ∙ e)

      full : open_link P cmd_invalid l ≡ none → length held ≡ n
      full e = elim (open_lem L cmd_invalid l h.wf) [
        | inl (empty, _) ↦ (let c = h.count in omega (arith, ap length empty))
        | inr (p, l', done, _) ↦ absurd (some-ne-none _ (sym done ∙ e))
      ]

      refused : length held ≡ n → open_link P cmd_invalid l ≡ none
      refused e = elim (open_lem L cmd_invalid l h.wf) [
        | inl (_, r) ↦ r
        | inr (p, l', _, o) ↦ (let c = h.count in absurd (omega (arith, ap length o.taken)))
      ]

  -- With a list that `setup` made for `n` links, after any history of opening and closing, the next
  -- `open_link` fails exactly when `n` links are held, and closing a held link succeeds.
  pub capacity :
      (ks : List Call) (l : LinkList P)
      → setup P true n ≡ some l
      → let (held, l') = serve_all P cmd_invalid ([], l) ks in
        (length held ≤ n)
        × ((open_link P cmd_invalid l' ≡ none) ↔ (length held ≡ n))
        × ((p : ℕ) → (elem p held ≡ false) ⊎ (close_link P l' p ≢ none))
  capacity ks l e =
      let (w, f) = setup-eq-some l e in
      Holds-capacity _ (serve_all-Holds ks ([], l) (setup-Holds l w f))
