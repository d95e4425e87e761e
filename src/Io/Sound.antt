-- ===== src/Io/Sound.antt =====
-- The invariant of the list of links that all callbacks rely on: which links can be free.
use serverlynx.Prelude.{
  ℕ, ◌<◌, ◌≡◌, sym, ap, ◌∙◌, ◌⊎◌, inl, inr, true, false, some, ◌∷◌, elem, arith, ◌==◌, Bool-cases,
  Distinct,
}
use serverlynx.Tn.{Tn, IsTn}
use serverlynx.Link.{Link, LinkState, opened, closing, closed}
use serverlynx.Link.List.{LinkList}
use serverlynx.Link.List.Invariant.{IsWellFormed, free_links}
use serverlynx.Service.{Service}
use serverlynx.Io.{link_at, set_link}
use serverlynx.Io.Links.{set_link-LinksFine}
use serverlynx.Io.Connecting.Taken.{Taken}
use serverlynx.Io.Connecting.Restored.{Restored}

-- The states of a link that can be free, and of one that has a connection.
abbrev pub IsIdle : LinkState → Type 0
IsIdle x = (x ≡ LinkState.new) ⊎ (x ≡ closed)

abbrev pub IsBusy : LinkState → Type 0
IsBusy x = (x ≡ opened) ⊎ (x ≡ closing)

idle_not-IsBusy : (x : LinkState) → IsIdle x → ¬ IsBusy x
idle_not-IsBusy x i b = ground arith

module _ {T : Tn} (L : IsTn T) where
  -- The list is well formed, a free link is in the state `new` or closed, and a link that is not free
  -- has a handle.
  pub record IsSound (l : LinkList T.list) : Type 0 where
    pub fine : IsWellFormed L.list l
    pub idle : (p : ℕ) → elem p (free_links L.list l) ≡ true → IsIdle (l.client_map p).state
    pub handled :
        (p : ℕ)
        → p < l.clients_max
        → elem p (free_links L.list l) ≡ false
        → (h : ℕ) × ((l.client_map p).priv ≡ some h)

  -- A link that has a connection is not free.
  pub busy_not_free :
      (l : LinkList T.list) (p : ℕ)
      → IsSound l
      → IsBusy (l.client_map p).state
      → elem p (free_links L.list l) ≡ false
  busy_not_free l p i b = elim (Bool-cases (elem p (free_links L.list l))) [
    | inl e ↦ absurd (idle_not-IsBusy _ (i.idle p e) b)
    | inr e ↦ e
  ]

  -- A write that keeps the id and the handle, and whose state suits a free link if the link is free.
  pub set_link-IsSound :
      (s : Service T) (p : ℕ) (k : Link)
      → k.id ≡ (link_at s p).id
      → k.priv ≡ (link_at s p).priv
      → (elem p (free_links L.list s.link_list) ≡ true → IsIdle k.state)
      → IsSound s.link_list
      → IsSound (set_link s p k).link_list
  set_link-IsSound s p k same_id same_handle suits i = record {
    fine = set_link-LinksFine L s p k same_id i.fine;
    idle = λ q e. elim (Bool-cases (p == q)) [
      | inl c ↦ let same : p ≡ q = ground arith in rw c (suits (rw (sym same) at e))
      | inr c ↦ rw c (i.idle q e)
    ];
    handled = λ q b e. elim (Bool-cases (p == q)) [
      | inl c ↦
          let same : p ≡ q = ground arith in
          let (h, f) = i.handled q b e in
          rw c (h, same_handle ∙ ap (λ j. (link_at s j).priv) same ∙ f)
      | inr c ↦ rw c (i.handled q b e)
    ];
  }

  -- A write that keeps the state too.
  pub same_state-IsSound :
      (s : Service T) (p : ℕ) (k : Link)
      → k.id ≡ (link_at s p).id
      → k.priv ≡ (link_at s p).priv
      → k.state ≡ (link_at s p).state
      → IsSound s.link_list
      → IsSound (set_link s p k).link_list
  same_state-IsSound s p k a b c i = set_link-IsSound s p k a b (λ e. rw c (i.idle p e)) i

  -- A write to a link that has a connection.
  pub busy-IsSound :
      (s : Service T) (p : ℕ) (k : Link)
      → k.id ≡ (link_at s p).id
      → k.priv ≡ (link_at s p).priv
      → IsBusy (link_at s p).state
      → IsSound s.link_list
      → IsSound (set_link s p k).link_list
  busy-IsSound s p k a b busy i =
      let out = busy_not_free s.link_list p i busy in
      set_link-IsSound s p k a b (λ e. absurd (ground arith)) i

  -- A free link that is taken gets a handle.
  pub Taken-IsSound :
      (l l' : LinkList T.list) (p h : ℕ) (x : LinkState)
      → IsSound l
      → Taken L l p h x l'
      → IsSound l'
  Taken-IsSound l l' p h x i k =
      let d : Distinct (p ∷ free_links L.list l') = rw k.taken at i.fine.distinct in
      record {
        fine = k.fine;
        idle = λ q e. elim (Bool-cases (p == q)) [
          | inl c ↦ absurd (ground arith)
          | inr c ↦ rw (k.others q (ground arith)) (i.idle q (rw k.taken (ground arith)))
        ];
        handled = λ q b e. elim (Bool-cases (p == q)) [
          | inl c ↦ let same : p ≡ q = ground arith in (h, rw same at k.handle)
          | inr c ↦
              rw (k.others q (ground arith))
                (i.handled q (let z = k.size in omega arith) (rw k.taken (ground arith)))
        ];
      }

  -- A link that goes back to the free ones.
  pub freed-IsSound :
      (l l' : LinkList T.list) (p : ℕ)
      → IsSound l
      → IsWellFormed L.list l'
      → free_links L.list l' ≡ p ∷ free_links L.list l
      → l'.client_map ≡ l.client_map
      → l'.clients_max ≡ l.clients_max
      → IsIdle (l.client_map p).state
      → IsSound l'
  freed-IsSound l l' p i w free links size x = record {
    fine = w;
    idle = λ q e. rw links (
        let f : elem q (p ∷ free_links L.list l) ≡ true = rw free at e in
        elim (Bool-cases (p == q)) [
          | inl c ↦ let same : p ≡ q = ground arith in rw same at x
          | inr c ↦ i.idle q (ground arith)
        ]);
    handled = λ q b e. rw links (
        let f : elem q (p ∷ free_links L.list l) ≡ false = rw free at e in
        i.handled q (omega (arith, size)) (ground arith));
  }

  -- The list after an open command that has no connection.
  pub Restored-IsSound : (l l' : LinkList T.list) → IsSound l → Restored L l l' → IsSound l'
  Restored-IsSound l l' i r = record {
    fine = r.fine;
    idle =
        λ q e. elim (r.states q) [ inl (_, n) ↦ inl n | inr n ↦ rw n (i.idle q (rw r.free at e)) ];
    handled = λ q b e. elim (r.states q) [
      | inl (f, _) ↦ absurd (ground arith)
      | inr n ↦ rw n (i.handled q (let z = r.size in omega arith) (rw r.free at e))
    ];
  }
