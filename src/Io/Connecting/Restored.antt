-- ===== src/Io/Connecting/Restored.antt =====
-- A link that goes back to the free list before it was connected.
use serverlynx.Prelude.{
  ℕ, Bool-cases, ◌==◌, elem, true, ap, ◌≡◌, refl, sym, ◌∙◌, ◌<◌, ◌⊎◌, inl, inr, ◌∷◌, arith, Below,
  Distinct,
}
use serverlynx.Tn.{Tn, IsTn}
use serverlynx.Link.{LinkState}
use serverlynx.Service.{Service}
use serverlynx.Link.List.{LinkList}
use serverlynx.Link.List.Invariant.{IsWellFormed, free_links}
use serverlynx.Link.List.Opening.{close_lem}
use serverlynx.Io.Connecting.{return_link}
use serverlynx.Io.Connecting.Taken.{Taken}

module _ {T : Tn} (L : IsTn T) where
  -- The free links are as they were, in a list of the same size, and each link is as it was, or is free
  -- and in the state `new`.
  pub record Restored (l l' : LinkList T.list) : Type 0 where
    pub free : free_links L.list l' ≡ free_links L.list l
    pub fine : IsWellFormed L.list l'
    pub size : l'.clients_max ≡ l.clients_max
    pub states :
        (q : ℕ)
        → ((elem q (free_links L.list l') ≡ true) × ((l'.client_map q).state ≡ LinkState.new))
          ⊎ (l'.client_map q ≡ l.client_map q)

  pub refl-Restored : (l : LinkList T.list) → IsWellFormed L.list l → Restored l l
  refl-Restored l w = record { free = refl; fine = w; size = refl; states = λ q. inr refl }

  pub return_link_lem :
      (l : LinkList T.list) (t : Service T) (p h : ℕ) (x : LinkState)
      → IsWellFormed L.list l
      → Taken L l p h x t.link_list
      → x ≡ LinkState.new
      → Restored l (return_link p t).link_list
  unfolding return_link
  return_link_lem l t p h x w k waits =
      let d : Distinct (p ∷ free_links L.list t.link_list) = rw k.taken at w.distinct in
      let b : Below l.clients_max (p ∷ free_links L.list t.link_list) = rw k.taken at w.in_range in
      let below : p < t.link_list.clients_max = (let z = k.size in let y = b.0 in omega arith) in
      let (l', done, free, links, size, fine) = close_lem L.list t.link_list p k.fine below d.0 in
      rw done (record {
        free = free ∙ sym k.taken;
        fine = fine;
        size = size ∙ k.size;
        states = λ q. elim (Bool-cases (p == q)) [
          | inl e ↦
              let same : p ≡ q = ground arith in
              inl (rw free (ground arith), ap (λ m. (m q).state) links ∙ rw same at k.state ∙ waits)
          | inr e ↦ inr (ap (λ m. m q) links ∙ k.others q (ground arith))
        ];
      })
