-- ===== src/Io/Links.antt =====
-- How the callbacks' writes and releases of links act on the list of links.
use serverlynx.Prelude.{ℕ, ◌≡◌, ◌≢◌, Option, none, some, List, [], ◌∷◌, arith}
use serverlynx.Tn.{Tn, IsTn}
use serverlynx.Link.{Link}
use serverlynx.Link.List.Invariant.{IsWellFormed, free_links}
use serverlynx.Service.{Service}
use serverlynx.Io.{link_at, set_link}

-- The number of a pointer that is not NULL, as a list.
abbrev pub opt : Option ℕ → List ℕ
opt none = []
opt (some b) = b ∷ []

module _ {T : Tn} where
  pub link_at-set_link : (s : Service T) (p : ℕ) (l : Link) → link_at (set_link s p l) p ≡ l
  link_at-set_link s p l = ground arith

  pub link_at-set_link_ne :
      (s : Service T) (p q : ℕ) (l : Link) → p ≢ q → link_at (set_link s p l) q ≡ link_at s q
  link_at-set_link_ne s p q l h = ground arith

module _ {T : Tn} (L : IsTn T) where
  abbrev pub LinksFine : Service T → Type 0
  LinksFine s = IsWellFormed L.list s.link_list

  abbrev pub free_of : Service T → List ℕ
  free_of s = free_links L.list s.link_list

  -- A write that keeps the id keeps the list well formed.
  pub set_link-LinksFine :
      (s : Service T) (p : ℕ) (l : Link)
      → l.id ≡ (link_at s p).id
      → LinksFine s
      → LinksFine (set_link s p l)
  set_link-LinksFine s p l e w = record {
    ids = λ i h. ground (arith, w.ids i);
    in_range = w.in_range;
    distinct = w.distinct;
    room = w.room;
  }
