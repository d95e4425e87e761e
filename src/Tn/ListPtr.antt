-- ===== src/Tn/ListPtr.antt =====
-- `tn_list_ptr_t` of `tn/list_ptr.h`: a list of pointers that grows and shrinks at its back.
-- A pointer is the index of what it points at. A call that returns nonzero gives `none`, and
-- the list stays as it was.
use serverlynx.Prelude.{ℕ, ◌≤◌, ◌<◌, ◌≡◌, ◌≢◌, List, [], ◌∷◌, Option, none, some, length}

pub record ListPtr : Type 1 where
  pub Carrier : Type 0
  -- A structure that `memset` has zeroed and no setup has touched.
  pub zeroed : Carrier
  pub setup : ℕ → Option Carrier
  pub push_back : Carrier → ℕ → Option Carrier
  pub pop_back : Carrier → Option (ℕ × Carrier)
  pub clear : Carrier → Carrier

-- What the program relies on: a list is its items, the back first, and it has room for at least
-- as many as it was set up for.
pub record IsListPtr (P : ListPtr) : Type 0 where
  pub items : P.Carrier → List ℕ
  pub reserved : P.Carrier → ℕ
  pub items-setup : (n : ℕ) (l : P.Carrier) → P.setup n ≡ some l → (items l ≡ []) × (n ≤ reserved l)
  pub items-push_back :
      (l l' : P.Carrier) (p : ℕ)
      → P.push_back l p ≡ some l'
      → (items l' ≡ p ∷ items l) × (reserved l ≤ reserved l')
  pub push_back_room :
      (l : P.Carrier) (p : ℕ) → length (items l) < reserved l → P.push_back l p ≢ none
  pub items-pop_back :
      (l l' : P.Carrier) (p : ℕ)
      → P.pop_back l ≡ some (p, l')
      → (items l ≡ p ∷ items l') × (reserved l ≤ reserved l')
  pub pop_back_empty : (l : P.Carrier) → P.pop_back l ≡ none → items l ≡ []
  pub items-clear : (l : P.Carrier) → (items (P.clear l) ≡ []) × (reserved l ≤ reserved (P.clear l))
