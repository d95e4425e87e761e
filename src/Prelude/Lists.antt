-- ===== src/Prelude/Lists.antt =====
-- Lists of native numbers as sets of indices: membership, distinctness, and the pigeonhole bound.
use Prim.Native.Nat.{ℕ, zero, suc, ◌+◌, ◌≤◌, ◌<◌}
use mathlib.Core.Path.{◌≡◌, refl, ap}
use mathlib.Core.Bool.{Bool, true, false, ◌||◌}
use mathlib.Core.List.{List, [], ◌∷◌, ◌++◌}
use native.Mathlib.Omega.{arith}
use serverlynx.Prelude.Tests.{◌==◌, if◌then◌else◌}

module _ {ℓ} {A : Type ℓ} where
  abbrev pub length : List A → ℕ
  length [] = 0
  length (x ∷ xs) = suc (length xs)

-- `All P xs`: every item has the property.
abbrev pub All {ℓ κ} : {A : Type ℓ} → (A → Type κ) → List A → Type κ
All P [] = Unit
All P (x ∷ xs) = P x × All P xs

abbrev pub elem : ℕ → List ℕ → Bool
elem a [] = false
elem a (x ∷ xs) = x == a || elem a xs

abbrev pub Distinct : List ℕ → Type 0
Distinct [] = Unit
Distinct (x ∷ xs) = (elem x xs ≡ false) × Distinct xs

abbrev pub Below : ℕ → List ℕ → Type 0
Below n [] = Unit
Below n (x ∷ xs) = (x < n) × Below n xs

unfoldable pub remove : ℕ → List ℕ → List ℕ
remove a [] = []
remove a (x ∷ xs) = let rest = remove a xs in if x == a then rest else x ∷ rest

remove_absent : (a : ℕ) (xs : List ℕ) → elem a xs ≡ false → remove a xs ≡ xs
unfolding remove
remove_absent a [] h = refl
remove_absent a (x ∷ xs) h = ground (arith, remove_absent a xs)

length-remove : (a : ℕ) (xs : List ℕ) → Distinct xs → length xs ≤ suc (length (remove a xs))
unfolding remove
length-remove a [] d = omega arith
length-remove a (x ∷ xs) d = ground (arith, length-remove a xs d.1, remove_absent a xs)

elem-remove : (a b : ℕ) (xs : List ℕ) → elem b xs ≡ false → elem b (remove a xs) ≡ false
unfolding remove
elem-remove a b [] h = refl
elem-remove a b (x ∷ xs) h = ground (arith, elem-remove a b xs)

pub remove-Distinct : (a : ℕ) (xs : List ℕ) → Distinct xs → Distinct (remove a xs)
unfolding remove
remove-Distinct a [] d = tt
remove-Distinct a (x ∷ xs) d = ground (arith, remove-Distinct a xs d.1, elem-remove a x xs d.0)

remove-Below : (n : ℕ) (xs : List ℕ) → Below (suc n) xs → Below n (remove n xs)
unfolding remove
remove-Below n [] b = tt
remove-Below n (x ∷ xs) b = ground (arith, remove-Below n xs b.1)

-- Distinct numbers below `n` are at most `n` in number.
pub length-le_of_Distinct : (n : ℕ) (xs : List ℕ) → Distinct xs → Below n xs → length xs ≤ n
length-le_of_Distinct zero [] d b = omega arith
length-le_of_Distinct zero (x ∷ xs) d b = absurd (omega arith)
length-le_of_Distinct (suc n) xs d b = omega (
  arith,
  length-remove n xs d,
  length-le_of_Distinct n (remove n xs) (remove-Distinct n xs d) (remove-Below n xs b),
)

pub elem_of_Below : (n a : ℕ) (xs : List ℕ) → Below n xs → elem a xs ≡ true → a < n
elem_of_Below n a [] b h = cc
elem_of_Below n a (x ∷ xs) b h = ground (arith, elem_of_Below n a xs b.1)

pub Below-elem : (n : ℕ) (xs : List ℕ) → Below n xs → elem n xs ≡ false
Below-elem n [] b = refl
Below-elem n (x ∷ xs) b = ground (arith, Below-elem n xs b.1)

pub Below-mono : (n m : ℕ) (xs : List ℕ) → n ≤ m → Below n xs → Below m xs
Below-mono n m [] h b = tt
Below-mono n m (x ∷ xs) h b = (omega arith, Below-mono n m xs h b.1)

pub elem-remove_if :
    (a b : ℕ) (xs : List ℕ) → elem b (remove a xs) ≡ (if a == b then false else elem b xs)
unfolding remove
elem-remove_if a b [] = ground arith
elem-remove_if a b (x ∷ xs) = ground (arith, elem-remove_if a b xs)

pub length-remove-elem :
    (a : ℕ) (xs : List ℕ) → Distinct xs → elem a xs ≡ true → length xs ≡ suc (length (remove a xs))
unfolding remove
length-remove-elem a [] d h = cc
length-remove-elem a (x ∷ xs) d h = ground (arith, length-remove-elem a xs d.1, remove_absent a xs)

pub remove-Below_same : (n a : ℕ) (xs : List ℕ) → Below n xs → Below n (remove a xs)
unfolding remove
remove-Below_same n a [] b = tt
remove-Below_same n a (x ∷ xs) b = ground (arith, remove-Below_same n a xs b.1)

-- How often a number stands in a list.
abbrev pub count : ℕ → List ℕ → ℕ
count b [] = 0
count b (x ∷ l) = (if x == b then 1 else 0) + count b l

pub count-append : (b : ℕ) (l k : List ℕ) → count b (l ++ k) ≡ count b l + count b k
count-append b [] k = omega arith
count-append b (x ∷ l) k = let rest = count-append b l k in omega arith

module _ {ℓ} {A : Type ℓ} where
  abbrev pub take : ℕ → List A → List A
  take zero xs = []
  take (suc n) [] = []
  take (suc n) (x ∷ xs) = x ∷ take n xs

  abbrev pub drop : ℕ → List A → List A
  drop zero xs = xs
  drop (suc n) [] = []
  drop (suc n) (x ∷ xs) = drop n xs

  pub length-append : (xs ys : List A) → length (xs ++ ys) ≡ length xs + length ys
  length-append [] ys = omega arith
  length-append (x ∷ xs) ys = omega (arith, length-append xs ys)

  pub take-append : (xs ys : List A) → take (length xs) (xs ++ ys) ≡ xs
  take-append [] ys = refl
  take-append (x ∷ xs) ys = ap (◌∷◌ x) (take-append xs ys)

  pub drop-append : (xs ys : List A) → drop (length xs) (xs ++ ys) ≡ ys
  drop-append [] ys = refl
  drop-append (x ∷ xs) ys = drop-append xs ys
