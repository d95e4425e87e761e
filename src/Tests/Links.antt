-- ===== src/Tests/Links.antt =====
-- The theorems on the list of links, on a list of three.
use mathlib.Core.Option.{some-ne-none}
use serverlynx.Prelude.{false, ℕ, ◌≤◌, ◌≡◌, ◌≢◌, refl, ◌⊎◌, ◌↔◌, none, [], ◌∷◌, arith, length, elem}
use serverlynx.Link.List.{LinkList, open_link, close_link}
use serverlynx.Link.List.Invariant.{setup_lem}
use serverlynx.Link.List.Held.{opens, closes, Holds, serve_all, capacity}
use serverlynx.Tests.Lists.{pointers, pointers-IsListPtr}
use serverlynx.Tests.Sample.{three_links, three_links-IsWellFormed}

abbrev setup_3 : LinkList pointers
setup_3 = (setup_lem pointers-IsListPtr 3 (some-ne-none _)).0

capacity_example :
    let (held, l) = serve_all pointers 99 ([], setup_3) (opens ∷ opens ∷ closes 1 ∷ []) in
    (length held ≤ 3)
    × ((open_link pointers 99 l ≡ none) ↔ (length held ≡ 3))
    × ((p : ℕ) → (elem p held ≡ false) ⊎ (close_link pointers l p ≢ none))
capacity_example =
    capacity pointers-IsListPtr 99 3 (opens ∷ opens ∷ closes 1 ∷ []) setup_3
      (setup_lem pointers-IsListPtr 3 (some-ne-none _)).1

three_links-Holds : Holds pointers-IsListPtr 3 (1 ∷ [], three_links)
three_links-Holds = record {
  size = refl;
  wf = three_links-IsWellFormed;
  distinct = (refl, tt);
  in_array = (omega arith, tt);
  split = λ i h. ground arith;
  count = refl;
}
