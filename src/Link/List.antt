-- ===== src/Link/List.antt =====
-- `svl_link_list_setup`, `_cleanup`, `_open`, `_close`, `_reset` and `_get` of svlynx/link.c, over
-- the list of pointers `P`. `acquired` says whether `TN_MEM_ACQUIRE` returned memory. `none` is
-- `TN_ERROR` where the list stays as it was, or, from `setup`, where all of it is released again.
pub mod Invariant
pub mod Opening
pub mod Held
use serverlynx.Prelude.{
  ℕ, zero, suc, Bool, true, false, Option, none, some, ltb, leb, if◌then◌else◌, Status, success,
  failure,
}
use serverlynx.Tn.ListPtr.{ListPtr}
use serverlynx.Link.{Link, zero_link, update}

module _ (P : ListPtr) where
  open P use {Carrier}

  pub record LinkList : Type 0 where
    pub client_map : ℕ → Link
    pub clients_max : ℕ
    pub client_list_free : Carrier
    pub client_list_open : Carrier

  -- The loop of `setup` and `reset`: `rounds` more links from index `i` on get their id and are
  -- pushed; it stops at the first push that fails.
  unfoldable pub fill : ℕ → ℕ → (ℕ → Link) → Carrier → Status × (ℕ → Link) × Carrier
  fill zero i m free = (success, m, free)
  fill (suc rounds) i m free =
      let m' = update m i (record (m i) { id = i }) in
      elim (P.push_back free i) [
        | none ↦ (failure, m', free)
        | some free' ↦ fill rounds (suc i) m' free'
      ]

  -- `list->clients_max` is written after the loop.
  setup_filled : ℕ → Status × (ℕ → Link) × Carrier → Option LinkList
  setup_filled n (failure, m, free) = none
  setup_filled n (success, m, free) = some (record {
    client_map = m;
    clients_max = n;
    client_list_free = free;
    client_list_open = P.zeroed;
  })

  unfoldable pub setup : Bool → ℕ → Option LinkList
  unfolding setup_filled
  setup false n = none
  setup true n = elim (P.setup n) [
    | none ↦ none
    | some free ↦ setup_filled n (fill n 0 (λ _. zero_link) free)
  ]

  -- The link that is handed out, and the list without it.
  unfoldable pub open_link : ℕ → LinkList → Option (ℕ × LinkList)
  open_link cmd_invalid l = elim (P.pop_back l.client_list_free) [
    | none ↦ none
    | some (p, free) ↦ some (
      p,
      record l {
        client_list_free = free;
        client_map =
            update l.client_map p
              (record (l.client_map p) { cmd_open_id = cmd_invalid; cmd_close_id = cmd_invalid });
      },
    )
  ]

  unfoldable pub close_link : LinkList → ℕ → Option LinkList
  close_link l p = elim (P.push_back l.client_list_free p) [
    | none ↦ none
    | some free ↦ some (record l { client_list_free = free })
  ]

  -- `memset` of the first `n` links.
  abbrev cleared : ℕ → (ℕ → Link) → ℕ → Link
  cleared n m i = if ltb i n then zero_link else m i

  reset_filled : LinkList → Status × (ℕ → Link) × Carrier → Status × LinkList
  reset_filled l (s, m, free) = (
    s,
    record l {
      client_map = m;
      client_list_free = free;
      client_list_open = P.clear l.client_list_open;
    },
  )

  unfoldable pub reset : LinkList → Status × LinkList
  unfolding reset_filled
  reset l =
      reset_filled l
        (fill l.clients_max 0 (cleared l.clients_max l.client_map) (P.clear l.client_list_free))

  -- The pointer `&list->client_map[client_id]`.
  unfoldable pub get : LinkList → ℕ → Option ℕ
  get l client_id = if leb l.clients_max client_id then none else some client_id

  -- It releases the memory, and returns `TN_ERROR` when it is done.
  unfoldable pub cleanup : LinkList → Status
  cleanup l = failure
