-- ===== src/Service/Setup/Parts.antt =====
-- The parts of a service in the order of their set-up, and what its loop over the write requests queues.
use serverlynx.Prelude.{
  ℕ, zero, suc, ◌≡◌, sym, ap, ◌∙◌, inl, inr, List, [], ◌∷◌, ◌++◌, Option-cases, success, failure,
  take, drop, ◌-◌,
}
use mathlib.Core.List.{append_assoc, append-nil}
use serverlynx.Tn.Queue.{QueueOps, IsQueue}
use serverlynx.Service.Setup.{
  Part, priv_memory, link_array, read_pool, write_pool, command_list, event_list, update_array,
  request_array, free_queue, ready_queue, push_requests,
}

-- Everything that a service holds, the last part first.
abbrev pub whole : List Part
whole =
    ready_queue ∷ free_queue ∷ request_array ∷ update_array ∷ event_list ∷ command_list ∷ write_pool
    ∷ read_pool ∷ link_array ∷ priv_memory ∷ []

-- The numbers from `i` on, `n` of them.
abbrev pub range : ℕ → ℕ → List ℕ
range i zero = []
range i (suc n) = i ∷ range (suc i) n

module _ {Q : QueueOps} (L : IsQueue Q) where
  pub push_requests_lem :
      (rounds i : ℕ) (q q' : Q.Carrier)
      → push_requests Q rounds i q ≡ (success, q')
      → L.items q' ≡ L.items q ++ range i rounds
  unfolding push_requests
  push_requests_lem zero i q q' e = ap L.items (sym (ap (λ r. r.1) e)) ∙ sym (append-nil _)
  push_requests_lem (suc rounds) i q q' e = elim (Option-cases (Q.push q i)) [
    | inl n ↦ let h = rw (n, push_requests) at e in absurd (no (ap (λ r. r.0) h))
    | inr (r, n) ↦
        let (pushed, _) = L.items-push q r i n in
        let rest = push_requests_lem rounds (suc i) r q' (rw (n, push_requests) at e) in
        rest ∙ ap (λ l. l ++ range (suc i) rounds) pushed ∙ append_assoc (L.items q) (i ∷ []) _
  ]
    where
      no : failure ≡ success → ⊥
      no h = cc

-- All parts but the first `n` that are acquired.
abbrev pub took : ℕ → List Part
took n = take (10 - n) whole

-- The first `n`.
abbrev pub had : ℕ → List Part
had n = drop (10 - n) whole
