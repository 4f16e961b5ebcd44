-- ===== src/Queue.antt =====
-- policyQueue of internal/runtime/queue.go: the mutations that wait for the agent.
use rtbh_panel.Common.{
  ℕ, zero, suc, ◌+◌, ◌%◌, ◌^◌, String, Bool, true, false, Option, none, some, List, [], ◌∷◌, ◌++◌,
  str_eq, if◌then◌else◌, ◌≡◌, refl, ap, ◌∙◌, arith, sym,
}
use mathlib.Core.List.{append-nil, append_assoc}
use text.Mathlib.TextEquality.{eq_iff}
use rtbh_panel.Common.Lists.{length}
use rtbh_panel.Policy.{Mutation}
use rtbh_panel.Adapter.{PolicyChange}

-- The channel `notify` holds one signal at most.
pub record PolicyQueue : Type 0 where
  pub pending : List PolicyChange
  pub notify : Bool
  pub next_id : ℕ

abbrev pub new_policy_queue : PolicyQueue
new_policy_queue = record { pending = []; notify = false; next_id = 0 }

-- `dashboard_id` is fmt.Sprintf("dashboard-%d", n)
abbrev pub change_of : (ℕ → String) → ℕ → Mutation → PolicyChange
change_of dashboard_id n m = record {
  id = dashboard_id n;
  idempotency_key = dashboard_id n;
  operation = m.action;
  list = m.list;
  prefix = m.prefix;
  expires_at = m.expires_at;
}

module _ (dashboard_id : ℕ → String) where
  unfoldable pub publish : Mutation → PolicyQueue → PolicyQueue
  publish m q =
      let id = (q.next_id + 1) % 2 ^ 64 in
      record {
        pending = q.pending ++ change_of dashboard_id id m ∷ [];
        notify = true;
        next_id = id;
      }

  -- next, where it does not wait: `none` is a wait for the signal.
  unfoldable pub next : PolicyQueue → Option PolicyChange
  next q = elim q.pending [ [] ↦ none | change ∷ _ ↦ some change ]

  abbrev pub commit_pending : PolicyChange → List PolicyChange → List PolicyChange
  commit_pending change [] = []
  commit_pending change (first ∷ rest) =
      if str_eq first.idempotency_key change.idempotency_key then rest else first ∷ rest

  unfoldable pub commit : PolicyChange → PolicyQueue → PolicyQueue
  commit change q = record q { pending = commit_pending change q.pending }

  unfoldable pub publish_all : List Mutation → PolicyQueue → PolicyQueue
  publish_all [] q = q
  publish_all (m ∷ ms) q = publish_all ms (publish m q)

  -- Taking the next change and committing it, n times; none when the queue runs empty.
  unfoldable pub drain : ℕ → PolicyQueue → List PolicyChange
  drain zero q = []
  drain (suc n) q = elim (next q) [ none ↦ [] | some change ↦ change ∷ drain n (commit change q) ]

  -- The changes of a list of mutations, numbered after n.
  unfoldable pub numbered : ℕ → List Mutation → List PolicyChange
  numbered n [] = []
  numbered n (m ∷ ms) = change_of dashboard_id ((n + 1) % 2 ^ 64) m ∷ numbered ((n + 1) % 2 ^ 64) ms

  publish_all_pending :
      (ms : List Mutation) (q : PolicyQueue)
      → (publish_all ms q).pending ≡ q.pending ++ numbered q.next_id ms
  unfolding publish_all publish numbered
  publish_all_pending [] q = sym (append-nil q.pending)
  publish_all_pending (m ∷ ms) q =
      publish_all_pending ms (publish m q)
      ∙ append_assoc q.pending (change_of dashboard_id ((q.next_id + 1) % 2 ^ 64) m ∷ [])
          (numbered ((q.next_id + 1) % 2 ^ 64) ms)

  drain_pending : (q : PolicyQueue) (l : List PolicyChange) → q.pending ≡ l → drain (length l) q ≡ l
  unfolding drain next commit
  drain_pending q [] e = refl
  drain_pending q (c ∷ l) e =
      let same = (eq_iff c.idempotency_key c.idempotency_key).1 refl in
      ground (arith, drain_pending (record q { pending = l }) l refl)

  length-numbered : (n : ℕ) (ms : List Mutation) → length (numbered n ms) ≡ length ms
  unfolding numbered
  length-numbered n [] = refl
  length-numbered n (m ∷ ms) = ap suc (length-numbered ((n + 1) % 2 ^ 64) ms)

  -- From a new queue, taking and committing one change after another yields the published
  -- mutations in the order of their publication, each once, with consecutive numbers.
  pub drain-publish_all :
      (ms : List Mutation) → drain (length ms) (publish_all ms new_policy_queue) ≡ numbered 0 ms
  drain-publish_all ms =
      ap (λ n. drain n (publish_all ms new_policy_queue)) (sym (length-numbered 0 ms))
      ∙ drain_pending (publish_all ms new_policy_queue) (numbered 0 ms)
          (publish_all_pending ms new_policy_queue)
