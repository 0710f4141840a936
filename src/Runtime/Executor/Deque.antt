-- ===== src/Runtime/Executor/Deque.antt =====
-- The work queues of the crate crossbeam: `Worker` (first in, first out), `Injector` and `Stealer`.
use morpheus.Prelude.{◌≡◌, Option, none, some, List, [], ◌∷◌, ◌++◌}

-- What a removal from a queue may answer: nothing, or the oldest task and the rest.
abbrev pub Taken {ℓ κ} : {R : Type ℓ} {Q : Type κ} → (Q → List R) → Q → Option R → Q → Type ℓ
Taken to_list q none q' = to_list q' ≡ to_list q
Taken to_list q (some r) q' = to_list q ≡ r ∷ to_list q'

pub record Deque (R : Type 0) : Type 1 where
  pub Queue : Type 0
  pub empty : Queue
  pub to_list : Queue → List R
  pub push : Queue → R → Queue
  pub pop : Queue → Option R × Queue
  -- `steal().success()`: a steal that has to be retried answers `none` on a queue with tasks.
  pub steal : Queue → Option R × Queue
  pub to_list-empty : to_list empty ≡ []
  pub to_list-push : (q : Queue) (r : R) → to_list (push q r) ≡ to_list q ++ r ∷ []
  pub pop-nil : (q : Queue) → to_list q ≡ [] → (pop q).0 ≡ none
  pub pop-cons : (q : Queue) (r : R) (rs : List R) → to_list q ≡ r ∷ rs → (pop q).0 ≡ some r
  pub pop-Taken : (q : Queue) → Taken to_list q (pop q).0 (pop q).1
  pub steal-Taken : (q : Queue) → Taken to_list q (steal q).0 (steal q).1
