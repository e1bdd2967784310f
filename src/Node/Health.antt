-- ===== src/Node/Health.antt =====
-- `learning_health` of runtime/ntl-core/src/node.rs: what is shown of the routing model.
use ntl.Base.{ℕ, [], ◌∷◌, Bool, true, false, not, none, List, filter, length}
use ntl.Float.{Float}
use ntl.Store.{Outcome, delivered, is_resolved, JournalEntry}
use ntl.Node.{Node, NodeState, NodeError, reading}
use ntl.Node.Monad.{Act, pure, and_then}

pub record LearningHealth (F : Type 0) : Type 0 where
  pub decisions_sampled : ℕ
  pub exploration_ratio : F
  pub pending_ratio : F
  pub delivery_ratio : F

-- `e.outcome == Outcome::Delivered`
unfoldable pub is_delivered : Outcome → Bool
is_delivered delivered = true
is_delivered _ = false

module _ {F : Type 0} ⦃fl : Float F⦄ where
  unfoldable pub ratio : List (JournalEntry F) → (JournalEntry F → Bool) → F
  ratio recent p = fl.div (fl.of_nat (length (filter p recent))) (fl.of_nat (length recent))

  unfoldable pub health_of : List (JournalEntry F) → LearningHealth F
  unfolding is_resolved is_delivered ratio
  health_of [] = record {
    decisions_sampled = 0;
    exploration_ratio = fl.lit 0 1;
    pending_ratio = fl.lit 0 1;
    delivery_ratio = fl.lit 0 1;
  }
  health_of (e ∷ es) = record {
    decisions_sampled = length (e ∷ es);
    exploration_ratio = ratio (e ∷ es) (λ d. d.explored);
    pending_ratio = ratio (e ∷ es) (λ d. not (is_resolved d.outcome));
    delivery_ratio = ratio (e ∷ es) (λ d. is_delivered d.outcome);
  }

module _ {S R F : Type 0} ⦃fl : Float F⦄ (n : Node S R F) where
  unfoldable pub learning_health : ℕ → Act (NodeState S R F) NodeError (LearningHealth F)
  unfolding health_of
  learning_health sample =
      and_then (reading (n.store.recent_decisions none sample)) (λ recent. pure (health_of recent))
