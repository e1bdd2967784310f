-- ===== src/Learning/Config.antt =====
-- The hyperparameters of runtime/ntl-core/src/learning.rs: defaults for each class of deployment, and their
-- validation.
use ntl.Base.{ℕ, Bool, true, not, ◌&&◌, ◌||◌, Result, ok, reject_if}
use ntl.Float.{Float}
use ntl.Learning.{LearningConfig}

pub data DeploymentClass : Type 0 where
  edge_deployment full_node high_traffic : DeploymentClass

pub data LearningError : Type 0 where
  bad_learning_rate bad_half_life bad_min_temperature bad_weights bad_total_outbound
        bad_influence_cap bad_failure_penalty :
      LearningError

module _ {F : Type 0} ⦃fl : Float F⦄ where
  abbrev pub deployment_row : DeploymentClass → F × F × F × F × ℕ × F × F
  deployment_row edge_deployment =
      (fl.lit 5 100, fl.lit 168 1, fl.lit 15 100, fl.lit 2 100, 30, fl.lit 8 1, fl.lit 20 100)
  deployment_row full_node =
      (fl.lit 2 100, fl.lit 72 1, fl.lit 10 100, fl.lit 2 100, 15, fl.lit 32 1, fl.lit 10 100)
  deployment_row high_traffic =
      (fl.lit 1 100, fl.lit 24 1, fl.lit 5 100, fl.lit 1 100, 5, fl.lit 128 1, fl.lit 5 100)

  unfoldable pub for_class : DeploymentClass → LearningConfig F
  for_class class =
      let (rate, half_life, temp, min_temp, window, budget, cap) = deployment_row class in
      record {
        enabled = true;
        learning_rate = rate;
        decay_half_life_hours = half_life;
        exploration_temperature = temp;
        min_temperature = min_temp;
        receipt_window_secs = window;
        min_weight = fl.lit 1 1000;
        max_weight = fl.lit 1 1;
        max_total_outbound_weight = budget;
        influence_cap_per_peer = cap;
        influence_window_secs = 3600;
        signature_failure_penalty = fl.lit 1 2;
        signature_failure_prune_threshold = 5;
        signature_failure_cooldown_secs = 3600;
      }

  -- In the half-open interval from zero to one.
  abbrev pub is_share : F → Bool
  is_share x = fl.lt (fl.lit 0 1) x && fl.le x (fl.lit 1 1)

  unfoldable pub validate : LearningConfig F → Result LearningError (Unit {0})
  validate c = reject_if (not (is_share c.learning_rate)) bad_learning_rate (
      reject_if (fl.le c.decay_half_life_hours (fl.lit 0 1)) bad_half_life (
        reject_if (fl.le c.min_temperature (fl.lit 0 1)) bad_min_temperature (
          reject_if (fl.le c.min_weight (fl.lit 0 1) || fl.le c.max_weight c.min_weight) bad_weights
            (reject_if (fl.le c.max_total_outbound_weight c.max_weight) bad_total_outbound (
              reject_if (fl.le c.influence_cap_per_peer (fl.lit 0 1)) bad_influence_cap (
                reject_if (not (is_share c.signature_failure_penalty)) bad_failure_penalty
                  (ok tt)))))))
