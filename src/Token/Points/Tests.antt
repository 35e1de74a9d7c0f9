-- ===== src/Token/Points/Tests.antt =====
-- The points of amos-core/src/token/points.rs at concrete contributors, and the theorems at them.
use amos_platform.Prelude.{ℕ, ◌≤◌, ◌≡◌, refl, none, List, [], ◌∷◌, map, pos, arith}
use amos_platform.Error.{ok}
use amos_platform.Token.Points.{
  PointActivity, PointEntry, ContributorPoints, DailyPointsSnapshot, new_snapshot,
  calculate_daily_rewards, reward_entries, calculate_token_reward,
}
use amos_platform.Token.Points.Rewards.{holder, snapshot_rewards_within}

abbrev entry : PointEntry
entry = record {
  activity = PointActivity.active_month;
  points = 2;
  timestamp = pos 7;
  reference_id = none;
}

abbrev contributor : ℕ → ℕ → ContributorPoints
contributor id points = record {
  contributor_id = id;
  total_points = points;
  entries =
      record {
        activity = PointActivity.bounty_completion points;
        points = points;
        timestamp = pos 1;
        reference_id = none;
      }
      ∷ [];
  period_start = pos 0;
  period_end = pos 86400;
}

abbrev activities : List PointActivity
activities =
    PointActivity.email_invitation ∷ PointActivity.active_month ∷ PointActivity.email_invitation
    ∷ []

abbrev contributors : List ContributorPoints
contributors = contributor 1 500 ∷ contributor 4 0 ∷ contributor 2 300 ∷ contributor 3 200 ∷ []

paid_out :
    calculate_daily_rewards (new_snapshot 0 contributors) 10000
    ≡ ok ((1, 5000) ∷ (2, 3000) ∷ (3, 2000) ∷ [])
unfolding calculate_daily_rewards new_snapshot reward_entries calculate_token_reward
paid_out = refl

snapshot_rewards_within_example :
    (map holder ((1, 5000) ∷ (2, 3000) ∷ (3, 2000) ∷ []) ≡ 1 ∷ 2 ∷ 3 ∷ []) × (10000 ≤ 10000)
snapshot_rewards_within_example =
    snapshot_rewards_within 0 10000 contributors ((1, 5000) ∷ (2, 3000) ∷ (3, 2000) ∷ [])
      (omega arith) paid_out

abbrev snapshot : DailyPointsSnapshot
snapshot = record {
  day_index = 0;
  total_points = 10;
  contributor_count = 1;
  entries = (1, 10) ∷ [];
}
