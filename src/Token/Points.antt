-- ===== src/Token/Points.antt =====
-- amos-core/src/token/points.rs: the points that contributors earn, and the split of a day's
-- emission by points.
pub mod Totals
pub mod Rewards
mod Tests
use amos_platform.Prelude.{
  ℕ, zero, suc, ◌*◌, ◌/◌, Bool, Option, List, [], ◌∷◌, ◌++◌, length, ltb, ◌==◌, if◌then◌else◌,
  checked_mul, saturating_add, saturating_mul, ℤ, lit, number, literal, String,
}
use amos_platform.Error.{Result, ok, ◌>>=◌, ◌>>◌, fail_if, ok_or, validation, arithmetic_overflow}

pub data PointActivity : Type 0 where
  email_invitation referral_signup paid_conversion active_month sales_signup : PointActivity
  bounty_completion : ℕ → PointActivity

pub record PointEntry : Type 0 where
  pub activity : PointActivity
  pub points : ℕ
  pub timestamp : ℤ
  pub reference_id : Option String

pub record ContributorPoints : Type 0 where
  pub contributor_id : ℕ
  pub total_points : ℕ
  pub entries : List PointEntry
  pub period_start : ℤ
  pub period_end : ℤ

pub record DailyPointsSnapshot : Type 0 where
  pub day_index : ℕ
  pub total_points : ℕ
  pub contributor_count : ℕ
  pub entries : List (ℕ × ℕ)

pub calculate_points : PointActivity → ℕ
calculate_points PointActivity.email_invitation = 1
calculate_points PointActivity.referral_signup = 5
calculate_points PointActivity.paid_conversion = 10
calculate_points PointActivity.active_month = 2
calculate_points PointActivity.sales_signup = 1
calculate_points (PointActivity.bounty_completion value) = value

pub calculate_referral_points : ℕ → ℕ → ℕ → ℕ → ℕ
calculate_referral_points emails_sent signups conversions active_months =
    saturating_add
      (saturating_add (saturating_add (saturating_mul emails_sent 1) (saturating_mul signups 5))
        (saturating_mul conversions 10))
      (saturating_mul active_months 2)

pub calculate_token_reward : ℕ → ℕ → ℕ → Result ℕ
calculate_token_reward contributor_points total_points daily_emission = do
  fail_if (total_points == 0) (validation (literal "total_points must be greater than zero"))
  numerator ← ok_or (checked_mul contributor_points daily_emission) (
      arithmetic_overflow (
        lit "overflow calculating reward: "
        ∷ number contributor_points
        ∷ lit " * "
        ∷ number daily_emission
        ∷ []))
  ok (numerator / total_points)

-- The loop of `calculate_daily_rewards`: `?` leaves it at the first error.
reward_entries : ℕ → ℕ → List (ℕ × ℕ) → Result (List (ℕ × ℕ))
reward_entries total daily_emission [] = ok []
reward_entries total daily_emission ((contributor_id, points) ∷ entries) = do
  reward ← calculate_token_reward points total daily_emission
  rewards ← reward_entries total daily_emission entries
  ok ((contributor_id, reward) ∷ rewards)

pub calculate_daily_rewards : DailyPointsSnapshot → ℕ → Result (List (ℕ × ℕ))
calculate_daily_rewards snapshot daily_emission = do
  fail_if (snapshot.total_points == 0)
      (validation (literal "snapshot.total_points must be greater than zero"))
  reward_entries snapshot.total_points daily_emission snapshot.entries

-- `PointEntry::new`
pub new_entry : PointActivity → ℤ → Option String → PointEntry
new_entry activity timestamp reference_id = record {
  activity = activity;
  points = calculate_points activity;
  timestamp = timestamp;
  reference_id = reference_id;
}

-- `ContributorPoints::new`
pub new_contributor : ℕ → ℤ → ℤ → ContributorPoints
new_contributor contributor_id period_start period_end = record {
  contributor_id = contributor_id;
  total_points = 0;
  entries = [];
  period_start = period_start;
  period_end = period_end;
}

pub add_entry : ContributorPoints → PointEntry → ContributorPoints
add_entry c entry = record c {
  total_points = saturating_add c.total_points entry.points;
  entries = c.entries ++ entry ∷ [];
}

pub calculate_reward : ContributorPoints → ℕ → ℕ → Result ℕ
calculate_reward c total_points daily_emission =
    calculate_token_reward c.total_points total_points daily_emission

-- The loop of `DailyPointsSnapshot::new`, on its two variables.
collect : List ContributorPoints → List (ℕ × ℕ) → ℕ → List (ℕ × ℕ) × ℕ
collect [] entries total = (entries, total)
collect (c ∷ contributors) entries total =
    if ltb 0 c.total_points
    then collect contributors (entries ++ (c.contributor_id, c.total_points) ∷ [])
        (saturating_add total c.total_points)
    else collect contributors entries total

-- `DailyPointsSnapshot::new`
pub new_snapshot : ℕ → List ContributorPoints → DailyPointsSnapshot
unfolding collect
new_snapshot day_index contributors =
    let (entries, total) = collect contributors [] 0 in
    record {
      day_index = day_index;
      total_points = total;
      contributor_count = length entries;
      entries = entries;
    }

pub is_empty : DailyPointsSnapshot → Bool
is_empty snapshot = snapshot.total_points == 0
