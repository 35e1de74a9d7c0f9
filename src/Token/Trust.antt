-- ===== src/Token/Trust.antt =====
-- amos-core/src/token/trust.rs: the trust level of an external agent, and its upgrades.
pub mod Levels
pub mod History
mod Tests
use amos_platform.Prelude.{
  ℕ, zero, suc, ◌+◌, ◌*◌, ◌-◌, min, Bool, true, false, Option, none, some, List, [], ◌∷◌, ltb, leb,
  ◌==◌, if◌then◌else◌, strict_add, strict_mul, checked_div, saturating_sub, lit, number,
}
use amos_platform.Error.{
  Result, ok, err, ◌>>=◌, ◌>>◌, fail_if, already_max_trust, trust_upgrade_not_eligible,
}
use amos_platform.Token.Economics.{bps_denominator}

-- The arrays, read at an index in their range.
trust_level_max_points : ℕ → ℕ
trust_level_max_points zero = 100
trust_level_max_points (suc zero) = 200
trust_level_max_points (suc (suc zero)) = 500
trust_level_max_points (suc (suc (suc zero))) = 1000
trust_level_max_points _ = 2000

trust_level_daily_limits : ℕ → ℕ
trust_level_daily_limits zero = 3
trust_level_daily_limits (suc zero) = 5
trust_level_daily_limits (suc (suc zero)) = 10
trust_level_daily_limits (suc (suc (suc zero))) = 15
trust_level_daily_limits _ = 25

trust_min_completions : ℕ → ℕ
trust_min_completions zero = 3
trust_min_completions (suc zero) = 10
trust_min_completions (suc (suc zero)) = 25
trust_min_completions _ = 50

trust_min_reputation_bps : ℕ → ℕ
trust_min_reputation_bps zero = 5500
trust_min_reputation_bps (suc zero) = 6500
trust_min_reputation_bps (suc (suc zero)) = 7500
trust_min_reputation_bps _ = 8500

abbrev pub max_trust_level : ℕ
max_trust_level = 5

pub record AgentTrust : Type 0 where
  pub agent_id : ℕ
  pub trust_level : ℕ
  pub total_completions : ℕ
  pub total_rejections : ℕ
  pub reputation_bps : ℕ
  pub total_tokens_earned : ℕ

-- `AgentTrust::new`
pub new : ℕ → AgentTrust
new agent_id = record {
  agent_id = agent_id;
  trust_level = 1;
  total_completions = 0;
  total_rejections = 0;
  reputation_bps = 5000;
  total_tokens_earned = 0;
}

pub max_points : AgentTrust → ℕ
unfolding trust_level_max_points
max_points a = trust_level_max_points (min (saturating_sub a.trust_level 1) 4)

pub daily_limit : AgentTrust → ℕ
unfolding trust_level_daily_limits
daily_limit a = trust_level_daily_limits (min (saturating_sub a.trust_level 1) 4)

infixl 5 ◌>>=?◌
abbrev pub ◌>>=?◌ {ℓ κ} : {A : Type ℓ} {B : Type κ} → Option A → (A → Option B) → Option B
none >>=? f = none
some a >>=? f = f a

-- The counters after one outcome.
count_outcome : AgentTrust → Bool → ℕ → Option AgentTrust
count_outcome a true tokens_earned = strict_add a.total_completions 1 >>=? λ completions.
    strict_add a.total_tokens_earned tokens_earned >>=? λ tokens.
    some (record a { total_completions = completions; total_tokens_earned = tokens })
count_outcome a false tokens_earned = strict_add a.total_rejections 1 >>=? λ rejections.
    some (record a { total_rejections = rejections })

abbrev rate : AgentTrust → Option ℕ → AgentTrust
rate a none = a
rate a (some bps) = record a { reputation_bps = bps }

-- `none` is the panic of an overflow: the workspace builds with `overflow-checks`.
pub record_completion : AgentTrust → Bool → ℕ → Option AgentTrust
unfolding count_outcome
record_completion a approved tokens_earned = count_outcome a approved tokens_earned >>=? λ b.
    strict_add b.total_completions b.total_rejections >>=? λ total.
    strict_mul b.total_completions bps_denominator >>=? λ weighted.
    some (rate b (checked_div weighted total))

pub can_upgrade : AgentTrust → Result (Unit {0})
unfolding trust_min_completions trust_min_reputation_bps
can_upgrade a = do
  fail_if (leb max_trust_level a.trust_level) (already_max_trust a.trust_level)
  let idx = min (saturating_sub a.trust_level 1) 3
  let required_completions = trust_min_completions idx
  let required_reputation = trust_min_reputation_bps idx
  fail_if (ltb a.total_completions required_completions) (
      trust_upgrade_not_eligible (
        lit "Need "
        ∷ number required_completions
        ∷ lit " completions, have "
        ∷ number a.total_completions
        ∷ []))
  fail_if (ltb a.reputation_bps required_reputation) (
      trust_upgrade_not_eligible (
        lit "Need "
        ∷ number required_reputation
        ∷ lit " bps reputation, have "
        ∷ number a.reputation_bps
        ∷ []))

abbrev raise : AgentTrust → Result (Unit {0}) → AgentTrust × Result ℕ
raise a (ok _) = (record a { trust_level = a.trust_level + 1 }, ok (a.trust_level + 1))
raise a (err e) = (a, err e)

-- The level is below 5 where it is raised, so the `u8` does not overflow.
pub try_upgrade : AgentTrust → AgentTrust × Result ℕ
try_upgrade a = raise a (can_upgrade a)
