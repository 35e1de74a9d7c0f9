-- ===== src/Token/Economics.antt =====
-- The constants of amos-core/src/token/economics.rs, in basis points, tokens and days.
use amos_platform.Prelude.{ℕ, List, [], ◌∷◌}

abbrev pub bps_denominator : ℕ
bps_denominator = 10000

abbrev pub total_supply : ℕ
total_supply = 100000000

abbrev pub treasury_allocation : ℕ
treasury_allocation = 95000000

abbrev pub reserve_allocation : ℕ
reserve_allocation = 5000000

abbrev pub protocol_fee_bps : ℕ
protocol_fee_bps = 300

abbrev pub fee_holder_share_bps : ℕ
fee_holder_share_bps = 5000

abbrev pub fee_burn_share_bps : ℕ
fee_burn_share_bps = 4000

abbrev pub fee_labs_share_bps : ℕ
fee_labs_share_bps = 1000

abbrev pub base_decay_rate_bps : ℕ
base_decay_rate_bps = 1000

abbrev pub min_decay_rate_bps : ℕ
min_decay_rate_bps = 200

abbrev pub max_decay_rate_bps : ℕ
max_decay_rate_bps = 2500

abbrev pub default_decay_rate_bps : ℕ
default_decay_rate_bps = 500

abbrev pub decay_profit_multiplier_bps : ℕ
decay_profit_multiplier_bps = 500

abbrev pub inactivity_grace_period_days : ℕ
inactivity_grace_period_days = 90

abbrev pub new_stake_grace_period_days : ℕ
new_stake_grace_period_days = 365

abbrev pub decay_floor_bps : ℕ
decay_floor_bps = 1000

abbrev pub decay_burn_portion_bps : ℕ
decay_burn_portion_bps = 1000

abbrev pub tenure_floor_year_0_bps : ℕ
tenure_floor_year_0_bps = 500

abbrev pub tenure_floor_year_1_bps : ℕ
tenure_floor_year_1_bps = 1000

abbrev pub tenure_floor_year_2_bps : ℕ
tenure_floor_year_2_bps = 1500

abbrev pub tenure_floor_year_5_bps : ℕ
tenure_floor_year_5_bps = 2500

abbrev pub tenure_reduction_year_0_bps : ℕ
tenure_reduction_year_0_bps = 0

abbrev pub tenure_reduction_year_1_bps : ℕ
tenure_reduction_year_1_bps = 2000

abbrev pub tenure_reduction_year_2_bps : ℕ
tenure_reduction_year_2_bps = 4000

abbrev pub tenure_reduction_year_5_bps : ℕ
tenure_reduction_year_5_bps = 7000

abbrev pub vault_bronze_reduction_bps : ℕ
vault_bronze_reduction_bps = 2000

abbrev pub vault_silver_reduction_bps : ℕ
vault_silver_reduction_bps = 5000

abbrev pub vault_gold_reduction_bps : ℕ
vault_gold_reduction_bps = 8000

abbrev pub vault_permanent_reduction_bps : ℕ
vault_permanent_reduction_bps = 9500

abbrev pub emission_ceiling : ℕ
emission_ceiling = 16000

abbrev pub emission_floor : ℕ
emission_floor = 100

abbrev pub emission_midpoint_days : ℕ
emission_midpoint_days = 1460

abbrev pub emission_k_scaled : ℕ
emission_k_scaled = 50

abbrev pub min_stake_amount : ℕ
min_stake_amount = 100

abbrev pub min_stake_days : ℕ
min_stake_days = 30

abbrev pub min_quality_score : ℕ
min_quality_score = 30

abbrev pub max_bounty_points : ℕ
max_bounty_points = 2000

abbrev pub max_daily_bounties_per_operator : ℕ
max_daily_bounties_per_operator = 50

abbrev pub reviewer_reward_bps : ℕ
reviewer_reward_bps = 500

abbrev pub multiplier_bug_fix_bps : ℕ
multiplier_bug_fix_bps = 12000

abbrev pub multiplier_feature_bps : ℕ
multiplier_feature_bps = 10000

abbrev pub multiplier_docs_bps : ℕ
multiplier_docs_bps = 8000

abbrev pub multiplier_content_bps : ℕ
multiplier_content_bps = 9000

abbrev pub multiplier_support_bps : ℕ
multiplier_support_bps = 7000

abbrev pub multiplier_testing_bps : ℕ
multiplier_testing_bps = 11000

abbrev pub multiplier_design_bps : ℕ
multiplier_design_bps = 10000

abbrev pub multiplier_infra_bps : ℕ
multiplier_infra_bps = 13000

abbrev pub multiplier_bug_report_bps : ℕ
multiplier_bug_report_bps = 10000

abbrev pub multiplier_referral_bps : ℕ
multiplier_referral_bps = 6000

abbrev pub multiplier_signup_bps : ℕ
multiplier_signup_bps = 4000

abbrev pub sigmoid_growth_ceiling_bps : ℕ
sigmoid_growth_ceiling_bps = 2000

abbrev pub sigmoid_growth_floor_bps : ℕ
sigmoid_growth_floor_bps = 300

abbrev pub sigmoid_midpoint_days : ℕ
sigmoid_midpoint_days = 540

abbrev pub sigmoid_k_scaled : ℕ
sigmoid_k_scaled = 100

abbrev pub default_claim_timeout_hours : ℕ
default_claim_timeout_hours = 72

abbrev pub min_claim_timeout_hours : ℕ
min_claim_timeout_hours = 1

abbrev pub max_claim_timeout_hours : ℕ
max_claim_timeout_hours = 720

abbrev pub max_concurrent_claims : List ℕ
max_concurrent_claims = 3 ∷ 5 ∷ 8 ∷ 12 ∷ 20 ∷ []

abbrev pub dispute_window_hours : ℕ
dispute_window_hours = 48

abbrev pub dispute_stake_bps : ℕ
dispute_stake_bps = 500

abbrev pub dispute_resolution_timeout_hours : ℕ
dispute_resolution_timeout_hours = 168

abbrev pub max_contribution_types : ℕ
max_contribution_types = 16

abbrev pub registry_auto_freeze_seconds : ℕ
registry_auto_freeze_seconds = 94608000

abbrev pub registry_max_extensions : ℕ
registry_max_extensions = 2

abbrev pub registry_extension_duration_seconds : ℕ
registry_extension_duration_seconds = 31536000
