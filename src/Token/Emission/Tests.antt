-- ===== src/Token/Emission/Tests.antt =====
-- The awards of amos-core/src/token/emission.rs at concrete bounties, and the theorems at them.
use amos_platform.Prelude.{ℕ, ◌≡◌, refl, List, [], ◌∷◌, arith}
use amos_platform.Error.{ok}
use amos_platform.Token.Emission.{
  ContributionType, BountyAward, calculate_bounty_award, counted_points, share_of_pool,
  reviewer_share, multiplier_bps,
}
use amos_platform.Token.Emission.Award.{IsFair, award-IsFair}
use amos_platform.Token.Emission.Day.{Ledger, IsBooked, award_all, award_all-IsBooked}

abbrev first_award : BountyAward
first_award = record {
  raw_points = 100;
  adjusted_points = 100;
  total_points_today = 100;
  daily_emission = 16000;
  contributor_tokens = 15200;
  reviewer_tokens = 800;
  total_tokens = 16000;
}

first_is_paid : calculate_bounty_award 100 ContributionType.feature 0 16000 0 ≡ ok first_award
unfolding calculate_bounty_award counted_points share_of_pool reviewer_share multiplier_bps
first_is_paid = refl

award-IsFair_example : IsFair 100 0 16000 0 ContributionType.feature first_award
award-IsFair_example = award-IsFair 100 0 16000 0 ContributionType.feature first_award first_is_paid

abbrev bounties : List (ℕ × ContributionType)
bounties =
    (100, ContributionType.feature)
    ∷ (0, ContributionType.design)
    ∷ (7, ContributionType.support)
    ∷ []

abbrev morning : Ledger
morning = record { points = 0; distributed = 0; paid = [] }

award_all-IsBooked_example : IsBooked 16000 (award_all 16000 bounties morning)
award_all-IsBooked_example = award_all-IsBooked 16000 bounties morning (omega arith)
