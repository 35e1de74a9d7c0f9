-- ===== src/Token/Emission/Day.antt =====
-- The awards of one day, by repeated calls of `calculate_bounty_award`: the caller carries the
-- points and the tokens of the day from one call to the next.
use amos_platform.Prelude.{ℕ, ◌+◌, ◌≤◌, ◌≡◌, refl, List, [], ◌∷◌, sum_by, arith}
use amos_platform.Error.{Result, ok, err}
use amos_platform.Token.Emission.{ContributionType, BountyAward, calculate_bounty_award}
use amos_platform.Token.Emission.Award.{award-IsFair}

pub record Ledger : Type 0 where
  pub points : ℕ
  pub distributed : ℕ
  pub paid : List BountyAward

abbrev settle : Ledger → Result BountyAward → Ledger
settle l (ok a) = record {
  points = a.total_points_today;
  distributed = l.distributed + a.total_tokens;
  paid = a ∷ l.paid;
}
settle l (err _) = l

-- One bounty; a refused one leaves the day as it was.
pub award_one : ℕ → ℕ × ContributionType → Ledger → Ledger
award_one emission (raw, t) l =
    settle l (calculate_bounty_award raw t l.points emission l.distributed)

pub award_all : ℕ → List (ℕ × ContributionType) → Ledger → Ledger
award_all emission [] l = l
award_all emission (b ∷ bounties) l = award_all emission bounties (award_one emission b l)

abbrev tokens_of : BountyAward → ℕ
tokens_of a = a.contributor_tokens + a.reviewer_tokens

abbrev adjusted_of : BountyAward → ℕ
adjusted_of a = a.adjusted_points

-- The day's counters are those of the awards that were paid.
pub record IsBooked (emission : ℕ) (l : Ledger) : Type 0 where
  pub tokens : l.distributed ≡ sum_by tokens_of l.paid
  pub counted : l.points ≡ sum_by adjusted_of l.paid
  pub within : l.distributed ≤ emission

settle-IsBooked :
    (emission raw : ℕ) (t : ContributionType) (l : Ledger) (r : Result BountyAward)
    → calculate_bounty_award raw t l.points emission l.distributed ≡ r
    → IsBooked emission l
    → IsBooked emission (settle l r)
settle-IsBooked emission raw t l (err _) e h = h
settle-IsBooked emission raw t l (ok a) e h =
    ground (arith, award-IsFair raw l.points emission l.distributed t a e)

award_one-IsBooked :
    (emission : ℕ) (b : ℕ × ContributionType) (l : Ledger)
    → IsBooked emission l
    → IsBooked emission (award_one emission b l)
unfolding award_one
award_one-IsBooked emission (raw, t) l h =
    settle-IsBooked emission raw t l (calculate_bounty_award raw t l.points emission l.distributed)
      refl h

-- Over any bounties of a day: contributors and reviewers together are paid what is counted as
-- distributed, never more than the day's emission, and the points are those of the paid awards.
pub award_all-IsBooked :
    (emission : ℕ) (bounties : List (ℕ × ContributionType)) (l : Ledger)
    → IsBooked emission l
    → IsBooked emission (award_all emission bounties l)
unfolding award_all
award_all-IsBooked emission [] l h = h
award_all-IsBooked emission (b ∷ bounties) l h =
    award_all-IsBooked emission bounties (award_one emission b l)
      (award_one-IsBooked emission b l h)
