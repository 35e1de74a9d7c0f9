-- ===== src/Token/Points/Totals.antt =====
-- The totals of amos-core/src/token/points.rs are the true sums, cut off at the largest `u64`.
use amos_platform.Prelude.{
  ℕ, ◌+◌, ◌*◌, ◌≤◌, ◌≡◌, refl, min, Bool, List, [], ◌∷◌, ◌++◌, length, map, filter, sum_by,
  sum_by-append, ltb, Option, ℤ, sym, ◌∙◌, saturating_add, Bool-cases, inl, inr, ◌==◌, arith,
  u64_max,
}
use mathlib.Core.List.{append-nil, append_assoc}
use amos_platform.Token.Points.{
  PointActivity, PointEntry, ContributorPoints, calculate_points, calculate_referral_points,
  new_entry, new_contributor, add_entry, collect, new_snapshot, is_empty,
}

-- The saturating chain is the exact formula, cut off.
pub referral_points_exact :
    (emails signups conversions months : ℕ)
    → calculate_referral_points emails signups conversions months
      ≡ min (emails + signups * 5 + conversions * 10 + months * 2) u64_max
unfolding calculate_referral_points
referral_points_exact emails signups conversions months = omega arith

abbrev pub entry_points : PointEntry → ℕ
entry_points e = e.points

-- The running total is the sum of the entries, cut off.
abbrev pub IsTotalled : ContributorPoints → Type 0
IsTotalled c = c.total_points ≡ min (sum_by entry_points c.entries) u64_max

pub add_entry-IsTotalled :
    (c : ContributorPoints) (e : PointEntry) → IsTotalled c → IsTotalled (add_entry c e)
unfolding add_entry
add_entry-IsTotalled c e h = omega (arith, sum_by-append entry_points c.entries (e ∷ []))

-- Activities recorded one after another for a new contributor.
pub record_all : List PointActivity → ContributorPoints → ContributorPoints
record_all [] c = c
record_all (a ∷ activities) c =
    record_all activities (add_entry c (new_entry a (ℤ.pos 0) Option.none))

pub activity_points : List PointActivity → ℕ
activity_points [] = 0
activity_points (a ∷ activities) = calculate_points a + activity_points activities

record_all-total :
    (activities : List PointActivity) (c : ContributorPoints)
    → c.total_points ≤ u64_max
    → (record_all activities c).total_points
      ≡ min (c.total_points + activity_points activities) u64_max
unfolding record_all activity_points add_entry new_entry
record_all-total [] c h = omega arith
record_all-total (a ∷ activities) c h = omega (
  arith,
  record_all-total activities (add_entry c (new_entry a (ℤ.pos 0) Option.none)) (omega arith),
)

-- How often each kind of activity was recorded, and the points of the kinds that the referral
-- formula does not count.
pub record Tally : Type 0 where
  pub emails : ℕ
  pub signups : ℕ
  pub conversions : ℕ
  pub months : ℕ
  pub others : ℕ

abbrev tally_one : PointActivity → Tally → Tally
tally_one PointActivity.email_invitation t = record t { emails = t.emails + 1 }
tally_one PointActivity.referral_signup t = record t { signups = t.signups + 1 }
tally_one PointActivity.paid_conversion t = record t { conversions = t.conversions + 1 }
tally_one PointActivity.active_month t = record t { months = t.months + 1 }
tally_one PointActivity.sales_signup t = record t { others = t.others + 1 }
tally_one (PointActivity.bounty_completion value) t = record t { others = t.others + value }

unfoldable pub tally : List PointActivity → Tally
tally [] = record { emails = 0; signups = 0; conversions = 0; months = 0; others = 0 }
tally (a ∷ activities) = tally_one a (tally activities)

activity_points-tally :
    (activities : List PointActivity)
    → let t = tally activities in
      activity_points activities
      ≡ t.emails + t.signups * 5 + t.conversions * 10 + t.months * 2 + t.others
unfolding activity_points tally calculate_points
activity_points-tally [] = refl
activity_points-tally (a ∷ activities) = ground (arith, activity_points-tally activities)

-- Referral activities, recorded one by one in any order for a new contributor, add up to what the
-- referral formula gives for their counts.
pub record_all-referral_points :
    (activities : List PointActivity) (id : ℕ) (from to : ℤ)
    → (tally activities).others ≡ 0
    → let t = tally activities in
      (record_all activities (new_contributor id from to)).total_points
      ≡ calculate_referral_points t.emails t.signups t.conversions t.months
unfolding new_contributor
record_all-referral_points activities id from to h =
    let t = tally activities in
    omega (
      arith,
      record_all-total activities (new_contributor id from to) (omega arith),
      activity_points-tally activities,
      referral_points_exact t.emails t.signups t.conversions t.months,
    )

abbrev pub has_points : ContributorPoints → Bool
has_points c = ltb 0 c.total_points

abbrev pub id_and_points : ContributorPoints → ℕ × ℕ
id_and_points c = (c.contributor_id, c.total_points)

abbrev pub points_of : ContributorPoints → ℕ
points_of c = c.total_points

collect-entries :
    (cs : List ContributorPoints) (entries : List (ℕ × ℕ)) (total : ℕ)
    → (collect cs entries total).0 ≡ entries ++ map id_and_points (filter has_points cs)
unfolding collect
collect-entries [] entries total = sym (append-nil entries)
collect-entries (c ∷ cs) entries total = elim (Bool-cases (has_points c)) [
  | inl e ↦ rw e (
      collect-entries cs (entries ++ id_and_points c ∷ []) (saturating_add total c.total_points)
      ∙ append_assoc entries (id_and_points c ∷ []) (map id_and_points (filter has_points cs)))
  | inr e ↦ rw e (collect-entries cs entries total)
]

collect-total :
    (cs : List ContributorPoints) (entries : List (ℕ × ℕ)) (total : ℕ)
    → total ≤ u64_max
    → (collect cs entries total).1 ≡ min (total + sum_by points_of cs) u64_max
unfolding collect
collect-total [] entries total h = omega arith
collect-total (c ∷ cs) entries total h = ground (
  arith,
  collect-total cs entries total h,
  collect-total cs (entries ++ id_and_points c ∷ []) (saturating_add total c.total_points),
)

-- A snapshot lists the contributors that have points, in their order, counts them, and its total is
-- the sum of all points, cut off at the largest `u64`; it is empty exactly when that sum is 0.
pub new_snapshot_exact :
    (day : ℕ) (cs : List ContributorPoints)
    → let s = new_snapshot day cs in
      (s.entries ≡ map id_and_points (filter has_points cs))
      × (s.contributor_count ≡ length s.entries)
      × (s.total_points ≡ min (sum_by points_of cs) u64_max)
      × (is_empty s ≡ (sum_by points_of cs == 0))
unfolding new_snapshot is_empty
new_snapshot_exact day cs =
    let total = collect-total cs [] 0 (omega arith) in
    (collect-entries cs [] 0, refl, omega (arith, total), ground (arith, total))
