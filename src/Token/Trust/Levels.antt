-- ===== src/Token/Trust/Levels.antt =====
-- One upgrade and one recorded outcome in amos-core/src/token/trust.rs.
use amos_platform.Prelude.{
  ℕ, ◌+◌, ◌≤◌, ◌≡◌, Bool, true, false, ◌&&◌, leb, ltb, ◌==◌, if◌then◌else◌, arith,
}
use amos_platform.Error.{Result, ok, err}
use amos_platform.Token.Trust.{AgentTrust, max_points, daily_limit, can_upgrade, try_upgrade}

-- The completions and the reputation that the level above `level` asks for.
abbrev pub needed_completions : ℕ → ℕ
needed_completions level =
    if leb level 1 then 3 else if level == 2 then 10 else if level == 3 then 25 else 50

abbrev pub needed_reputation : ℕ → ℕ
needed_reputation level =
    if leb level 1 then 5500 else if level == 2 then 6500 else if level == 3 then 7500 else 8500

abbrev pub is_eligible : AgentTrust → Bool
is_eligible a =
    ltb a.trust_level 5
    && leb (needed_completions a.trust_level) a.total_completions
    && leb (needed_reputation a.trust_level) a.reputation_bps

abbrev pub succeeds : Result ℕ → Bool
succeeds (ok _) = true
succeeds (err _) = false

-- An upgrade succeeds exactly for an eligible agent, raises the level by one and nothing else, and
-- a refused one changes nothing.
pub try_upgrade_exact :
    (a : AgentTrust)
    → (succeeds (try_upgrade a).1 ≡ is_eligible a)
      × ((try_upgrade a).0
          ≡ (if is_eligible a then record a { trust_level = a.trust_level + 1 } else a))
unfolding try_upgrade can_upgrade
try_upgrade_exact a = ground arith

-- No upgrade, granted or refused, lowers what the agent may earn on a bounty or do in a day.
pub try_upgrade_limits :
    (a : AgentTrust)
    → (max_points a ≤ max_points (try_upgrade a).0)
      × (daily_limit a ≤ daily_limit (try_upgrade a).0)
unfolding max_points daily_limit try_upgrade
try_upgrade_limits a = ground arith
