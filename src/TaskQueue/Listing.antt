-- ===== src/TaskQueue/Listing.antt =====
-- What the queries of amos-harness/src/task_queue/mod.rs list, and in what order.
use amos_platform.Prelude.{
  ℕ, ◌≤◌, ◌≡◌, ap, ◌∙◌, and_left, and_right, Bool, true, false, ◌&&◌, Option, none, some, List, [],
  ◌∷◌, map, filter, find, take, sort_by, length, length-take, length-map, All, All-filter_cons,
  All-take, All-sort_by, All-map, All-mapped, filter-All, IsOrdered, IsOrdered-map, IsOrdered-take,
  sort_by-IsOrdered, unwrap_or, ==_refl, ltb_ℤ, leb, if◌then◌else◌, arith, Bool-cases, inl, inr,
  eq_iff,
}
use mathlib.Core.Path.{subst}
use amos_platform.Error.{ok}
use amos_platform.Database.{Session, fetch_answer}
use amos_platform.TaskQueue.Codes.{status_read}
use amos_platform.TaskQueue.Types.{Task, TaskStatus, parse_status, status_str}
use amos_platform.TaskQueue.Rows.{TaskRow, Tables, into_task}
use amos_platform.TaskQueue.Queue.{
  available_bounties, list_tasks, is_open_bounty, by_priority, oldest_first, newest_first,
  session_matches, status_matches,
}
use amos_platform.TaskQueue.Claims.{is_claimable}

-- The claim on the task would find an open bounty.
abbrev pub CanClaim : List TaskRow → ℕ → Type 0
CanClaim tasks id = (r : TaskRow) × (find (is_claimable id) tasks ≡ some r)

claimable_later :
    (x : TaskRow) (tasks : List TaskRow) (id : ℕ) → CanClaim tasks id → CanClaim (x ∷ tasks) id
claimable_later x tasks id (r, h) = elim (Bool-cases (is_claimable id x)) [
  | inl e ↦ (x, rw e)
  | inr e ↦ (r, rw e h)
]

open-CanClaim :
    (tasks : List TaskRow) → All (λ r. CanClaim tasks r.id) (filter is_open_bounty tasks)
open-CanClaim [] = tt
open-CanClaim (x ∷ tasks) =
    All-filter_cons (λ r. CanClaim (x ∷ tasks) r.id) is_open_bounty x tasks
      (λ e. (x, rw (==_refl x.id, e)))
      (All-map (λ r. claimable_later x tasks r.id) (filter is_open_bounty tasks)
        (open-CanClaim tasks))

-- The order of the queries, on tasks.
abbrev pub task_before : (ℕ → ℕ → Bool) → Task → Task → Bool
task_before times a b =
    if ltb_ℤ a.priority b.priority
    then true
    else if ltb_ℤ b.priority a.priority
    then false
    else times a.created_at b.created_at

oldest_total : (a b : TaskRow) → oldest_first a b ≡ false → oldest_first b a ≡ true
oldest_total a b h = ground arith

newest_total : (a b : TaskRow) → newest_first a b ≡ false → newest_first b a ≡ true
newest_total a b h = ground arith

-- Reading a row keeps its id and what the order compares.
ids_kept :
    (P : ℕ → Type 0) (rows : List TaskRow)
    → All (λ r. P r.id) rows
    → All (λ t. P t.id) (map into_task rows)
unfolding into_task
ids_kept P rows h = All-mapped (λ t. P t.id) into_task rows h

in_order :
    (times : ℕ → ℕ → Bool) (n : ℕ) (rows : List TaskRow)
    → IsOrdered (by_priority times) rows
    → IsOrdered (task_before times) (map into_task (take n rows))
unfolding into_task
in_order times n rows h =
    IsOrdered-map (by_priority times) (task_before times) into_task (λ x y e. e) (take n rows)
      (IsOrdered-take (by_priority times) n rows h)

-- Every bounty that is listed can be claimed as the table stands; the most urgent and among those
-- the oldest come first, and no more than the limit, 50 by default, are listed.
pub available_claimable :
    (limit : Option ℕ) (s : Session Tables) (ts : List Task)
    → (available_bounties limit s).0 ≡ ok ts
    → All (λ t. CanClaim s.tables.tasks t.id) ts
      × IsOrdered (task_before leb) ts
      × (length ts ≤ unwrap_or limit 50)
unfolding available_bounties
available_claimable limit s ts h =
    let tasks = s.tables.tasks in
    let rows = take (unwrap_or limit 50) (sort_by oldest_first (filter is_open_bounty tasks)) in
    let answer : map into_task rows ≡ ts =
      fetch_answer "Failed to list bounties: "
        (λ t. take (unwrap_or limit 50) (sort_by oldest_first (filter is_open_bounty t.tasks)))
        (map into_task) s ts h in
    subst
      (λ l.
        All (λ t. CanClaim tasks t.id) l
        × IsOrdered (task_before leb) l
        × (length l ≤ unwrap_or limit 50))
      answer
      (
        ids_kept (CanClaim tasks) rows (
            All-take (λ r. CanClaim tasks r.id) (unwrap_or limit 50)
              (sort_by oldest_first (filter is_open_bounty tasks))
              (All-sort_by (λ r. CanClaim tasks r.id) oldest_first (filter is_open_bounty tasks)
                (open-CanClaim tasks))),
        in_order leb (unwrap_or limit 50) (sort_by oldest_first (filter is_open_bounty tasks))
            (sort_by-IsOrdered oldest_first oldest_total (filter is_open_bounty tasks)),
        omega (
          arith,
          length-take (unwrap_or limit 50) (sort_by oldest_first (filter is_open_bounty tasks)),
          length-map rows into_task,
        ),
      )

-- The session and the status that were asked for.
abbrev pub OfSession : Option ℕ → Task → Type 0
OfSession none t = Unit
OfSession (some sid) t = t.session_id ≡ some sid

abbrev pub HasStatus : Option TaskStatus → Task → Type 0
HasStatus none t = Unit
HasStatus (some st) t = t.status ≡ st

session_read :
    (session_id : Option ℕ) (r : TaskRow)
    → session_matches session_id r ≡ true
    → OfSession session_id (into_task r)
unfolding into_task
session_read none r h = tt
session_read (some sid) r h = ground arith

status_asked :
    (status_filter : Option TaskStatus) (r : TaskRow)
    → status_matches status_filter r ≡ true
    → HasStatus status_filter (into_task r)
unfolding into_task
status_asked none r h = tt
status_asked (some st) r h =
    let written : r.status ≡ status_str st = (eq_iff r.status (status_str st)).0 h in
    ap (λ x. unwrap_or (parse_status x) TaskStatus.pending) written
    ∙ ap (λ o. unwrap_or o TaskStatus.pending) (status_read st)

abbrev pub asked : Option ℕ → Option TaskStatus → TaskRow → Bool
asked session_id status_filter r = session_matches session_id r && status_matches status_filter r

asked_read :
    (session_id : Option ℕ) (status_filter : Option TaskStatus) (r : TaskRow)
    → asked session_id status_filter r ≡ true
    → OfSession session_id (into_task r) × HasStatus status_filter (into_task r)
asked_read session_id status_filter r h = (
  session_read session_id r (and_left (session_matches session_id r) _ h),
  status_asked status_filter r (and_right (session_matches session_id r) _ h),
)

-- What `list_tasks` answers is of the session and of the status that are asked for, the most urgent
-- and among those the newest first, and no longer than the limit.
pub list_tasks_answer :
    (session_id : Option ℕ) (status_filter : Option TaskStatus) (limit : ℕ) (s : Session Tables)
    (ts : List Task)
    → (list_tasks session_id status_filter (some limit) s).0 ≡ ok ts
    → All (λ t. OfSession session_id t × HasStatus status_filter t) ts
      × IsOrdered (task_before (λ a b. leb b a)) ts
      × (length ts ≤ limit)
unfolding list_tasks
list_tasks_answer session_id status_filter limit s ts h =
    let wanted = filter (asked session_id status_filter) s.tables.tasks in
    let answer : map into_task (take limit (sort_by newest_first wanted)) ≡ ts =
      fetch_answer "Failed to list tasks: "
        (λ t. take limit (sort_by newest_first (filter (asked session_id status_filter) t.tasks)))
        (map into_task) s ts h in
    let passes : All (λ r. asked session_id status_filter r ≡ true)
        (take limit (sort_by newest_first wanted)) =
      All-take (λ r. asked session_id status_filter r ≡ true) limit (sort_by newest_first wanted)
        (All-sort_by (λ r. asked session_id status_filter r ≡ true) newest_first wanted
          (filter-All (asked session_id status_filter) s.tables.tasks)) in
    subst
      (λ l.
        All (λ t. OfSession session_id t × HasStatus status_filter t) l
        × IsOrdered (task_before (λ a b. leb b a)) l
        × (length l ≤ limit))
      answer
      (
        All-mapped (λ t. OfSession session_id t × HasStatus status_filter t) into_task
            (take limit (sort_by newest_first wanted))
            (All-map (asked_read session_id status_filter)
              (take limit (sort_by newest_first wanted)) passes),
        in_order (λ a b. leb b a) limit (sort_by newest_first wanted)
            (sort_by-IsOrdered newest_first newest_total wanted),
        omega (
          arith,
          length-take limit (sort_by newest_first wanted),
          length-map (take limit (sort_by newest_first wanted)) into_task,
        ),
      )
