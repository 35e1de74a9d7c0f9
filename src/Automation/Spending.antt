-- ===== src/Automation/Spending.antt =====
-- What the steps of the retry worker of amos-harness/src/automations/engine.rs spend: the requests
-- made and those still to be made.
use amos_platform.Prelude.{
  ℕ, ◌+◌, ◌-◌, ◌≤◌, ◌≡◌, refl, arith, [], ◌∷◌, length, filter, sum_by, All, All-update_where,
  update_where, if◌then◌else◌, str_eq, String, Option, Message, sum_by-update_where,
  length-filter-update_where, length-append, Option-cases, Bool-cases, ◌⊎◌, inl, inr,
}
use amos_platform.Prelude.Values.{Json}
use amos_platform.Database.{Session, refusal}
use amos_platform.Automation.Types.{RetryEntry, Automation}
use amos_platform.Automation.Webhook.{
  Http, Tables, action_call_webhook, webhook_request, config_text,
}
use amos_platform.Automation.Retry.{
  get_automation, log_run, set_entry, is_entry, is_pending, retry_action,
}

-- The tries that an entry has left, with `m` in all, and those that it is waiting for.
abbrev pub tries : ℕ → RetryEntry → ℕ
tries m e = m + 1 - e.attempt

abbrev pub waiting : ℕ → RetryEntry → ℕ
waiting m e = if is_pending e then tries m e else 0

-- The requests made, and those still to be made for the entries that wait.
abbrev pub committed : ℕ → Tables → ℕ
committed m t = length t.requests + sum_by (waiting m) t.retries

abbrev pub IsWithin : ℕ → RetryEntry → Type 0
IsWithin m e = (e.attempt ≤ m) × (e.max_attempts ≤ m)

-- Ids are keys, and no entry has or may have more than `m` attempts.
pub record IsQueue (m : ℕ) (t : Tables) : Type 0 where
  pub keys : (id : ℕ) → length (filter (is_entry id) t.retries) ≤ 1
  pub within : All (IsWithin m) t.retries

-- A step that keeps the queue sound and commits it to at most `c` more requests.
pub record Spends (m c : ℕ) (t t' : Tables) : Type 0 where
  pub sound : IsQueue m t'
  pub bound : committed m t' ≤ committed m t + c

-- Steps that touch neither the queue nor the requests.
pub idle :
    (m : ℕ) (t t' : Tables)
    → t'.retries ≡ t.retries
    → t'.requests ≡ t.requests
    → IsQueue m t
    → Spends m 0 t t'
idle m t t' same quiet q = record {
  sound = record { keys = λ id. rw same (q.keys id); within = rw same q.within };
  bound = rw (same, quiet) (omega arith);
}

pub trans :
    (m b c : ℕ) (t t' t'' : Tables) → Spends m b t t' → Spends m c t' t'' → Spends m (b + c) t t''
trans m b c t t' t'' h k = record { sound = k.sound; bound = omega (arith, h.bound, k.bound) }

-- An update of the entry of one id.
edit :
    (m c id : ℕ) (change : RetryEntry → RetryEntry) (t : Tables)
    → ((x : RetryEntry) → (change x).id ≡ x.id)
    → ((x : RetryEntry) → IsWithin m x → IsWithin m (change x))
    → ((x : RetryEntry) → waiting m (change x) ≤ c)
    → IsQueue m t
    → Spends m c t (record t { retries = update_where (is_entry id) change t.retries })
edit m c id change t key keep cheap q = record {
  sound = record {
    keys = λ k.
        rw
          (length-filter-update_where (is_entry k) (is_entry id) change t.retries
            (λ x. rw (key x) refl))
          (q.keys k);
    within = All-update_where (IsWithin m) (is_entry id) change t.retries keep q.within;
  };
  bound =
      grind
        (arith, q.keys id, sum_by-update_where (waiting m) (is_entry id) change c t.retries cheap);
}

pub free : (m c : ℕ) (t t' : Tables) → Spends m 0 t t' → Spends m c t t'
free m c t t' h = record { sound = h.sound; bound = omega (arith, h.bound) }

set_entry_cases :
    (id : ℕ) (change : RetryEntry → RetryEntry) (s : Session Tables)
    → ((set_entry id change s).1.tables ≡ s.tables)
      ⊎ ((set_entry id change s).1.tables
          ≡ record s.tables { retries = update_where (is_entry id) change s.tables.retries })
set_entry_cases id change s = elim (Option-cases (refusal s.faults)) [
  | inl quiet ↦ inr (ground arith)
  | inr (e, refused) ↦ inl (ground arith)
]

-- The statement, or its refusal.
pub set_entry-Spends :
    (m c id : ℕ) (change : RetryEntry → RetryEntry) (s : Session Tables)
    → ((x : RetryEntry) → (change x).id ≡ x.id)
    → ((x : RetryEntry) → IsWithin m x → IsWithin m (change x))
    → ((x : RetryEntry) → waiting m (change x) ≤ c)
    → IsQueue m s.tables
    → Spends m c s.tables (set_entry id change s).1.tables
set_entry-Spends m c id change s key keep cheap q = elim (set_entry_cases id change s) [
  | inl refused ↦ rw refused (free m c s.tables s.tables (idle m s.tables s.tables refl refl q))
  | inr edited ↦ rw edited (edit m c id change s.tables key keep cheap q)
]

pub get_automation-Spends :
    (m id : ℕ) (s : Session Tables)
    → IsQueue m s.tables
    → Spends m 0 s.tables (get_automation id s).1.tables
unfolding get_automation
get_automation-Spends m id s q =
    idle m s.tables (get_automation id s).1.tables (ground arith) (ground arith) q

pub log_run-Spends :
    (m id : ℕ) (j : Json) (st : String) (r : Option Json) (e : Option Message) (d : ℕ)
    (s : Session Tables)
    → IsQueue m s.tables
    → Spends m 0 s.tables (log_run id j st r e d s).1.tables
unfolding log_run
log_run-Spends m id j st r e d s q =
    idle m s.tables (log_run id j st r e d s).1.tables (ground arith) (ground arith) q

-- The webhook touches no entry, and makes at most one request.
webhook_frame :
    (http : Http) (a : Automation) (j : Json) (s : Session Tables)
    → ((action_call_webhook http a j s).1.tables.retries ≡ s.tables.retries)
      × (length (action_call_webhook http a j s).1.tables.requests ≤ length s.tables.requests + 1)
unfolding action_call_webhook
webhook_frame http a j s = elim (Option-cases (config_text a "url")) [
  | inl missing ↦ (ground arith, ground arith)
  | inr (url, given) ↦ (
    ground arith,
    ground (arith, length-append s.tables.requests (webhook_request http a j url ∷ [])),
  )
]

pub retry_action-Spends :
    (http : Http) (m : ℕ) (a : Automation) (entry : RetryEntry) (s : Session Tables)
    → IsQueue m s.tables
    → Spends m 1 s.tables (retry_action http a entry s).1.tables
retry_action-Spends http m a entry s q =
    elim (Bool-cases (str_eq entry.action_type "call_webhook")) [
      | inl webhook ↦
          let (same, few) = webhook_frame http a entry.trigger_data s in
          rw webhook (record {
            sound = record { keys = λ id. rw same (q.keys id); within = rw same q.within };
            bound = rw same (omega (arith, few));
          })
      | inr other ↦ rw other (free m 1 s.tables s.tables (idle m s.tables s.tables refl refl q))
    ]
