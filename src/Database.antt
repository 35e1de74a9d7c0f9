-- ===== src/Database.antt =====
-- What the operations of the services work in: the tables that they read and write, the clock, the
-- supply of `Uuid::new_v4`, and the database's refusals. An id and a time are numbers: the code
-- only compares them. `faults` says of each statement to come whether the database refuses it, by a
-- lost connection, a constraint or a wrong argument, and with what text; past its end none is.
use amos_platform.Prelude.{
  Bool, ℕ, ◌+◌, ◌≡◌, ap, sym, ◌∙◌, inl, inr, arith, String, Option, none, some, List, [], ◌∷◌,
  Message, literal,
}
use amos_platform.Error.{AmosError, Result, ok, err, Result-cases, internal, database, ◌⊕◌}

-- The database's order of texts.
pub record Collation : Type 0 where
  pub before : String → String → Bool

pub record Session (S : Type 0) : Type 0 where
  pub tables : S
  pub now : ℕ
  pub uuids : ℕ → ℕ
  pub drawn : ℕ
  pub faults : List (Option Message)

abbrev pub Action : Type 0 → Type 0 → Type 0
Action S A = Session S → Result A × Session S

module _ {S : Type 0} {A : Type 0} where
  abbrev pub pure : A → Action S A
  pure a s = (ok a, s)

  abbrev pub raise : AmosError → Action S A
  raise e s = (err e, s)

  -- `ok_or_else(…)?`
  abbrev pub or_raise : Option A → AmosError → Action S A
  or_raise none e = raise e
  or_raise (some a) e = pure a

  -- `?` on a result that needs no statement.
  abbrev pub answer : Result A → Action S A
  answer r s = (r, s)

infixl 5 ◌>>=◌ ◌>>◌
abbrev pub ◌>>=◌ : {S A B : Type 0} → Action S A → (A → Action S B) → Action S B
◌>>=◌ m f s = let (r, s') = m s in elim r [ ok a ↦ f a s' | err e ↦ raise e s' ]

abbrev pub ◌>>◌ : {S A B : Type 0} → Action S A → Action S B → Action S B
m >> k = m >>= λ _. k

module _ {S : Type 0} {A : Type 0} where
  -- A call whose result is matched on.
  abbrev pub outcome : Action S A → Action S (Result A)
  outcome m s = let (r, s') = m s in (ok r, s')

  -- `let _ = …`
  abbrev pub ignore : Action S A → Action S (Unit {0})
  ignore m s = (ok tt, (m s).1)

module _ {S : Type 0} where
  -- `Utc::now()`
  abbrev pub utc_now : Action S ℕ
  utc_now s = (ok s.now, s)

  -- `Uuid::new_v4()`
  abbrev pub new_v4 : Action S ℕ
  new_v4 s = (ok (s.uuids s.drawn), record s { drawn = s.drawn + 1 })

-- Whether the database refuses the next statement, and what it says of those after it.
abbrev pub refusal : List (Option Message) → Option Message
refusal [] = none
refusal (f ∷ faults) = f

abbrev pub later : List (Option Message) → List (Option Message)
later [] = []
later (f ∷ faults) = faults

-- One statement on the tables, or its refusal.
abbrev pub run_statement : {S A : Type 0} → (Message → AmosError) → (S → A × S) → Action S A
run_statement refuse body s =
    let s' = record s { faults = later s.faults } in
    elim (refusal s.faults) [
      | none ↦ (ok (body s.tables).0, record s' { tables = (body s.tables).1 })
      | some e ↦ (err (refuse e), s')
    ]

-- `….await.map_err(|e| AmosError::Internal(format!("{what}: {e}")))?`
abbrev pub execute : {S A : Type 0} → String → (S → A × S) → Action S A
execute what body = run_statement (λ e. internal (literal what ⊕ e)) body

-- A statement that only reads.
abbrev pub fetch : {S A : Type 0} → String → (S → A) → Action S A
fetch what read = execute what (λ t. (read t, t))

-- A statement whose refusal `?` turns into an `AmosError::Database`.
abbrev pub statement : {S A : Type 0} → (S → A × S) → Action S A
statement body = run_statement database body

-- A `SELECT` with that `?`.
abbrev pub select : {S A : Type 0} → (S → A) → Action S A
select read = statement (λ t. (read t, t))

-- What a query answers, where it does, is what its function makes of the rows.
pub fetch_answer :
    {S A B : Type 0} (what : String) (read : S → A) (f : A → B) (s : Session S) (b : B)
    → ((fetch what read >>= λ rows. pure (f rows)) s).0 ≡ ok b
    → f (read s.tables) ≡ b
fetch_answer what read f s b h = ground arith

-- After an action that answers, the next one runs on what it leaves.
pub then-ok :
    {S A B : Type 0} (m : Action S A) (k : Action S B) (s : Session S) (a : A)
    → (m s).0 ≡ ok a
    → (m >> k) s ≡ k (m s).1
then-ok m k s a h = ap (λ r. elim r [ ok b ↦ k (m s).1 | err e ↦ raise e (m s).1 ]) h

pub bind-ok :
    {S A B : Type 0} (m : Action S A) (k : A → Action S B) (s : Session S) (a : A) (s' : Session S)
    → m s ≡ (ok a, s')
    → (m >>= k) s ≡ k a s'
bind-ok m k s a s' h = ap (λ r. let (x, y) = r in elim x [ ok b ↦ k b y | err e ↦ raise e y ]) h

-- What an action and each continuation of it keep, both after one another keep.
pub bind_keeps {ℓ} :
    {S A B : Type 0} (P : Session S → Type ℓ) (m : Action S A) (k : A → Action S B) (s : Session S)
    → P (m s).1
    → ((a : A) (s' : Session S) → P s' → P (k a s').1)
    → P ((m >>= k) s).1
bind_keeps {S = S} {B = B} P m k s h f =
    elim (m s).0
      as (λ r.
        let run : Result B × Session S = elim r [ ok b ↦ k b (m s).1 | err e ↦ raise e (m s).1 ] in
        P run.1) [ ok a ↦ f a (m s).1 h | err e ↦ h ]

-- Where an action and its continuation answer, the action answers, and the continuation runs on what
-- it leaves.
pub bind_answers :
    {S A B : Type 0} (m : Action S A) (k : A → Action S B) (s : Session S) (b : B)
    → ((m >>= k) s).0 ≡ ok b
    → (a : A) × ((m s).0 ≡ ok a) × ((m >>= k) s ≡ k a (m s).1)
bind_answers m k s b h = elim (Result-cases (m s).0) [
  | inl (a, e) ↦ (a, e, bind-ok m k s a (m s).1 (ap (λ r. (r, (m s).1)) e))
  | inr (e, failed) ↦
      let stopped : (m >>= k) s ≡ (err e, (m s).1) =
        ap (λ r. elim r [ ok a ↦ k a (m s).1 | err x ↦ raise x (m s).1 ]) failed in
      let apart : err e ≡ ok b = ap (λ p. p.0) (sym stopped) ∙ h in cc
]

-- A statement that answers has answered what it read.
pub fetch_reads :
    {S A : Type 0} (what : String) (read : S → A) (s : Session S) (a : A)
    → (fetch what read s).0 ≡ ok a
    → (read s.tables ≡ a) × ((fetch what read s).1.tables ≡ s.tables)
fetch_reads what read s a h = ground arith

pub statement_answers :
    {S A : Type 0} (refuse : Message → AmosError) (body : S → A × S) (s : Session S) (a : A)
    → (run_statement refuse body s).0 ≡ ok a
    → ((body s.tables).0 ≡ a)
      × ((run_statement refuse body s).1
          ≡ record s { faults = later s.faults; tables = (body s.tables).1 })
statement_answers refuse body s a h = ground arith

-- Two queries in a row read the same tables.
pub fetch_both :
    {S A B C : Type 0} (first second : String) (f : S → A) (g : S → B) (k : A → B → C)
    (s : Session S) (c : C)
    → ((fetch first f >>= λ a. fetch second g >>= λ b. pure (k a b)) s).0 ≡ ok c
    → k (f s.tables) (g s.tables) ≡ c
fetch_both first second f g k s c h = ground arith
