-- ===== src/Revisions/Updates.antt =====
-- What amos-harness/src/revisions.rs answers about the updates of a subscribed template.
use amos_platform.Prelude.{
  ℕ, Any, ◌≡◌, ◌<◌, ◌≤◌, ◌&&◌, str_eq, true, refl, arith, Bool, false, ◌||◌, Bool-cases, inl, inr,
  String, some, List, [], ◌∷◌, filter, find, length, ltb, ◌==◌,
}
use mathlib.Core.Logic.{◌↔◌}
use amos_platform.Error.{ok}
use amos_platform.Database.{Session}
use amos_platform.Revisions.Types.{
  TemplateCheckResult, TemplateRegistryRow, TemplateVersionRow, TemplateSubscriptionRow, Tables,
}
use amos_platform.Revisions.Templates.{
  subscribes, breaks_between, checked, get_subscription, check_for_updates,
}

-- Whether some row passes.
abbrev pub exists {ℓ} : {A : Type ℓ} → (A → Bool) → List A → Bool
exists p [] = false
exists p (x ∷ xs) = p x || exists p xs

count_exists :
    {A : Type 0} (p : A → Bool) (xs : List A) → ltb 0 (length (filter p xs)) ≡ exists p xs
count_exists p [] = refl
count_exists p (x ∷ xs) = elim (Bool-cases (p x)) [
  | inl e ↦ rw e (ground arith)
  | inr e ↦ rw e (count_exists p xs)
]

never_between :
    (template_id installed latest : ℕ) (rows : List TemplateVersionRow)
    → ltb installed latest ≡ false
    → exists (breaks_between template_id installed latest) rows ≡ false
never_between template_id installed latest [] h = refl
never_between template_id installed latest (r ∷ rows) h =
    ground (arith, never_between template_id installed latest rows h)

-- A version of the template, above the installed one and up to the current one, that breaks.
abbrev pub IsBreaking : ℕ → ℕ → ℕ → TemplateVersionRow → Type 0
IsBreaking template_id installed current r =
    (r.template_id ≡ template_id)
    × (installed < r.version)
    × (r.version ≤ current)
    × (r.is_breaking ≡ true)

breaks_between-IsBreaking :
    (template_id installed current : ℕ) (r : TemplateVersionRow)
    → (breaks_between template_id installed current r ≡ true)
      ↔ IsBreaking template_id installed current r
breaks_between-IsBreaking template_id installed current r = (λ h. ground arith, λ h. ground arith)

or_right : (a b : Bool) → b ≡ true → (a || b) ≡ true
or_right a b h = ground arith

exists-Any :
    {A : Type 0} {P : A → Type 0} (p : A → Bool)
    → ((x : A) → (p x ≡ true) ↔ P x)
    → (xs : List A) → (exists p xs ≡ true) ↔ Any P xs
exists-Any p same [] = (λ h. cc, λ h. absurd h)
exists-Any p same (x ∷ xs) = (
  λ h. elim (Bool-cases (p x)) [
    | inl e ↦ inl ((same x).0 e)
    | inr e ↦ inr ((exists-Any p same xs).0 (rw e at h))
  ],
  λ some. elim some [
    | inl here ↦ rw ((same x).1 here) refl
    | inr later ↦ or_right (p x) (exists p xs) ((exists-Any p same xs).1 later)
  ],
)

-- The answer, of a subscription and its template.
check_for_updates_value :
    (entity_type : String) (entity_id : ℕ) (s : Session Tables) (sub : TemplateSubscriptionRow)
    (template : TemplateRegistryRow)
    → s.faults ≡ []
    → find (subscribes entity_type entity_id) s.tables.template_subscriptions ≡ some sub
    → find (λ r. r.id == sub.template_id) s.tables.template_registry ≡ some template
    → (check_for_updates entity_type entity_id s).0
      ≡ ok (
          some (
            checked sub template (ltb sub.installed_version template.current_version) (
              exists
                (breaks_between sub.template_id sub.installed_version template.current_version)
                s.tables.template_versions)))
unfolding check_for_updates get_subscription
check_for_updates_value entity_type entity_id s sub template quiet subscribed known =
    let p = breaks_between sub.template_id sub.installed_version template.current_version in
    ground (
      arith,
      count_exists p s.tables.template_versions,
      never_between sub.template_id sub.installed_version template.current_version
          s.tables.template_versions,
    )

-- What is answered of a subscription and its template.
pub record IsChecked (sub : TemplateSubscriptionRow) (template : TemplateRegistryRow)
    (versions : List TemplateVersionRow) (r : TemplateCheckResult) : Type 0 where
  pub slug : r.template_slug ≡ template.slug
  pub current : r.current_version ≡ sub.installed_version
  pub latest : r.latest_version ≡ template.current_version
  pub customized : r.customization_status ≡ sub.customization_status
  pub updates : (r.has_update ≡ true) ↔ (sub.installed_version < template.current_version)
  pub breaks :
      (r.is_breaking ≡ true)
      ↔ Any (IsBreaking sub.template_id sub.installed_version template.current_version) versions

-- An update is reported exactly where the template's current version is above the installed one, and
-- reported as breaking exactly where some version of the template above the installed one, up to the
-- current one, is marked so; the slug, the two versions and the state of customization are those of
-- the template and the subscription. This is where the database refuses no statement and has the
-- subscription of the entity and its template.
pub check_for_updates-breaking :
    (entity_type : String) (entity_id : ℕ) (s : Session Tables) (sub : TemplateSubscriptionRow)
    (template : TemplateRegistryRow)
    → s.faults ≡ []
    → find
        (λ r. str_eq r.entity_type entity_type && (r.entity_id == entity_id))
        s.tables.template_subscriptions
      ≡ some sub
    → find (λ r. r.id == sub.template_id) s.tables.template_registry ≡ some template
    → (r : TemplateCheckResult) × ((check_for_updates entity_type entity_id s).0 ≡ ok (some r))
      × IsChecked sub template s.tables.template_versions r
check_for_updates-breaking entity_type entity_id s sub template quiet subscribed known =
    let installed = sub.installed_version in
    let current = template.current_version in
    let p = breaks_between sub.template_id installed current in
    (
      checked sub template (ltb installed current) (exists p s.tables.template_versions),
      check_for_updates_value entity_type entity_id s sub template quiet subscribed known,
      record {
        slug = refl;
        current = refl;
        latest = refl;
        customized = refl;
        updates = (λ h. ground arith, λ h. ground arith);
        breaks =
            exists-Any p (breaks_between-IsBreaking sub.template_id installed current)
              s.tables.template_versions;
      },
    )
