-- ===== src/Revisions/Templates.antt =====
-- `TemplateService` of amos-harness/src/revisions.rs.
use amos_platform.Prelude.{
  ℕ, Bool, true, false, ◌&&◌, String, str_eq, Option, none, some, List, filter, find, take, length,
  sort_by, leb, ltb, ◌==◌, update_where, lit, number, literal, ◌∷◌, [],
}
use amos_platform.Error.{not_found}
use amos_platform.Database.{Collation, Action, pure, or_raise, ◌>>=◌, utc_now, select, statement}
use amos_platform.Revisions.Types.{
  TemplateRegistryRow, TemplateVersionRow, TemplateSubscriptionRow, TemplateCheckResult, Tables,
}

abbrev of_type : Option String → TemplateRegistryRow → Bool
of_type none r = true
of_type (some entity_type) r = str_eq r.entity_type entity_type

abbrev pub is_listed : Option String → TemplateRegistryRow → Bool
is_listed entity_type r = r.is_published && of_type entity_type r

unfoldable pub list_templates : Collation → Option String → Action Tables (List TemplateRegistryRow)
list_templates collation entity_type = select (λ t. take 200 (
    sort_by (λ a b. collation.before a.name b.name)
      (filter (is_listed entity_type) t.template_registry)))

abbrev is_template : String → String → TemplateRegistryRow → Bool
is_template entity_type slug r = str_eq r.entity_type entity_type && str_eq r.slug slug

unfoldable pub get_template : String → String → Action Tables TemplateRegistryRow
get_template entity_type slug = do
  row ← select (λ t. find (is_template entity_type slug) t.template_registry)
  or_raise row (not_found (literal "Template") (lit entity_type ∷ lit "/" ∷ lit slug ∷ []))

abbrev later_first : TemplateVersionRow → TemplateVersionRow → Bool
later_first a b = leb b.version a.version

unfoldable pub get_template_versions : ℕ → Action Tables (List TemplateVersionRow)
get_template_versions template_id = select (λ t.
    take 100 (sort_by later_first (filter (λ r. r.template_id == template_id) t.template_versions)))

abbrev pub subscribes : String → ℕ → TemplateSubscriptionRow → Bool
subscribes entity_type entity_id r = str_eq r.entity_type entity_type && r.entity_id == entity_id

unfoldable pub get_subscription : String → ℕ → Action Tables (Option TemplateSubscriptionRow)
get_subscription entity_type entity_id =
    select (λ t. find (subscribes entity_type entity_id) t.template_subscriptions)

-- `version > $2 AND version <= $3 AND is_breaking = true`
abbrev pub breaks_between : ℕ → ℕ → ℕ → TemplateVersionRow → Bool
breaks_between template_id installed latest r =
    (r.template_id == template_id)
    && ltb installed r.version
    && leb r.version latest
    && r.is_breaking

abbrev pub check_breaking : TemplateSubscriptionRow → ℕ → Bool → Action Tables Bool
check_breaking sub latest true = do
  breaking_count ← select (λ t.
      length
        (filter (breaks_between sub.template_id sub.installed_version latest) t.template_versions))
  pure (ltb 0 breaking_count)
check_breaking sub latest false = pure false

abbrev pub checked :
    TemplateSubscriptionRow → TemplateRegistryRow → Bool → Bool → TemplateCheckResult
checked sub template has_update is_breaking = record {
  template_slug = template.slug;
  current_version = sub.installed_version;
  latest_version = template.current_version;
  customization_status = sub.customization_status;
  has_update = has_update;
  is_breaking = is_breaking;
}

abbrev pub check_subscription :
    Option TemplateSubscriptionRow → Action Tables (Option TemplateCheckResult)
check_subscription none = pure none
check_subscription (some sub) = do
  row ← select (λ t. find (λ r. r.id == sub.template_id) t.template_registry)
  template ← or_raise row (not_found (literal "Template") (number sub.template_id ∷ []))
  let has_update = ltb sub.installed_version template.current_version
  is_breaking ← check_breaking sub template.current_version has_update
  pure (some (checked sub template has_update is_breaking))

unfoldable pub check_for_updates : String → ℕ → Action Tables (Option TemplateCheckResult)
unfolding get_subscription
check_for_updates entity_type entity_id = do
  subscription ← get_subscription entity_type entity_id
  check_subscription subscription

abbrev pub with_customization :
    String → String → ℕ → TemplateSubscriptionRow → TemplateSubscriptionRow
with_customization status local_hash now r = record r {
  customization_status = status;
  local_content_hash = some local_hash;
  updated_at = now;
}

unfoldable pub update_subscription_status : String → ℕ → String → String → Action Tables (Unit {0})
update_subscription_status entity_type entity_id status local_hash = do
  now ← utc_now
  statement (λ t. (
    tt,
    record t {
      template_subscriptions =
          update_where (subscribes entity_type entity_id) (with_customization status local_hash now)
            t.template_subscriptions;
    },
  ))
