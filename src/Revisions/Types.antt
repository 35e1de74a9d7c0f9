-- ===== src/Revisions/Types.antt =====
-- The rows of amos-harness/src/revisions.rs, its requests, and the tables that its services use. An
-- `i32` version is a natural number: the first revision has version 1, and a template's version
-- starts at 1.
use amos_platform.Prelude.{ℕ, Bool, String, Option, List, Message}
use amos_platform.Prelude.Values.{Json}

pub record RevisionRow : Type 0 where
  pub id : ℕ
  pub entity_type : String
  pub entity_id : ℕ
  pub version : ℕ
  pub content_hash : String
  pub snapshot : Json
  pub diff_from_prev : Option Json
  pub change_type : String
  pub changed_by : Option String
  pub change_summary : Option Message
  pub template_id : Option ℕ
  pub template_version : Option ℕ
  pub created_at : ℕ

pub record TemplateRegistryRow : Type 0 where
  pub id : ℕ
  pub entity_type : String
  pub slug : String
  pub name : String
  pub description : Option String
  pub current_version : ℕ
  pub content_hash : String
  pub snapshot : Json
  pub category : Option String
  pub icon_url : Option String
  pub tags : Option Json
  pub metadata : Option Json
  pub is_published : Bool
  pub published_at : Option ℕ
  pub deprecated_at : Option ℕ
  pub created_at : ℕ
  pub updated_at : ℕ

pub record TemplateVersionRow : Type 0 where
  pub id : ℕ
  pub template_id : ℕ
  pub version : ℕ
  pub content_hash : String
  pub snapshot : Json
  pub diff_from_prev : Option Json
  pub release_notes : Option String
  pub is_breaking : Bool
  pub created_at : ℕ

pub record TemplateSubscriptionRow : Type 0 where
  pub id : ℕ
  pub entity_type : String
  pub entity_id : ℕ
  pub template_id : ℕ
  pub installed_version : ℕ
  pub latest_version : Option ℕ
  pub customization_status : String
  pub local_content_hash : Option String
  pub template_content_hash : Option String
  pub auto_update : Bool
  pub pin_version : Bool
  pub last_checked_at : Option ℕ
  pub last_synced_at : Option ℕ
  pub created_at : ℕ
  pub updated_at : ℕ

pub record CreateRevisionRequest : Type 0 where
  pub entity_type : String
  pub entity_id : ℕ
  pub snapshot : Json
  pub change_type : String
  pub changed_by : String
  pub change_summary : Option Message
  pub template_id : Option ℕ
  pub template_version : Option ℕ

pub record RevertRequest : Type 0 where
  pub entity_type : String
  pub entity_id : ℕ
  pub target_version : ℕ
  pub changed_by : String

pub record RevisionListResponse : Type 0 where
  pub revisions : List RevisionRow
  pub total : ℕ

pub record TemplateCheckResult : Type 0 where
  pub template_slug : String
  pub current_version : ℕ
  pub latest_version : ℕ
  pub customization_status : String
  pub has_update : Bool
  pub is_breaking : Bool

-- The tables that the services read and write.
pub record Tables : Type 0 where
  pub entity_revisions : List RevisionRow
  pub template_registry : List TemplateRegistryRow
  pub template_versions : List TemplateVersionRow
  pub template_subscriptions : List TemplateSubscriptionRow
