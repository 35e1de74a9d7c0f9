-- ===== src/Schema/Types.antt =====
-- The types of amos-harness/src/schema.rs and the two tables behind them.
use amos_platform.Prelude.{ℕ, Bool, String, Option, List, Message}
use amos_platform.Prelude.Values.{Json}
use amos_platform.Automation.Types.{TriggerEvent}

pub data FieldType : Type 0 where
  text rich_text number decimal boolean date date_time : FieldType
  enum reference email url phone json : FieldType

pub record FieldDefinition : Type 0 where
  pub name : String
  pub display_name : String
  pub field_type : FieldType
  pub required : Bool
  pub unique : Bool
  pub default_value : Option Json
  pub description : Option String
  pub options : Json

pub record Collection : Type 0 where
  pub id : ℕ
  pub name : String
  pub display_name : String
  pub description : Option String
  pub fields : List FieldDefinition
  pub settings : Json
  pub created_at : ℕ
  pub updated_at : ℕ

pub record Record : Type 0 where
  pub id : ℕ
  pub collection_id : ℕ
  pub collection_name : String
  pub contents : Json
  pub created_at : ℕ
  pub updated_at : ℕ

-- What serde reads in the column `fields`: definitions, or an error.
pub data FieldsColumn : Type 0 where
  definitions : List FieldDefinition → FieldsColumn
  unreadable : Message → FieldsColumn

pub record CollectionRow : Type 0 where
  pub id : ℕ
  pub name : String
  pub display_name : String
  pub description : Option String
  pub fields : FieldsColumn
  pub settings : Json
  pub created_at : ℕ
  pub updated_at : ℕ

pub record RecordRow : Type 0 where
  pub id : ℕ
  pub collection_id : ℕ
  pub contents : Json
  pub created_at : ℕ
  pub updated_at : ℕ

-- The tables, and the channel of events: whether the engine has a sender, how many more events the
-- channel takes, and the events in it, the oldest first.
pub record Tables : Type 0 where
  pub collections : List CollectionRow
  pub records : List RecordRow
  pub has_sender : Bool
  pub room : ℕ
  pub events : List TriggerEvent
