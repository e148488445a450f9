-- ===== src/Model/Fleet.antt =====
-- More tables of backend/app/models.py: installer profiles, tags, saved views and dynamic groups.
use sha.Base.{ℕ, String, Option, List, Bool, true, false}
use sha.Model.Enums.{Platform, ResourceScope}

pub data Channel : Type 0 where
  stable preview : Channel

pub data PolicyMode : Type 0 where
  observe safe_auto approval_required : PolicyMode

pub data RuntimeKind : Type 0 where
  go_agent legacy_reporter : RuntimeKind

pub record InstallerProfile : Type 0 where
  pub id : String
  pub name : String
  pub name_normalized : String
  pub platform : Platform
  pub channel : Channel
  pub control_plane_url : String
  pub policy_mode : PolicyMode
  pub runtime_kind : RuntimeKind
  pub client_id : String
  pub location_id : String
  pub tenant_id : Option String
  pub site_id : Option String
  pub created_at : ℕ
  pub updated_at : ℕ

pub record Tag : Type 0 where
  pub tag_id : String
  pub name : String
  pub name_normalized : String
  pub description : Option String
  pub scope_type : ResourceScope
  pub scope_key : String
  pub client_id : Option String
  pub location_id : Option String
  pub created_by : String
  pub created_at : ℕ
  pub updated_at : ℕ

pub record EndpointTagAssignment : Type 0 where
  pub endpoint_id : String
  pub tag_id : String
  pub client_id : String
  pub location_id : String
  pub tag_scope_key : String
  pub assigned_by : String
  pub assigned_at : ℕ

-- `SavedViewVisibility`; `personal` is its `private`.
pub data Visibility : Type 0 where
  personal shared : Visibility

abbrev pub is_shared : Visibility → Bool
is_shared shared = true
is_shared personal = false

pub record SavedView : Type 0 where
  pub saved_view_id : String
  pub name : String
  pub name_normalized : String
  pub description : Option String
  pub visibility : Visibility
  pub scope_type : ResourceScope
  pub scope_key : String
  pub client_id : Option String
  pub location_id : Option String
  pub owner_user_id : Option String
  pub owner_actor : String
  pub current_version : ℕ
  pub created_at : ℕ
  pub updated_at : ℕ

-- `EndpointFilterField`, `EndpointFilterOperator` and `EndpointFilterMatch` of
-- backend/app/schemas/contracts.py
pub data FilterField : Type 0 where
  by_endpoint_id by_hostname by_platform by_status by_connectivity by_agent_version by_client_id
        by_location_id by_tag :
      FilterField

pub data FilterOperator : Type 0 where
  op_eq op_neq op_contains op_starts_with op_in : FilterOperator

pub data FilterMatch : Type 0 where
  match_all match_any : FilterMatch

pub data FilterValue : Type 0 where
  one_value : String → FilterValue
  many_values : List String → FilterValue

pub record EndpointFilterRule : Type 0 where
  pub filter_field : FilterField
  pub operator : FilterOperator
  pub value : FilterValue

pub record EndpointFilterDefinition : Type 0 where
  pub matching : FilterMatch
  pub rules : List EndpointFilterRule

-- `filter_json` holds what it decodes to.
pub record SavedViewVersion : Type 0 where
  pub saved_view_id : String
  pub version : ℕ
  pub filter_json : EndpointFilterDefinition
  pub content_hash : String
  pub created_by : String
  pub created_at : ℕ

pub record DynamicGroup : Type 0 where
  pub dynamic_group_id : String
  pub name : String
  pub name_normalized : String
  pub description : Option String
  pub scope_type : ResourceScope
  pub scope_key : String
  pub client_id : Option String
  pub location_id : Option String
  pub saved_view_id : String
  pub owner_user_id : Option String
  pub owner_actor : String
  pub created_at : ℕ
  pub updated_at : ℕ
