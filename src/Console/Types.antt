-- ===== src/Console/Types.antt =====
-- console/src/types.ts, and what the query library hands to a component.
use agentic_warden.Prelude.{
  ℕ, Bool, true, false, Option, none, some, List, Text, text_eq, nat_eq, ◌==◌, if◌then◌else◌,
}

-- JSON; a number is the text of its literal.
mutual
  pub data Json : Type 0 where
    null : Json
    boolean : Bool → Json
    number : Text → Json
    string : Text → Json
    array : Items → Json
    object : Members → Json

  pub data Items : Type 0 where
    nil : Items
    cons : Json → Items → Items

  pub data Members : Type 0 where
    end : Members
    member : Text → Json → Members → Members

-- `value.key`, none if the value is no object or has no such member.
unfoldable pub get_member : Members → Text → Option Json
get_member end key = none
get_member (member k v ms) key = if k == key then some v else get_member ms key

pub record Me : Type 0 where
  pub user : Text
  pub expires_at : Text
  pub signing_key_id : Option Text

pub record Revision : Type 0 where
  pub seq : ℕ
  pub version : Text
  pub rule_set : Json
  pub created_at : Text
  pub created_by : Option Text

pub record Machine : Type 0 where
  pub id : Text
  pub user : Text
  pub name : Option Text
  pub os : Option Text
  pub enrolled_at : Text
  pub last_seen_at : Text
  pub last_bundle_version : Option Text
  pub last_key_id : Option Text

pub record ScimCounts : Type 0 where
  pub users : ℕ
  pub active_users : ℕ
  pub groups : ℕ

pub record GroupsView : Type 0 where
  pub has_snapshot : Bool
  pub source : Option Text
  pub applied_by : Option Text
  pub synced_at : Option Text
  pub users : Option ℕ
  pub groups : Option ℕ
  pub members : Option (List (Text × List Text))
  pub scim : Option ScimCounts

pub record GroupSources : Type 0 where
  pub user : Text
  pub authored : List Text
  pub snapshot : List Text
  pub scim : List Text
  pub effective : List Text
  pub scim_near_match : Option Text

pub record AuditEvent : Type 0 where
  pub id : ℕ
  pub at : Text
  pub actor : Text
  pub action : Text
  pub target : Option Text
  pub detail : Option Json

pub record EnrollmentToken : Type 0 where
  pub token : Text
  pub user : Text
  pub expires_at : Text

-- What a request throws: an `ApiError`, another `Error`, or a value that is no `Error`.
pub data Failure : Type 0 where
  api_error : ℕ → Text → Failure
  error : Text → Failure
  thrown : Failure

-- `e instanceof Error ? e.message : fallback`
abbrev pub error_message : Failure → Text → Text
error_message (api_error status m) fallback = m
error_message (error m) fallback = m
error_message thrown fallback = fallback

-- `e instanceof ApiError ? e.message : fallback`
abbrev pub api_message : Failure → Text → Text
api_message (api_error status m) fallback = m
api_message (error m) fallback = fallback
api_message thrown fallback = fallback

-- `e instanceof ApiError && e.status === n`
abbrev pub has_status : Failure → ℕ → Bool
has_status (api_error status m) n = status == n
has_status (error m) n = false
has_status thrown n = false

-- The status of a query of the query library, and the data that it still holds.
pub data QueryStatus : Type 0 where
  pending succeeded : QueryStatus
  failed : Failure → QueryStatus

pub record Query (A : Type 0) : Type 0 where
  pub status : QueryStatus
  pub loaded : Option A

abbrev pub is_success : QueryStatus → Bool
is_success succeeded = true
is_success pending = false
is_success (failed e) = false

-- The status of a mutation of the query library.
pub data MutationStatus : Type 0 where
  unsent waiting answered : MutationStatus
  rejected_with : Failure → MutationStatus

-- `mutation.isPending`
abbrev pub is_waiting : MutationStatus → Bool
is_waiting waiting = true
is_waiting unsent = false
is_waiting answered = false
is_waiting (rejected_with e) = false
