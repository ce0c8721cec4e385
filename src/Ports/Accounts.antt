-- ===== src/Ports/Accounts.antt =====
-- internal/ports/users_and_sessions.go: accounts, credentials and sessions.
use atrium_go.Base.{Option}
use atrium_go.Base.Int.{ℤ}
use atrium_go.Text.{Text}
use atrium_go.Ports.Items.{Time}

-- The type of the JSON documents is a parameter: only encoding/json looks into them.
pub record User (Document : Type 0) : Type 0 where
  pub id : Text
  pub username : Text
  pub username_folded : Text
  pub policy_document : Document
  pub configuration_document : Document
  pub invalid_login_attempt_count : ℤ
  pub last_login_at : Option Time
  pub last_activity_at : Option Time

pub record Credential : Type 0 where
  pub user_id : Text
  pub phc : Text
  pub written_at : Time

pub record Session : Type 0 where
  pub id : Text
  pub user_id : Text
  pub client : Text
  pub device_id : Text
  pub device_name : Text
  pub application_version : Text
  pub remote_endpoint : Text
  -- none where nothing was posted
  pub capabilities_document : Option Text
  pub created_at : Time
  pub last_activity_at : Time
  pub last_playback_check_in_at : Time

pub data LoginOutcome : Type 0 where
  outcome_unset failed succeeded locked_out : LoginOutcome
