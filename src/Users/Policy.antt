-- ===== src/Users/Policy.antt =====
-- internal/users/policy.go: the permission set of an account, its defaults, and the stored
-- document. encoding/json is a parameter, and so is the type of the documents that it reads and
-- writes. An element of AccessSchedules, which Go leaves untyped, is the text of its JSON.
use atrium_go.Base.{Bool, true, false, Option, none, List, []}
use atrium_go.Base.Int.{ℤ, pos, negsuc}
use atrium_go.Text.{Text, codes}

pub record Policy : Type 0 where
  pub is_administrator : Bool
  pub is_hidden : Bool
  pub enable_collection_management : Bool
  pub enable_subtitle_management : Bool
  pub enable_lyric_management : Bool
  pub is_disabled : Bool
  pub max_parental_rating : Option ℤ
  pub max_parental_sub_rating : Option ℤ
  pub blocked_tags : List Text
  pub allowed_tags : List Text
  pub enable_user_preference_access : Bool
  pub access_schedules : List Text
  pub block_unrated_items : List Text
  pub enable_remote_control_of_other_users : Bool
  pub enable_shared_device_control : Bool
  pub enable_remote_access : Bool
  pub enable_live_tv_management : Bool
  pub enable_live_tv_access : Bool
  pub enable_media_playback : Bool
  pub enable_audio_playback_transcoding : Bool
  pub enable_video_playback_transcoding : Bool
  pub enable_playback_remuxing : Bool
  pub force_remote_source_transcoding : Bool
  pub enable_content_deletion : Bool
  pub enable_content_deletion_from_folders : List Text
  pub enable_content_downloading : Bool
  pub enable_sync_transcoding : Bool
  pub enable_media_conversion : Bool
  pub enabled_devices : List Text
  pub enable_all_devices : Bool
  pub enabled_channels : List Text
  pub enable_all_channels : Bool
  pub enabled_folders : List Text
  pub enable_all_folders : Bool
  pub invalid_login_attempt_count : ℤ
  pub login_attempts_before_lockout : ℤ
  pub max_active_sessions : ℤ
  pub enable_public_sharing : Bool
  pub blocked_media_folders : List Text
  pub blocked_channels : List Text
  pub remote_client_bitrate_limit : ℤ
  pub authentication_provider_id : Text
  pub password_reset_provider_id : Text
  pub sync_play_access : Text

abbrev pub default_authentication_provider_id : Text
default_authentication_provider_id =
    codes "Jellyfin.Server.Implementations.Users.DefaultAuthenticationProvider"

abbrev pub default_password_reset_provider_id : Text
default_password_reset_provider_id =
    codes "Jellyfin.Server.Implementations.Users.DefaultPasswordResetProvider"

abbrev pub sync_play_create_and_join_groups : Text
sync_play_create_and_join_groups = codes "CreateAndJoinGroups"

unfoldable pub default_policy : Policy
default_policy = record {
  is_administrator = false;
  is_hidden = true;
  enable_collection_management = false;
  enable_subtitle_management = false;
  enable_lyric_management = false;
  is_disabled = false;
  max_parental_rating = none;
  max_parental_sub_rating = none;
  blocked_tags = [];
  allowed_tags = [];
  enable_user_preference_access = true;
  access_schedules = [];
  block_unrated_items = [];
  enable_remote_control_of_other_users = false;
  enable_shared_device_control = true;
  enable_remote_access = true;
  enable_live_tv_management = true;
  enable_live_tv_access = true;
  enable_media_playback = true;
  enable_audio_playback_transcoding = true;
  enable_video_playback_transcoding = true;
  enable_playback_remuxing = true;
  force_remote_source_transcoding = false;
  enable_content_deletion = false;
  enable_content_deletion_from_folders = [];
  enable_content_downloading = true;
  enable_sync_transcoding = true;
  enable_media_conversion = true;
  enabled_devices = [];
  enable_all_devices = true;
  enabled_channels = [];
  enable_all_channels = true;
  enabled_folders = [];
  enable_all_folders = true;
  invalid_login_attempt_count = pos 0;
  login_attempts_before_lockout = negsuc 0;
  max_active_sessions = pos 0;
  enable_public_sharing = true;
  blocked_media_folders = [];
  blocked_channels = [];
  remote_client_bitrate_limit = pos 0;
  authentication_provider_id = default_authentication_provider_id;
  password_reset_provider_id = default_password_reset_provider_id;
  sync_play_access = sync_play_create_and_join_groups;
}

-- `json.Unmarshal` of a document over a policy, and `json.Marshal`.
pub record Codec (Document : Type 0) : Type 0 where
  pub unmarshal : Document → Policy → Option Policy
  pub marshal : Policy → Option Document

module _ {Document : Type 0} (json : Codec Document) where
  -- `DecodePolicy`: a property that the document does not carry keeps its default.
  unfoldable pub decode_policy : Document → Option Policy
  decode_policy document = json.unmarshal document default_policy

  -- `Policy.Document`.
  unfoldable pub document : Policy → Option Document
  document p = json.marshal p
