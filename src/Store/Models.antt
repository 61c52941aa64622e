-- ===== src/Store/Models.antt =====
-- internal/store/models.go. Sizes, counts and times are natural numbers; the zero time is 0.
use ocp_offline.Prelude.{ℕ, Text, Bool}

pub record SyncRun : Type 0 where
  pub id : ℕ
  pub provider : Text
  pub start_time : ℕ
  pub end_time : ℕ
  pub files_downloaded : ℕ
  pub files_deleted : ℕ
  pub files_skipped : ℕ
  pub files_failed : ℕ
  pub bytes_transferred : ℕ
  pub status : Text
  pub error_message : Text

pub record FileRecord : Type 0 where
  pub id : ℕ
  pub provider : Text
  pub path : Text
  pub size : ℕ
  pub sha256 : Text
  pub last_modified : ℕ
  pub last_verified : ℕ
  pub sync_run_id : ℕ

pub record Job : Type 0 where
  pub id : ℕ
  pub kind : Text
  pub provider : Text
  pub cron_expr : Text
  pub status : Text
  pub last_run : ℕ
  pub next_run : ℕ
  pub created_at : ℕ
  pub updated_at : ℕ

pub record Transfer : Type 0 where
  pub id : ℕ
  pub direction : Text
  pub path : Text
  pub providers : Text
  pub archive_count : ℕ
  pub total_size : ℕ
  pub manifest_hash : Text
  pub status : Text
  pub error_message : Text
  pub start_time : ℕ
  pub end_time : ℕ

pub record TransferArchive : Type 0 where
  pub id : ℕ
  pub transfer_id : ℕ
  pub archive_name : Text
  pub sha256 : Text
  pub size : ℕ
  pub validated : Bool
  pub validated_at : ℕ

pub record FailedFileRecord : Type 0 where
  pub id : ℕ
  pub provider : Text
  pub file_path : Text
  pub url : Text
  pub dest_path : Text
  pub expected_checksum : Text
  pub expected_size : ℕ
  pub error : Text
  pub retry_count : ℕ
  pub first_failure : ℕ
  pub last_failure : ℕ
  pub resolved : Bool

pub record ProviderConfig : Type 0 where
  pub id : ℕ
  pub name : Text
  pub kind : Text
  pub enabled : Bool
  pub config_json : Text
  pub created_at : ℕ
  pub updated_at : ℕ
