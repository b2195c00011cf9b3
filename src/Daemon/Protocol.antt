-- ===== src/Daemon/Protocol.antt =====
-- What the daemon says to the bridge and to its clients
-- (services/hearthdeck-protocol/src/lib.rs).
use hearthdeck.Prelude.{ℕ, Option, List, String}
use hearthdeck.Input.Protocol.{InputProfile}

pub data StremioMediaType : Type 0 where
  movie series : StremioMediaType

pub data HeroicRunner : Type 0 where
  legendary gog : HeroicRunner

pub data BridgeRequest : Type 0 where
  health : BridgeRequest
  discover_applications : (source_id : String) → BridgeRequest
  launch_application : (source_id application_id session_id : String) → InputProfile → BridgeRequest
  launch_stremio_title :
      (application_id video_id : String)
      → StremioMediaType
      → (session_id : String) → InputProfile
      → BridgeRequest
  launch_heroic_game :
      HeroicRunner → (application_id session_id : String) → InputProfile → BridgeRequest
  launch_retro_game : (core_path rom_path session_id : String) → InputProfile → BridgeRequest
  install_retro_cores : (packages : List String) → BridgeRequest
  active_application_session : BridgeRequest
  stop_active_application_session : BridgeRequest
  stop_application_session : (session_id : String) → BridgeRequest

pub data ApplicationSessionState : Type 0 where
  running : ApplicationSessionState

pub record ApplicationSession : Type 0 where
  pub id : String
  pub source_id : String
  pub application_id : String
  pub state : ApplicationSessionState

pub data ApplicationSource : Type 0 where
  system local flatpak snap nix : ApplicationSource

pub record DiscoveredApplication : Type 0 where
  pub application_id : String
  pub name : String
  pub comment : Option String
  pub icon : Option String
  pub categories : List String
  pub launch_scheme : Option String
  pub source : ApplicationSource

pub record RetroCoreInstallFailure : Type 0 where
  pub «package» : String
  pub reason : String

pub record RetroCoreInstallReport : Type 0 where
  pub installed : List String
  pub failed : List RetroCoreInstallFailure

pub data BridgeErrorCode : Type 0 where
  invalid_request not_found launch_failed internal : BridgeErrorCode

pub data BridgeResponse : Type 0 where
  is_healthy : (version : String) → BridgeResponse
  applications : (source_id : String) → List DiscoveredApplication → BridgeResponse
  launch_accepted : ApplicationSession → BridgeResponse
  application_session : Option ApplicationSession → BridgeResponse
  stop_accepted : (session_id : String) → BridgeResponse
  retro_cores_installed : RetroCoreInstallReport → BridgeResponse
  error : BridgeErrorCode → (message : String) → BridgeResponse

pub data ServerEvent : Type 0 where
  library_changed : (source_id : String) (record_count : ℕ) → ServerEvent
  metadata_changed : (provider_id : String) (record_count : ℕ) → ServerEvent
  application_session_changed : Option ApplicationSession → ServerEvent
  categorization_changed : (categorizer : String) (app_count categories : ℕ) → ServerEvent

-- A play's snapshot; `Value` is the type of a JSON value.
pub record ActivityEntry (Value : Type 0) : Type 0 where
  pub id : String
  pub title : String
  pub icon : Option String
  pub categories : List String
  pub kind : Option String
  pub source : String
  pub metadata : Value

pub record RecentActivity (Value : Type 0) : Type 0 where
  pub entry : ActivityEntry Value
  pub last_launched_at : String
  pub launch_count : ℕ
