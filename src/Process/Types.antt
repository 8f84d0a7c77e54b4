-- ===== src/Process/Types.antt =====
-- The data of src/process/models and src/process/events.
use data_exfiltration_detect.Common.{ℕ}
use data_exfiltration_detect.Common.Text.{Text, codes}
use data_exfiltration_detect.Network.Types.{ProtocolType}

pub data ProcessStatus : Type 0 where
  running terminated : ProcessStatus

pub record ProcessInfo : Type 0 where
  pub process_id : ℕ
  pub process_name : Text
  pub parent_process_id : ℕ
  pub status : ProcessStatus

pub data ProcessEventType : Type 0 where
  created terminated : ProcessEventType

pub record ProcessEvent : Type 0 where
  pub type : ProcessEventType
  pub process_info : ProcessInfo
  pub timestamp : ℕ

pub data ProcessActivityEventType : Type 0 where
  process_seen connection_opened upload_activity download_activity : ProcessActivityEventType
  connection_closed suspicious_activity : ProcessActivityEventType

pub record ProcessActivityEvent : Type 0 where
  pub timestamp : ℕ
  pub process_id : ℕ
  pub process_name : Text
  pub event_type : ProcessActivityEventType
  pub local_address : Text
  pub remote_address : Text
  pub protocol : ProtocolType
  pub uploaded_bytes : ℕ
  pub downloaded_bytes : ℕ
  pub description : Text

-- `static_cast<int>(type)`.
unfoldable pub event_type_index : ProcessActivityEventType → ℕ
event_type_index process_seen = 0
event_type_index connection_opened = 1
event_type_index upload_activity = 2
event_type_index download_activity = 3
event_type_index connection_closed = 4
event_type_index suspicious_activity = 5

unfoldable pub event_type_to_string : ProcessActivityEventType → Text
event_type_to_string process_seen = codes "process_seen"
event_type_to_string connection_opened = codes "connection_opened"
event_type_to_string upload_activity = codes "upload_activity"
event_type_to_string download_activity = codes "download_activity"
event_type_to_string connection_closed = codes "connection_closed"
event_type_to_string suspicious_activity = codes "suspicious_activity"

unfoldable pub default_description : ProcessActivityEventType → Text
default_description process_seen = codes "Process Started"
default_description connection_opened = codes "Network Connection Opened"
default_description upload_activity = codes "Upload Activity Detected"
default_description download_activity = codes "Download Activity Detected"
default_description connection_closed = codes "Connection Closed"
default_description suspicious_activity = codes "Suspicious Activity Detected"
