-- ===== src/Process/Samples.antt =====
-- Events that the tests of the timeline share.
use data_exfiltration_detect.Common.{ℕ, List, [], ◌∷◌}
use data_exfiltration_detect.Common.Text.{Text, codes}
use data_exfiltration_detect.Network.Types.{ProtocolType}
use data_exfiltration_detect.Process.Types.{ProcessActivityEvent, upload_activity}

abbrev pub event_at : ℕ → ℕ → Text → ProcessActivityEvent
event_at timestamp process_id remote_address = record {
  timestamp = timestamp;
  process_id = process_id;
  process_name = codes "curl";
  event_type = upload_activity;
  local_address = [];
  remote_address = remote_address;
  protocol = ProtocolType.tcp;
  uploaded_bytes = 10;
  downloaded_bytes = 0;
  description = codes "Upload Activity Detected";
}

-- Three events out of order.
abbrev pub late : ProcessActivityEvent
late = event_at 300 7 (codes "1.1.1.1:443")

abbrev pub early : ProcessActivityEvent
early = event_at 100 8 (codes "8.8.8.8:53")

abbrev pub middle : ProcessActivityEvent
middle = event_at 200 7 (codes "1.1.1.1:80")

abbrev pub mixed : List ProcessActivityEvent
mixed = late ∷ early ∷ middle ∷ []
