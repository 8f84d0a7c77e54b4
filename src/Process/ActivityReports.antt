-- ===== src/Process/ActivityReports.antt =====
-- src/process/models/ProcessActivitySummary.cpp and ProcessInfo.cpp, and the printing members of
-- src/process/events/ProcessActivityEvent.cpp and ProcessEvent.cpp. The number of clock ticks in a second, the print of a
-- time of day (gmtime and put_time), and the arithmetic behind `formatBytes` are arguments.
pub mod Laws
mod Tests
use data_exfiltration_detect.Common.{
  ℕ, ◌-◌, ◌/◌, ◌%◌, List, [], ◌∷◌, ◌++◌, Bool, true, false, ◌&&◌, ◌==◌, ltb, is_empty,
  if◌then◌else◌,
}
use data_exfiltration_detect.Common.Text.{Text, codes, to_decimal}
use data_exfiltration_detect.Network.NetworkUtils.Addresses.{protocol_to_string}
use data_exfiltration_detect.Network.Formatting.{Printing, format_bytes, name_or_unknown}
use data_exfiltration_detect.Process.Types.{
  ProcessStatus, ProcessInfo, ProcessEvent, ProcessActivityEvent, event_type_to_string,
  default_description,
}
use data_exfiltration_detect.Process.TimelineSummaryBuilder.{ProcessActivitySummary}

unfoldable pub status_to_string : ProcessStatus → Text
status_to_string ProcessStatus.running = codes "Running"
status_to_string ProcessStatus.terminated = codes "Terminated"

unfoldable pub process_info_to_string : ProcessInfo → Text
unfolding status_to_string to_decimal
process_info_to_string info =
    codes "PID: "
    ++ (to_decimal info.process_id
        ++ (codes "\nProcess: "
            ++ (info.process_name ++ (codes "\nStatus: " ++ status_to_string info.status))))

-- `ProcessEvent::toString`.
unfoldable pub process_event_to_string : ProcessEvent → Text
unfolding process_info_to_string
process_event_to_string event = process_info_to_string event.process_info

-- In seconds; `duration_cast` cuts off what is below a second.
unfoldable pub active_duration : ℕ → ProcessActivitySummary → ℕ
active_duration ticks_per_second s =
    if s.first_seen == 0 && s.last_seen == 0
    then 0
    else if ltb s.last_seen s.first_seen
    then 0
    else (s.last_seen - s.first_seen) / ticks_per_second

unfoldable pub is_empty_summary : ProcessActivitySummary → Bool
is_empty_summary s =
    s.process_id == 0
    && is_empty s.process_name
    && s.remote_endpoint_count == 0
    && s.connection_open_count == 0
    && s.total_uploaded_bytes == 0
    && s.total_downloaded_bytes == 0
    && is_empty s.most_active_destination
    && is_empty s.behavior_hints
    && s.first_seen == 0
    && s.last_seen == 0

-- A count with its unit, in the singular for 1.
abbrev pub counted : ℕ → Text → Text
counted n unit = to_decimal n ++ (unit ++ (if n == 1 then [] else codes "s"))

-- A duration below zero, which `activeDuration` never gives, would print as zero does.
unfoldable pub format_duration : ℕ → Text
unfolding to_decimal
format_duration total_seconds =
    let total_minutes = total_seconds / 60 in
    let hours = total_minutes / 60 in
    let minutes = total_minutes % 60 in
    if total_seconds == 0
    then codes "less than a minute"
    else if ltb total_seconds 60
    then counted total_seconds (codes " second")
    else if ltb total_minutes 60
    then counted total_minutes (codes " minute")
    else counted hours (codes " hour")
      ++ (if ltb 0 minutes then codes " " ++ counted minutes (codes " minute") else [])

-- `for (const std::string& hint : behaviorHints) out << prefix << hint;`
unfoldable pub hint_lines : Text → List Text → Text
hint_lines prefix [] = []
hint_lines prefix (hint ∷ hints) = prefix ++ (hint ++ hint_lines prefix hints)

module _ {Double : Type 0} (p : Printing Double) (ticks_per_second : ℕ) where
  unfoldable pub to_summary_string : ProcessActivitySummary → Text
  unfolding is_empty_summary format_duration active_duration hint_lines format_bytes to_decimal
  to_summary_string s =
      let name =
        if is_empty s.process_name
        then codes "PID " ++ to_decimal s.process_id
        else s.process_name in
      let destination =
        if is_empty s.most_active_destination
        then []
        else codes "\nMost active destination: " ++ (s.most_active_destination ++ codes ".") in
      if is_empty_summary s
      then codes "No process activity to summarize."
      else name
        ++ (codes " was active for "
            ++ (format_duration (active_duration ticks_per_second s)
                ++ (codes ".\nIt connected to "
                    ++ (counted s.remote_endpoint_count (codes " remote endpoint")
                        ++ (codes ".\nTotal upload: "
                            ++ (format_bytes p s.total_uploaded_bytes
                                ++ (codes ".\nTotal download: "
                                    ++ (format_bytes p s.total_downloaded_bytes
                                        ++ (codes "."
                                            ++ (destination
                                                ++ hint_lines (codes "\nHint: ")
                                                    s.behavior_hints))))))))))

  unfoldable pub summary_to_string : ProcessActivitySummary → Text
  unfolding format_duration active_duration hint_lines format_bytes to_decimal
  summary_to_string s =
      codes "Process:\n"
      ++ ((if is_empty s.process_name then codes "(unknown)" else s.process_name)
          ++ (codes "\n\nPID:\n"
              ++ (to_decimal s.process_id
                  ++ (codes "\n\nActive Duration:\n"
                      ++ (format_duration (active_duration ticks_per_second s)
                          ++ (codes "\n\nRemote Endpoints:\n"
                              ++ (to_decimal s.remote_endpoint_count
                                  ++ (codes "\n\nConnections Opened:\n"
                                      ++ (to_decimal s.connection_open_count
                                          ++ (codes "\n\nUploaded:\n"
                                              ++ (format_bytes p s.total_uploaded_bytes
                                                  ++ (codes "\n\nDownloaded:\n"
                                                      ++ (format_bytes p s.total_downloaded_bytes
                                                          ++ (codes "\n\nMost Active Destination:\n"
                                                            ++ ((if is_empty
                                                            s.most_active_destination
                                                            then codes "(none)"
                                                            else s.most_active_destination)
                                                            ++ (if is_empty s.behavior_hints
                                                            then []
                                                            else codes "\n\nBehavior Hints:"
                                                            ++ hint_lines (codes "\n- ")
                                                            s.behavior_hints))))))))))))))))

-- `description.empty() ? defaultDescription(eventType) : description`.
unfoldable pub event_text : ProcessActivityEvent → Text
unfolding default_description
event_text e = if is_empty e.description then default_description e.event_type else e.description

unfoldable pub to_timeline_string : (ℕ → Text) → ProcessActivityEvent → Text
unfolding event_text
to_timeline_string format_timestamp e = format_timestamp e.timestamp ++ (codes " " ++ event_text e)

unfoldable pub event_to_string :
    {Double : Type 0} → Printing Double → (ℕ → Text) → ProcessActivityEvent → Text
unfolding event_text event_type_to_string protocol_to_string format_bytes name_or_unknown to_decimal
event_to_string p format_timestamp e =
    codes "Timestamp:\n"
    ++ (format_timestamp e.timestamp
        ++ (codes "\n\nPID:\n"
            ++ (to_decimal e.process_id
                ++ (codes "\n\nProcess:\n"
                    ++ (name_or_unknown e.process_name
                        ++ (codes "\n\nEvent Type:\n"
                            ++ (event_type_to_string e.event_type
                                ++ (codes "\n\nLocal Address:\n"
                                    ++ (e.local_address
                                        ++ (codes "\n\nRemote Address:\n"
                                            ++ (e.remote_address
                                                ++ (codes "\n\nProtocol:\n"
                                                    ++ (protocol_to_string e.protocol
                                                        ++ (codes "\n\nUploaded:\n"
                                                            ++ (format_bytes p e.uploaded_bytes
                                                            ++ (codes "\n\nDownloaded:\n"
                                                            ++ (format_bytes p e.downloaded_bytes
                                                            ++ (codes "\n\nDescription:\n"
                                                            ++ event_text e))))))))))))))))))
