-- ===== src/Process/TimelineQuery.antt =====
-- src/process/tracker/TimelineQuery.h and .cpp.
pub mod Laws
pub mod Hosts
mod Tests
use data_exfiltration_detect.Common.{
  ℕ, ◌+◌, ◌-◌, List, [], ◌∷◌, Bool, true, false, not, ◌&&◌, ◌||◌, Option, none, some, ◌==◌,
  if◌then◌else◌, length, is_empty, take, drop, keep_if,
}
use data_exfiltration_detect.Common.Text.{Text, text_equal, contains_text, find_text, find_last_of}
use data_exfiltration_detect.Network.NetworkUtils.{is_digit, all_bytes}
use data_exfiltration_detect.Process.Types.{
  ProcessActivityEvent, ProcessActivityEventType, event_type_index,
}
use data_exfiltration_detect.Process.Ordering.{sort_events}
use data_exfiltration_detect.Process.TimelineEventHistory.{TimelineEventHistory, get_recent, newest}
use data_exfiltration_detect.Process.ProcessTimelineBuilder.{ProcessTimelineBuilder}

pub record TimelineQuery : Type 0 where
  pub events : List ProcessActivityEvent

-- The constructor from a history: all its events.
unfoldable pub from_history : TimelineEventHistory → TimelineQuery
from_history h = record { events = get_recent h 0 }

-- The constructor from a builder.
unfoldable pub from_builder : ProcessTimelineBuilder → TimelineQuery
from_builder b = record { events = b.global_timeline }

-- A trailing numeric port is cut off; `none` of a search is the early return of the endpoint.
cut_port : Text → Option ℕ → Text
unfolding all_bytes is_digit
cut_port endpoint none = endpoint
cut_port endpoint (some colon) =
    if is_empty (drop (colon + 1) endpoint)
    then endpoint
    else if all_bytes is_digit (drop (colon + 1) endpoint)
    then take colon endpoint
    else endpoint

-- The part between the brackets of `[host]:port`.
cut_brackets : Text → Option ℕ → Text
cut_brackets endpoint none = endpoint
cut_brackets endpoint (some closing) = take (closing - 1) (drop 1 endpoint)

unfoldable pub host_from_endpoint : Text → Text
unfolding cut_port cut_brackets find_text find_last_of
host_from_endpoint [] = []
host_from_endpoint (c ∷ text) =
    if c == b'['
    then cut_brackets (c ∷ text) (find_text (b']' ∷ []) (c ∷ text))
    else cut_port (c ∷ text) (find_last_of b':' (c ∷ text))

unfoldable pub matches_remote_destination : ProcessActivityEvent → Text → Bool
matches_remote_destination event query =
    let event_host = host_from_endpoint event.remote_address in
    let query_host = host_from_endpoint query in
    text_equal event.remote_address query
    || not (is_empty event_host) && text_equal event_host query_host
    || not (is_empty event.remote_address) && contains_text query event.remote_address
    || not (is_empty event.description) && contains_text query event.description

unfoldable pub by_process_id : TimelineQuery → ℕ → List ProcessActivityEvent
by_process_id q process_id =
    sort_events (keep_if (λ (e : ProcessActivityEvent). e.process_id == process_id) q.events)

unfoldable pub by_process_name : TimelineQuery → Text → List ProcessActivityEvent
by_process_name q process_name =
    sort_events
      (keep_if (λ (e : ProcessActivityEvent). text_equal e.process_name process_name) q.events)

unfoldable pub by_remote_destination : TimelineQuery → Text → List ProcessActivityEvent
by_remote_destination q query =
    if is_empty query
    then []
    else sort_events (keep_if (λ e. matches_remote_destination e query) q.events)

unfoldable pub by_event_type : TimelineQuery → ProcessActivityEventType → List ProcessActivityEvent
by_event_type q event_type = sort_events (
    keep_if
      (λ (e : ProcessActivityEvent). event_type_index e.event_type == event_type_index event_type)
      q.events)

unfoldable pub recent : TimelineQuery → ℕ → List ProcessActivityEvent
recent q count = newest count (sort_events q.events)

unfoldable pub size : TimelineQuery → ℕ
size q = length q.events
