-- ===== src/Process/TimelineQuery/Tests.antt =====
-- Queries over three events, and over endpoints that are written and read again.
use data_exfiltration_detect.Common.{◌≡◌, refl, [], ◌∷◌, true, arith, ◌==◌}
use data_exfiltration_detect.Common.Sorting.{stable_sort}
use data_exfiltration_detect.Common.Text.{codes, text_equal, contains_text}
use data_exfiltration_detect.Process.Types.{event_type_index, upload_activity}
use data_exfiltration_detect.Process.Ordering.{IsAnswer, earlier_than}
use data_exfiltration_detect.Process.Samples.{event_at, late, middle, mixed}
use data_exfiltration_detect.Process.TimelineEventHistory.{TimelineEventHistory}
use data_exfiltration_detect.Process.TimelineEventHistory.Queries.{IsRecent}
use data_exfiltration_detect.Process.ProcessTimelineBuilder.{ProcessTimelineBuilder}
use data_exfiltration_detect.Process.TimelineEventCollector.{format_endpoint}
use data_exfiltration_detect.Process.TimelineQuery.{
  TimelineQuery, host_from_endpoint, matches_remote_destination, by_process_id, by_process_name,
  by_remote_destination, by_event_type, recent,
}
use data_exfiltration_detect.Process.TimelineQuery.Laws.{
  to_destination, by-IsAnswer, recent-IsRecent,
}
use data_exfiltration_detect.Process.TimelineQuery.Hosts.{
  host-format_endpoint, matches_remote_destination-format_endpoint,
}

abbrev query : TimelineQuery
query = record { events = mixed }

abbrev history : TimelineEventHistory
history = record { max_events = 10; max_age = 0; events = mixed }

abbrev builder : ProcessTimelineBuilder
builder = record { global_timeline = []; process_timelines = [] }

finds_destination : by_remote_destination query (codes "1.1.1.1") ≡ middle ∷ late ∷ []
unfolding by_remote_destination stable_sort matches_remote_destination text_equal host_from_endpoint
    contains_text earlier_than
finds_destination = refl

by-IsAnswer_example :
    IsAnswer (λ e. e.process_id == 7) query.events (by_process_id query 7)
    × IsAnswer
        (λ e. text_equal e.process_name (codes "1.1.1.1"))
        query.events
        (by_process_name query (codes "1.1.1.1"))
    × IsAnswer
        (to_destination (codes "1.1.1.1"))
        query.events
        (by_remote_destination query (codes "1.1.1.1"))
    × IsAnswer
        (λ e. event_type_index e.event_type == event_type_index upload_activity)
        query.events
        (by_event_type query upload_activity)
by-IsAnswer_example = by-IsAnswer query 7 (codes "1.1.1.1") upload_activity

recent-IsRecent_example : IsRecent 2 query.events (recent query 2)
recent-IsRecent_example = recent-IsRecent query 2

host-format_endpoint_example :
    host_from_endpoint (format_endpoint (codes "8.8.8.8") 53) ≡ codes "8.8.8.8"
host-format_endpoint_example =
    host-format_endpoint b'8' (codes ".8.8.8") 53 (omega arith) (omega arith)

-- The event at `fe80::2` matches the query for `fe80::1`.
matches_other_address :
    matches_remote_destination (event_at 100 7 (codes "fe80::2")) (codes "fe80::1") ≡ true
unfolding matches_remote_destination host_from_endpoint text_equal contains_text
matches_other_address = refl

-- An event at port 443 of an IPv6 address matches the address alone.
matches_remote_destination-format_endpoint_example :
    matches_remote_destination
      (event_at 100 7 (format_endpoint (codes "2001:db8::1") 443))
      (format_endpoint (codes "2001:db8::1") 0)
    ≡ true
matches_remote_destination-format_endpoint_example =
    matches_remote_destination-format_endpoint
      (event_at 100 7 (format_endpoint (codes "2001:db8::1") 443)) b'2' (codes "001:db8::1") 443 0
      (omega arith) (omega arith) refl
