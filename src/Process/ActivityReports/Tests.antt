-- ===== src/Process/ActivityReports/Tests.antt =====
-- Durations, and the summary of a process with several events.
use data_exfiltration_detect.Common.{◌≡◌, refl}
use data_exfiltration_detect.Common.Text.{codes}
use data_exfiltration_detect.Process.Samples.{mixed}
use data_exfiltration_detect.Process.TimelineSummaryBuilder.{TimelineSummaryBuilder}
use data_exfiltration_detect.Process.ActivityReports.{format_duration}

formats_durations :
    (format_duration 0 ≡ codes "less than a minute")
    × (format_duration 1 ≡ codes "1 second")
    × (format_duration 59 ≡ codes "59 seconds")
    × (format_duration 720 ≡ codes "12 minutes")
    × (format_duration 3600 ≡ codes "1 hour")
    × (format_duration 7325 ≡ codes "2 hours 2 minutes")
unfolding format_duration
formats_durations = (refl, refl, refl, refl, refl, refl)

abbrev builder : TimelineSummaryBuilder
builder = record { events = mixed }
