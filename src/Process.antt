-- ===== src/Process.antt =====
-- The namespace `process` (src/process): processes, their tracker, and the activity timeline.
pub mod Types
mod Samples
pub mod ProcessTracker
pub mod Ordering
pub mod TimelineEventHistory
pub mod ProcessTimelineBuilder
pub mod TimelineQuery
pub mod TimelineSummaryBuilder
pub mod TimelineEventCollector
pub mod ProcessMonitor
pub mod ActivityReports
