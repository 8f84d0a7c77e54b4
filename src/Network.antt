-- ===== src/Network.antt =====
-- The namespace `network` (src/network): connections, their trackers, addresses, and DNS
-- resolution.
pub mod Types
pub mod ConnectionTracker
pub mod NetworkUtils
pub mod TransferStats
pub mod Floats
pub mod Formatting
pub mod BandwidthStats
pub mod TransferRateTracker
pub mod UploadTracker
pub mod DownloadTracker
pub mod DnsCache
pub mod DomainResolver
pub mod ConnectionAttributor
pub mod RemoteEndpointIdentifier
pub mod Metadata
pub mod ProtocolPortAnalyzer
pub mod EventDispatcher
pub mod NetworkMonitor
pub mod EndpointReports
