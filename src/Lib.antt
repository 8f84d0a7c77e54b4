-- ===== src/Lib.antt =====
-- The data exfiltration detection engine: what it tracks of processes and connections, and the
-- timeline of activity that it builds. This library models the logic of the C++ sources under
-- src/network and src/process, one file per component, and proves what makes each correct.
--
-- How the program fits together. The collectors src/network/collectors/NetworkMonitor.cpp
-- (Network/NetworkMonitor) and src/process/collectors/ProcessMonitor.cpp (Process/ProcessMonitor)
-- read the tables of the operating system into snapshots. The trackers compare each snapshot with
-- the one before: src/process/tracker/ProcessTracker.cpp (Process/ProcessTracker) and
-- src/network/tracker/ConnectionTracker.cpp (Network/ConnectionTracker) report what appeared and
-- what went, and src/network/tracker/UploadTracker.cpp and DownloadTracker.cpp
-- (Network/UploadTracker, Network/DownloadTracker) add up the bytes of each connection.
-- src/network/tracker/TransferRateTracker.cpp does both at once, with rates, and sums up by process
-- (Network/TransferRateTracker: State and Rows for a connection, Aggregates for a process, Updates
-- for the whole). src/network/events/EventDispatcher.cpp (Network/EventDispatcher) hands the
-- connection events to subscribers. src/network/utils/NetworkUtils.cpp (Network/NetworkUtils)
-- validates addresses, and src/network/intelligence/DomainResolver.cpp (Network/DomainResolver)
-- names them, over the cache of src/network/cache/DnsCache.cpp (Network/DnsCache).
-- src/network/attribution/ConnectionAttributor.cpp (Network/ConnectionAttributor) joins connections
-- with what is last known of their processes, and
-- src/network/intelligence/RemoteEndpointIdentifier.cpp (Network/RemoteEndpointIdentifier) picks
-- the endpoints that the resolver is asked about. What the trackers report flows into the timeline:
-- src/process/tracker/TimelineEventCollector.cpp (Process/TimelineEventCollector) stores each
-- activity once, TimelineEventHistory.cpp (Process/TimelineEventHistory) keeps the newest ones,
-- ProcessTimelineBuilder.cpp (Process/ProcessTimelineBuilder) arranges them by time and by process,
-- and TimelineQuery.cpp (Process/TimelineQuery) filters them, and TimelineSummaryBuilder.cpp
-- (Process/TimelineSummaryBuilder) sums them up. For the user,
-- src/network/intelligence/ProtocolPortAnalyzer.cpp (Network/ProtocolPortAnalyzer) profiles ports,
-- src/network/models/ConnectionMetadata.cpp and DataTransferMetadata.cpp (Network/Metadata) join
-- what is known of a connection, and Network/EndpointReports, Process/ActivityReports and the
-- formatting half of src/network/utils/NetworkUtils.cpp (Network/Formatting) print. Network/Types,
-- Network/TransferStats, Network/BandwidthStats and Process/Types hold the records and enumerations
-- of the models and events directories; Process/Ordering holds the comparison that three of the
-- timeline's files declare alike.
--
-- How the model reads the code. An object is a record of its members, and an operation a function
-- that returns the new object beside its result; names are those of the source in snake case. A
-- std::string is its list of bytes. Ports, process ids and byte counters are natural numbers; the
-- totals of the transfer trackers wrap around at 2 ^ 64, and sizes of containers do not wrap. A
-- time point is its count of clock ticks since the epoch, so that the default time point is 0;
-- times before the epoch and negative durations are not modelled. Every reading of the clock is an
-- argument. An unordered map is an association list, and a loop over one visits its entries in an
-- order that is an argument, any permutation of them (Common/Maps); an unordered set is the list of
-- its keys. std::stable_sort is a stable insertion sort (Common/Sorting). A result by out-parameter
-- and Boolean is an option. The loops that all trackers share, over the rows of a snapshot and over
-- the entries of a map, are in Common/Snapshots and Common/Statistics.
--
-- Parameters. What the operating system answers is an argument: the connection tables and their
-- counters (the record Windows), the walk through the processes (Toolhelp), and the name service
-- (NameService). The arithmetic of double is an interface (Floats, and HasOrder for its order laws,
-- in Network/Floats), with its print (Printing, in Network/Formatting); whole numbers fill the
-- first. The print of a time of day is a function argument. The lookup function of the resolver is
-- a parameter, as it is in the program, and a handler of the dispatcher is a change of the
-- subscribers' state.
--
-- Fuel. All loops are structural but three. The decimal print of a number has one more than the
-- number, and so more than its digits. The walk through the processes ends when the operating
-- system says so: its fuel is an argument, and a result without a list is fuel that ran out. The
-- scaling of a printed number has three rounds, as many as its loop can make.
--
-- Not modelled: formatTimestamp of src/process/events/ProcessActivityEvent.cpp, which prints
-- through the C library's calendar; starting Winsock, which gives no result; the enabling of a
-- connection's counters and the closing of a handle, whose effect lies in the operating system; a
-- handler of the dispatcher that throws, which would keep the event from the later subscribers, or
-- that subscribes another while an event is dispatched; the tests.
pub mod Common
pub mod Network
pub mod Process
