-- ===== src/Network/EndpointReports.antt =====
-- The printing members of src/network/models/RemoteEndpoint.cpp and ResolvedEndpoint.cpp, of
-- src/network/attribution/AttributedConnection.cpp, and of src/network/events/ConnectionEvent.cpp.
use data_exfiltration_detect.Common.{[], ◌++◌, not, ◌&&◌, ◌==◌, is_empty, if◌then◌else◌}
use data_exfiltration_detect.Common.Text.{Text, codes, to_decimal}
use data_exfiltration_detect.Network.Types.{
  ProtocolType, Connection, ConnectionEventType, ConnectionEvent,
}
use data_exfiltration_detect.Network.NetworkUtils.Addresses.{address_family_to_string}
use data_exfiltration_detect.Network.Formatting.{name_or_unknown}
use data_exfiltration_detect.Network.DomainResolver.{
  RemoteEndpoint, ResolvedEndpoint, ResolutionStatus,
}
use data_exfiltration_detect.Network.ConnectionAttributor.{AttributedConnection}

unfoldable pub remote_endpoint_to_string : RemoteEndpoint → Text
unfolding name_or_unknown address_family_to_string
remote_endpoint_to_string endpoint =
    codes "Process:\n"
    ++ (name_or_unknown endpoint.process_name
        ++ (codes "\n\nRemote IP:\n"
            ++ (endpoint.remote_ip
                ++ (codes "\n\nAddress Family:\n"
                    ++ address_family_to_string endpoint.address_family))))

unfoldable pub resolution_status_to_string : ResolutionStatus → Text
resolution_status_to_string ResolutionStatus.resolved = codes "Resolved"
resolution_status_to_string ResolutionStatus.not_found = codes "NotFound"
resolution_status_to_string ResolutionStatus.failed = codes "Failed"
resolution_status_to_string ResolutionStatus.invalid_ip = codes "InvalidIp"
resolution_status_to_string ResolutionStatus.cached = codes "Cached"

unfoldable pub resolved_endpoint_to_string : ResolvedEndpoint → Text
resolved_endpoint_to_string endpoint =
    codes "Remote IP:\n"
    ++ (endpoint.remote_ip ++ (codes "\n\nResolved Domain:\n" ++ endpoint.resolved_domain))

-- `protocolToString` of AttributedConnection.cpp and of ConnectionEvent.cpp, which spell an unknown
-- protocol otherwise than NetworkUtils.cpp does.
unfoldable pub transport_to_string : ProtocolType → Text
transport_to_string ProtocolType.tcp = codes "TCP"
transport_to_string ProtocolType.udp = codes "UDP"
transport_to_string ProtocolType.unknown = codes "UNKNOWN"

unfoldable pub attributed_connection_to_string : AttributedConnection → Text
unfolding transport_to_string to_decimal
attributed_connection_to_string a =
    let c = a.connection in
    codes "Process:\n"
    ++ ((if a.has_process_info && not (is_empty a.process_info.process_name)
          then a.process_info.process_name
          else codes "Unknown")
        ++ (codes "\n\nPID:\n"
            ++ (to_decimal c.process_id
                ++ (codes "\n\nConnection:\n"
                    ++ (transport_to_string c.protocol
                        ++ (codes "\n\nRemote Address:\n"
                            ++ ((if not (is_empty c.remote_address)
                                  then c.remote_address
                                  else c.local_address)
                                ++ (codes "\n\nPort:\n"
                                    ++ (to_decimal (
                                          if not (c.remote_port == 0)
                                          then c.remote_port
                                          else c.local_port)
                                        ++ (if a.process_terminated
                                            then codes "\n\nProcess Status:\nTerminated"
                                            else []))))))))))

-- `formatEndpoint` of ConnectionEvent.cpp: the remote endpoint, or else the local one.
unfoldable pub connection_endpoint : Connection → Text
unfolding to_decimal
connection_endpoint c =
    if not (is_empty c.remote_address)
    then c.remote_address ++ (codes ":" ++ to_decimal c.remote_port)
    else c.local_address ++ (codes ":" ++ to_decimal c.local_port)

-- The label of an event.
unfoldable pub event_label : ConnectionEventType → Text
event_label ConnectionEventType.created = codes "Connection Created"
event_label ConnectionEventType.closed = codes "Connection Closed"

unfoldable pub connection_event_to_string : ConnectionEvent → Text
unfolding event_label transport_to_string connection_endpoint to_decimal
connection_event_to_string event =
    event_label event.type
    ++ (codes ":\nPID "
        ++ (to_decimal event.connection.process_id
            ++ (codes " ["
                ++ (transport_to_string event.connection.protocol
                    ++ (codes "] -> " ++ connection_endpoint event.connection)))))
