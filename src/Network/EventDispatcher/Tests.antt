-- ===== src/Network/EventDispatcher/Tests.antt =====
-- Two subscribers that record the process ids of the events.
use data_exfiltration_detect.Common.{ℕ, ◌≡◌, refl, List, [], ◌∷◌, ◌++◌, foldl, some}
use data_exfiltration_detect.Common.Text.{codes}
use data_exfiltration_detect.Network.Types.{
  ConnectionState, ProtocolType, ConnectionEvent, ConnectionEventType,
}
use data_exfiltration_detect.Network.EventDispatcher.{EventHandler, subscribe, dispatch}
use data_exfiltration_detect.Network.EventDispatcher.Laws.{own, others, dispatch-own}

abbrev event : ℕ → ConnectionEvent
event process_id = record {
  type = ConnectionEventType.created;
  connection = record {
    process_id = process_id;
    local_address = codes "10.0.0.5";
    local_port = 50000;
    remote_address = codes "93.184.216.34";
    remote_port = 443;
    protocol = ProtocolType.tcp;
    state = ConnectionState.established;
    timestamp = 100;
  };
  timestamp = 100;
}

abbrev recorder : EventHandler (List ℕ)
recorder e seen = seen ++ (e.connection.process_id ∷ [])

records : dispatch (recorder ∷ recorder ∷ []) (event 7 ∷ event 8 ∷ []) [] ≡ 7 ∷ 7 ∷ 8 ∷ 8 ∷ []
unfolding dispatch
records = refl

dispatch-own_example :
    dispatch
      (subscribe (some (own recorder)) (others (recorder ∷ [])) ++ others [])
      (event 7 ∷ event 8 ∷ [])
      ([], [])
    ≡ (
      dispatch ((recorder ∷ []) ++ []) (event 7 ∷ event 8 ∷ []) [],
      foldl (λ x e. recorder e x) [] (event 7 ∷ event 8 ∷ []),
    )
dispatch-own_example = dispatch-own (recorder ∷ []) [] recorder (event 7 ∷ event 8 ∷ []) [] []
