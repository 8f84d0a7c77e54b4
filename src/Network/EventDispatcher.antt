-- ===== src/Network/EventDispatcher.antt =====
-- src/network/events/EventDispatcher.h and .cpp. A handler, which is code of a subscriber, is a change
-- of the state that the subscribers share; the empty `std::function` is `none`. A handler
-- returns: one that throws would end the dispatch, and is not modelled.
pub mod Laws
mod Tests
use data_exfiltration_detect.Common.{List, [], ◌∷◌, ◌++◌, Option, none, some}
use data_exfiltration_detect.Network.Types.{ConnectionEvent}

abbrev pub EventHandler : Type 0 → Type 0
EventHandler S = ConnectionEvent → S → S

module _ {S : Type 0} where
  unfoldable pub subscribe : Option (EventHandler S) → List (EventHandler S) → List (EventHandler S)
  subscribe none handlers = handlers
  subscribe (some handler) handlers = handlers ++ (handler ∷ [])

  -- `dispatch` of one event.
  unfoldable pub dispatch_event : List (EventHandler S) → ConnectionEvent → S → S
  dispatch_event [] event s = s
  dispatch_event (handler ∷ handlers) event s = dispatch_event handlers event (handler event s)

  -- `dispatch` of a batch.
  unfoldable pub dispatch : List (EventHandler S) → List ConnectionEvent → S → S
  unfolding dispatch_event
  dispatch handlers [] s = s
  dispatch handlers (event ∷ events) s = dispatch handlers events (dispatch_event handlers event s)

  unfoldable pub clear : List (EventHandler S) → List (EventHandler S)
  clear handlers = []
