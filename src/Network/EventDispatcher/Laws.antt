-- ===== src/Network/EventDispatcher/Laws.antt =====
-- EventDispatcher.cpp: every subscriber sees every event, in order.
use data_exfiltration_detect.Common.{◌≡◌, refl, sym, ap, ◌∙◌, List, [], ◌∷◌, ◌++◌, map, foldl, some}
use data_exfiltration_detect.Network.Types.{ConnectionEvent}
use data_exfiltration_detect.Network.EventDispatcher.{
  EventHandler, subscribe, dispatch_event, dispatch,
}

dispatch_event-append :
    {S : Type 0} (hs hs' : List (EventHandler S)) (e : ConnectionEvent) (s : S)
    → dispatch_event (hs ++ hs') e s ≡ dispatch_event hs' e (dispatch_event hs e s)
unfolding dispatch_event
dispatch_event-append [] hs' e s = refl
dispatch_event-append (h ∷ hs) hs' e s = dispatch_event-append hs hs' e (h e s)

module _ {S T : Type 0} where
  -- A handler with a state of its own, beside that of the others.
  abbrev pub own : EventHandler T → EventHandler (S × T)
  own handler event s = (s.0, handler event s.1)

  -- Handlers that touch the state of the others only.
  abbrev pub others : List (EventHandler S) → List (EventHandler (S × T))
  others = map (λ handler event s. (handler event s.0, s.1))

  dispatch_event-others :
      (hs : List (EventHandler S)) (e : ConnectionEvent) (s : S × T)
      → dispatch_event (others hs) e s ≡ (dispatch_event hs e s.0, s.1)
  unfolding dispatch_event
  dispatch_event-others [] e s = refl
  dispatch_event-others (h ∷ hs) e s = dispatch_event-others hs e (h e s.0, s.1)

  dispatch_event-own :
      (before after : List (EventHandler S)) (handler : EventHandler T) (e : ConnectionEvent)
      (s : S × T)
      → dispatch_event (subscribe (some (own handler)) (others before) ++ others after) e s
        ≡ (dispatch_event (before ++ after) e s.0, handler e s.1)
  unfolding subscribe dispatch_event
  dispatch_event-own before after handler e s =
      let mine : List (EventHandler (S × T)) = own handler ∷ [] in
      let served = dispatch_event before e s.0 in
      dispatch_event-append (others before ++ mine) (others after) e s
      ∙ ap (dispatch_event (others after) e) (
          dispatch_event-append (others before) mine e s
          ∙ ap (dispatch_event mine e) (dispatch_event-others before e s))
      ∙ dispatch_event-others after e (served, handler e s.1)
      ∙ ap (λ x. (x, handler e s.1)) (sym (dispatch_event-append before after e s.0))

  -- Whatever else is subscribed, before it or after it, a subscribed handler with a state of its
  -- own sees every event of a batch, each once, in the order of the batch, and the others see
  -- them as if it were not there.
  pub dispatch-own :
      (before after : List (EventHandler S)) (handler : EventHandler T)
      (events : List ConnectionEvent) (s : S) (t : T)
      → dispatch (subscribe (some (own handler)) (others before) ++ others after) events (s, t)
        ≡ (dispatch (before ++ after) events s, foldl (λ x e. handler e x) t events)
  unfolding dispatch
  dispatch-own before after handler [] s t = refl
  dispatch-own before after handler (e ∷ events) s t =
      ap (dispatch (subscribe (some (own handler)) (others before) ++ others after) events)
        (dispatch_event-own before after handler e (s, t))
      ∙ dispatch-own before after handler events (dispatch_event (before ++ after) e s)
          (handler e t)
