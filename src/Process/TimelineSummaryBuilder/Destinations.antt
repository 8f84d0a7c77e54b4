-- ===== src/Process/TimelineSummaryBuilder/Destinations.antt =====
-- TimelineSummaryBuilder.cpp: the addresses in the map of destinations and in the set of remote
-- endpoints, against the addresses of the events.
use mathlib.Core.List.{lookup, Nodup, Nodup-nil, Nodup-cons, perm_ext_iff_of_Nodup}
use mathlib.Core.Option
use data_exfiltration_detect.Common.{
  ℕ, ◌≡◌, ◌↔◌, refl, sym, ◌∙◌, List, [], ◌∷◌, Mem, Bool, true, false, not, ◌&&◌, ◌||◌, none, some,
  inl, inr, Option-cases, Bool-cases, ltb, is_empty, ite, arith, if◌then◌else◌, Perm,
}
use data_exfiltration_detect.Common.Text.{Text, text_discrete}
use data_exfiltration_detect.Common.Maps.{
  keys, contains, lookup-assign, HasUniqueKeys, assign-HasUniqueKeys, lookup-none_iff,
  mem-keys-lookup, contains_iff,
}
use data_exfiltration_detect.Process.Types.{ProcessActivityEvent}
use data_exfiltration_detect.Process.TimelineSummaryBuilder.Loops.{
  DestinationStats, no_stats, Scan, grow, grow_destination, insert_remote, scan_event, start_scan,
  scan_events,
}

-- The distinct addresses of the events, without the empty one.
unfoldable pub destinations : List ProcessActivityEvent → List Text
unfolding contains text_discrete
destinations [] = []
destinations (event ∷ events) =
    let rest = destinations events in
    if is_empty event.remote_address || contains text_discrete event.remote_address rest
    then rest
    else event.remote_address ∷ rest

-- The largest value of a counter in the events of an address.
unfoldable pub peak : (ProcessActivityEvent → ℕ) → List ProcessActivityEvent → Text → ℕ
unfolding text_discrete
peak counter [] a = 0
peak counter (event ∷ events) a =
    let rest = peak counter events a in
    ite (text_discrete a event.remote_address)
      (if ltb rest (counter event) then counter event else rest) rest

-- Whether an event has an address.
unfoldable pub is_remote : List ProcessActivityEvent → Text → Bool
unfolding text_discrete
is_remote [] a = false
is_remote (event ∷ events) a =
    (not (is_empty event.remote_address) && ite (text_discrete a event.remote_address) true false)
    || is_remote events a

contains-destinations :
    (events : List ProcessActivityEvent) (a : Text)
    → contains text_discrete a (destinations events) ≡ is_remote events a
unfolding destinations is_remote contains
contains-destinations [] a = refl
contains-destinations (e ∷ events) a =
    ground (arith, contains-destinations events a, contains-destinations events e.remote_address)

destinations-Nodup : (events : List ProcessActivityEvent) → Nodup (destinations events)
unfolding destinations
destinations-Nodup [] = Nodup-nil
destinations-Nodup (e ∷ events) =
    elim (Bool-cases (
      is_empty e.remote_address || contains text_discrete e.remote_address (destinations events))) [
        | inl h ↦ rw h (destinations-Nodup events)
        | inr h ↦ rw h (
            Nodup-cons.1 (
              λ m. ground (
                arith,
                h,
                (contains_iff text_discrete e.remote_address (destinations events)).1 m,
              ),
              destinations-Nodup events,
            ))
      ]

-- Whether a map of destinations has an address.
abbrev pub found : List (Text × DestinationStats) → Text → Bool
found m a = elim (lookup text_discrete a m) [ none ↦ false | some stats ↦ true ]

found-grow_destination :
    (m : List (Text × DestinationStats)) (e : ProcessActivityEvent) (a : Text)
    → found (grow_destination m e) a
      ≡ found m a
        || (not (is_empty e.remote_address) && ite (text_discrete a e.remote_address) true false)
unfolding grow_destination
found-grow_destination m e a = ground (
  arith,
  lookup-assign text_discrete a e.remote_address
      (grow (Option.get_or (lookup text_discrete e.remote_address m) no_stats) e) m,
)

-- The keys of the map of destinations are the addresses of the events.
found-scan_events :
    (s : Scan) (events : List ProcessActivityEvent) (a : Text)
    → found (scan_events s events).by_destination a ≡ found s.by_destination a || is_remote events a
unfolding scan_events scan_event is_remote
found-scan_events s [] a = ground arith
found-scan_events s (e ∷ events) a = ground (
  arith,
  found-scan_events (scan_event s e) events a,
  found-grow_destination s.by_destination e a,
)

contains-scan_events :
    (s : Scan) (events : List ProcessActivityEvent) (a : Text)
    → contains text_discrete a (scan_events s events).remotes
      ≡ contains text_discrete a s.remotes || is_remote events a
unfolding scan_events scan_event is_remote insert_remote contains
contains-scan_events s [] a = ground arith
contains-scan_events s (e ∷ events) a =
    ground (arith, contains-scan_events (scan_event s e) events a)

remotes-Nodup :
    (s : Scan) (events : List ProcessActivityEvent)
    → Nodup s.remotes
    → Nodup (scan_events s events).remotes
unfolding scan_events scan_event insert_remote
remotes-Nodup s [] u = u
remotes-Nodup s (e ∷ events) u =
    remotes-Nodup (scan_event s e) events
      (elim (Bool-cases
        (is_empty e.remote_address || contains text_discrete e.remote_address s.remotes)) [
          | inl h ↦ rw (scan_event, insert_remote, h) u
          | inr h ↦
              rw (scan_event, insert_remote, h)
                (Nodup-cons.1 (
                  λ m.
                      ground
                        (arith, h, (contains_iff text_discrete e.remote_address s.remotes).1 m),
                  u,
                ))
        ])

by_destination-HasUniqueKeys :
    (s : Scan) (events : List ProcessActivityEvent)
    → HasUniqueKeys s.by_destination
    → HasUniqueKeys (scan_events s events).by_destination
unfolding scan_events scan_event grow_destination
by_destination-HasUniqueKeys s [] u = u
by_destination-HasUniqueKeys s (e ∷ events) u =
    by_destination-HasUniqueKeys (scan_event s e) events
      (elim (Bool-cases (is_empty e.remote_address)) [
        | inl h ↦ rw (scan_event, grow_destination, h) u
        | inr h ↦
            rw (scan_event, grow_destination, h)
              (assign-HasUniqueKeys text_discrete e.remote_address _ s.by_destination u)
      ])

pub is_remote-empty : (events : List ProcessActivityEvent) → is_remote events [] ≡ false
unfolding is_remote text_discrete
is_remote-empty [] = refl
is_remote-empty (e ∷ events) = elim (Bool-cases (is_empty e.remote_address)) [
  | inl h ↦ ground (arith, h, is_remote-empty events)
  | inr h ↦ ground (arith, h, is_remote-empty events)
]

-- What the loop over the events leaves, started at some event.
module _ (first : ProcessActivityEvent) (events : List ProcessActivityEvent) where
  abbrev pub scanned : Scan
  scanned = scan_events (start_scan first) events

  pub found-scanned : (a : Text) → found scanned.by_destination a ≡ is_remote events a
  unfolding start_scan lookup
  found-scanned a = found-scan_events (start_scan first) events a

  contains-scanned : (a : Text) → contains text_discrete a scanned.remotes ≡ is_remote events a
  unfolding start_scan contains
  contains-scanned a = contains-scan_events (start_scan first) events a

  pub mem-destinations_iff : (a : Text) → Mem a (destinations events) ↔ (is_remote events a ≡ true)
  mem-destinations_iff a =
      let inside = contains_iff text_discrete a (destinations events) in
      (
        λ m. sym (contains-destinations events a) ∙ inside.1 m,
        λ h. inside.0 (contains-destinations events a ∙ h),
      )

  pub scanned-HasUniqueKeys : HasUniqueKeys scanned.by_destination
  unfolding start_scan
  scanned-HasUniqueKeys = by_destination-HasUniqueKeys (start_scan first) events Nodup-nil

  pub remotes-perm : Perm scanned.remotes (destinations events)
  unfolding start_scan
  remotes-perm =
      (perm_ext_iff_of_Nodup (remotes-Nodup (start_scan first) events Nodup-nil)
          (destinations-Nodup events)).1
        (λ a.
          let inside = contains_iff text_discrete a scanned.remotes in
          (
            λ m. (mem-destinations_iff a).1 (sym (contains-scanned a) ∙ inside.1 m),
            λ m. inside.0 (contains-scanned a ∙ (mem-destinations_iff a).0 m),
          ))

  found_iff : (m : List (Text × DestinationStats)) (a : Text) → Mem a (keys m) ↔ (found m a ≡ true)
  found_iff m a = elim (Option-cases (lookup text_discrete a m)) [
    | inl e ↦ (
      λ mem. absurd ((lookup-none_iff text_discrete a m).0 e mem),
      λ h. absurd (ground (arith, e, h)),
    )
    | inr (v, e) ↦ (λ mem. ground (arith, e), λ h. mem-keys-lookup text_discrete a v m e)
  ]

  pub keys-perm : Perm (keys scanned.by_destination) (destinations events)
  keys-perm = (perm_ext_iff_of_Nodup scanned-HasUniqueKeys (destinations-Nodup events)).1 (λ a.
      let inside = found_iff scanned.by_destination a in
      (
        λ m. (mem-destinations_iff a).1 (sym (found-scanned a) ∙ inside.0 m),
        λ m. inside.1 (found-scanned a ∙ (mem-destinations_iff a).0 m),
      ))
