-- ===== src/Process/TimelineSummaryBuilder/Orders.antt =====
-- TimelineSummaryBuilder.cpp: what of a summary depends on the order in which the map of destinations
-- is visited.
use mathlib.Core.List.{mem-cons_self, Mem, Perm}
use mathlib.Core.List.Perm
use mathlib.Core.Path.{subst}
use data_exfiltration_detect.Common.{◌≡◌, ◌⊎◌, refl, sym, ◌∙◌, List, [], ◌∷◌, false, inl, inr}
use data_exfiltration_detect.Common.Text.{Text}
use data_exfiltration_detect.Common.Maps.{Visit}
use data_exfiltration_detect.Process.Types.{ProcessActivityEvent}
use data_exfiltration_detect.Process.TimelineSummaryBuilder.Loops.{
  DestinationStats, is_more_active, start_ranking, rank,
}
use data_exfiltration_detect.Process.TimelineSummaryBuilder.Destinations.{destinations, scanned}
use data_exfiltration_detect.Process.TimelineSummaryBuilder.Volumes.{summarize-volumes}
use data_exfiltration_detect.Process.TimelineSummaryBuilder.Activity.{
  activity_of, key-destination, scanned-IsBest,
}
use data_exfiltration_detect.Process.TimelineSummaryBuilder.{summarize, summarize_scan}

-- No two addresses of the events are equally active.
abbrev pub HasNoTies : List ProcessActivityEvent → Type 0
HasNoTies events =
    (a b : Text)
    → Mem a (destinations events)
    → Mem b (destinations events)
    → is_more_active (activity_of events a) (activity_of events b) ≡ false
    → is_more_active (activity_of events b) (activity_of events a) ≡ false
    → a ≡ b

empty-or-mem : {A : Type 0} (m : List A) → (m ≡ []) ⊎ ((x : A) × Mem x m)
empty-or-mem [] = inl refl
empty-or-mem (x ∷ m) = inr (x, mem-cons_self)

visit-empty :
    (order : Visit Text) (m : List (Text × DestinationStats)) → m ≡ [] → order.visit m ≡ []
visit-empty order m e = Perm.eq-nil (subst (Perm (order.visit m)) e (order.visit-perm m))

module _ (order other : Visit Text) where
  most_active-any_order :
      (first : ProcessActivityEvent) (events : List ProcessActivityEvent)
      → HasNoTies events
      → let m = (scanned first events).by_destination in
        (rank start_ranking (order.visit m)).most_active_destination
        ≡ (rank start_ranking (other.visit m)).most_active_destination
  most_active-any_order first events apart =
      let m = (scanned first events).by_destination in
      elim (empty-or-mem m) [
        | inl e ↦ rw (visit-empty order m e, visit-empty other m e) refl
        | inr (x, mem) ↦
            let here = key-destination first events x.0 x.1 mem in
            let a = (scanned-IsBest order first events x.0 here).0 in
            let b = (scanned-IsBest other first events x.0 here).0 in
            apart _ _ a b (scanned-IsBest other first events _ a).1
              (scanned-IsBest order first events _ b).1
      ]

  -- If no two addresses of the events are equally active, the whole summary is the same in
  -- whatever order the map of destinations is visited.
  pub summarize_any_order :
      (events : List ProcessActivityEvent)
      → HasNoTies events
      → summarize order events ≡ summarize other events
  unfolding summarize summarize_scan
  summarize_any_order [] apart = refl
  summarize_any_order (e ∷ events) apart =
      let one = summarize-volumes order (e ∷ events) in
      let two = summarize-volumes other (e ∷ events) in
      rw (one.1 ∙ sym two.1, one.2 ∙ sym two.2, most_active-any_order e (e ∷ events) apart) refl
