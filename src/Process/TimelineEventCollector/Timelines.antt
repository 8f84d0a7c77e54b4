-- ===== src/Process/TimelineEventCollector/Timelines.antt =====
-- TimelineEventCollector.cpp: the events of each process, and the timeline built of all events.
use mathlib.Core.List.{
  lookup, Nodup-cons, mem-cons_self, mem-cons_of_mem, not-mem-nil, filter-append, append-nil,
}
use mathlib.Core.List.Perm
use mathlib.Core.Option
use data_exfiltration_detect.Common.{
  ℕ, ◌≡◌, refl, ◌∙◌, ap, ap₂, subst, List, [], ◌∷◌, ◌++◌, Mem, arith, ite, keep_if, bool_dec,
  ℕ_discrete, if_pos, if_neg,
}
use data_exfiltration_detect.Common.Maps.{
  Visit, HasUniqueKeys, keys, bucket, lookup-perm, lookup-none_iff,
}
use data_exfiltration_detect.Common.Sorting.{filter-stable_sort}
use data_exfiltration_detect.Process.Types.{ProcessActivityEvent}
use data_exfiltration_detect.Process.Ordering.{sort_events, earlier_than-IsStrictWeak}
use data_exfiltration_detect.Process.ProcessTimelineBuilder.{
  ProcessTimelineBuilder, build_collected, get_process_timeline,
}
use data_exfiltration_detect.Process.ProcessTimelineBuilder.Laws.{of_process, timeline-build}
use data_exfiltration_detect.Process.TimelineEventCollector.{
  TimelineEventCollector, get_events_for_process, join_events, get_all_events,
}
use data_exfiltration_detect.Process.TimelineEventCollector.Grouping.{IsValid}

-- Of events that are all of one process, a process has all or none.
keep_if-own :
    (q p : ℕ) (events : List ProcessActivityEvent)
    → ((e : ProcessActivityEvent) → Mem e events → e.process_id ≡ p)
    → keep_if (of_process q) events ≡ ite (ℕ_discrete q p) events []
keep_if-own q p [] own = ground arith
keep_if-own q p (e ∷ events) own =
    ground (arith, own e mem-cons_self, keep_if-own q p events (λ x m. own x (mem-cons_of_mem e m)))

-- The bucket of a process that has no entry.
bucket-missing :
    (q : ℕ) (m : List (ℕ × List ProcessActivityEvent))
    → ¬ Mem q (keys m)
    → bucket ℕ_discrete q m ≡ []
unfolding bucket
bucket-missing q m h = rw ((lookup-none_iff ℕ_discrete q m).1 h) refl

own-head :
    (p : ℕ) (events : List ProcessActivityEvent) (m : List (ℕ × List ProcessActivityEvent))
    → ((q : ℕ) (e : ProcessActivityEvent)
        → Mem e (bucket ℕ_discrete q ((p, events) ∷ m))
        → e.process_id ≡ q)
    → (e : ProcessActivityEvent) → Mem e events
    → e.process_id ≡ p
unfolding bucket lookup
own-head p events m own e h = own p e (rw (if_pos (ℕ_discrete p p) refl) h)

own-tail :
    (p : ℕ) (events : List ProcessActivityEvent) (m : List (ℕ × List ProcessActivityEvent))
    → ¬ Mem p (keys m)
    → ((q : ℕ) (e : ProcessActivityEvent)
        → Mem e (bucket ℕ_discrete q ((p, events) ∷ m))
        → e.process_id ≡ q)
    → (q : ℕ) (e : ProcessActivityEvent) → Mem e (bucket ℕ_discrete q m)
    → e.process_id ≡ q
unfolding bucket lookup
own-tail p events m fresh own q e h = elim (ℕ_discrete q p) [
  | yes same ↦ absurd (
      not-mem-nil
        (subst (Mem e) (bucket-missing q m (λ x. fresh (subst (λ y. Mem y (keys m)) same x))) h))
  | no other ↦ own q e (rw (if_neg (ℕ_discrete q p) other) h)
]

join_head :
    (q p : ℕ) (events : List ProcessActivityEvent) (m : List (ℕ × List ProcessActivityEvent))
    → ¬ Mem p (keys m)
    → ite (ℕ_discrete q p) events [] ++ bucket ℕ_discrete q m
      ≡ bucket ℕ_discrete q ((p, events) ∷ m)
unfolding bucket lookup
join_head q p events m fresh = elim (ℕ_discrete q p) [
  | yes same ↦ ground (
    arith,
    append-nil events,
    bucket-missing q m (λ x. fresh (subst (λ y. Mem y (keys m)) same x)),
  )
  | no other ↦ ground arith
]

keep_if-join_events :
    (q : ℕ) (m : List (ℕ × List ProcessActivityEvent))
    → HasUniqueKeys m
    → ((p : ℕ) (e : ProcessActivityEvent) → Mem e (bucket ℕ_discrete p m) → e.process_id ≡ p)
    → keep_if (of_process q) (join_events m) ≡ bucket ℕ_discrete q m
unfolding join_events bucket lookup
keep_if-join_events q [] u own = refl
keep_if-join_events q ((p, events) ∷ m) u own =
    let mine = own-head p events m own in
    let rest =
      keep_if-join_events q m (Nodup-cons.0 u).1 (own-tail p events m (Nodup-cons.0 u).0 own) in
    filter-append (λ x. bool_dec (of_process q x)) events (join_events m)
    ∙ ap₂ (λ a b. a ++ b) (keep_if-own q p events mine) rest
    ∙ join_head q p events m (Nodup-cons.0 u).0

events-set : IsSet (List ProcessActivityEvent)
events-set = hlevel

-- In a valid collector, in whatever order the map is visited, the events of a process are exactly
-- the part of all events with its process id.
pub keep_if-get_all_events :
    (order : Visit ℕ) (c : TimelineEventCollector) (q : ℕ)
    → IsValid c
    → keep_if (of_process q) (get_all_events order c) ≡ get_events_for_process c q
unfolding get_all_events get_events_for_process bucket
keep_if-get_all_events order c q v =
    let m = c.events_by_process in
    let p = order.visit-perm m in
    let same = λ (k : ℕ). lookup-perm ℕ_discrete events-set k v.unique p in
    keep_if-join_events q (order.visit m) (Perm.nodup (Perm.symm (Perm.map (λ e. e.0) p)) v.unique)
      (λ k e h. v.own_events k e (subst (λ o. Mem e (Option.get_or o [])) (same k) h))
    ∙ ap (λ o. Option.get_or o []) (same q)

-- The timeline of a process in a builder that was built of a valid collector is the sorted list
-- of the events that were collected for that process.
pub timeline_of_collected :
    (order : Visit ℕ) (c : TimelineEventCollector) (b : ProcessTimelineBuilder) (q : ℕ)
    → IsValid c
    → get_process_timeline (build_collected order b c) q ≡ sort_events (get_events_for_process c q)
unfolding build_collected
timeline_of_collected order c b q v =
    timeline-build b (get_all_events order c) q
    ∙ filter-stable_sort earlier_than-IsStrictWeak (λ x. bool_dec (of_process q x))
        (get_all_events order c)
    ∙ ap sort_events (keep_if-get_all_events order c q v)
