-- ===== src/Process/TimelineEventHistory/Retention.antt =====
-- TimelineEventHistory.cpp: which events a cleanup keeps.
use mathlib.Core.List.{mem-append, mem-filter, filter-eq_self, Pairwise-append, not-mem-nil}
use mathlib.Core.List.Perm
use mathlib.Core.Logic.Iff
use mathlib.Core.Logic.Or
use data_exfiltration_detect.Common.{
  ℕ, ◌-◌, ◌≤◌, ◌<◌, ◌≡◌, refl, sym, ◌∙◌, ap, subst, ◌↔◌, inl, inr, List, [], ◌∷◌, ◌++◌, Perm, Mem,
  Bool, true, false, not, arith, ltb, length, min, take, drop, take-append-drop, length-drop,
  bool_dec, Bool-cases, ltb→lt,
}
use data_exfiltration_detect.Common.Sorting.{
  stable_sort-perm, length-stable_sort, stable_sort-IsSortedBy, not-less_prop,
}
use data_exfiltration_detect.Process.Types.{ProcessActivityEvent}
use data_exfiltration_detect.Process.Ordering.{
  earlier_than, sort_events, IsChronological, earlier_than-IsStrictWeak,
}
use data_exfiltration_detect.Process.TimelineEventHistory.Laws.{cleanup-IsBounded}
use data_exfiltration_detect.Process.TimelineEventHistory.{
  TimelineEventHistory, is_stale, drop_stale, drop_overflow, cleanup,
}

-- A list of events is parted in two, and none of the second part is earlier than one of the first.
pub record IsNewest (all kept : List ProcessActivityEvent) : Type 0 where
  pub dropped : List ProcessActivityEvent
  pub parted : Perm all (dropped ++ kept)
  pub newer : (d x : ProcessActivityEvent) → Mem d dropped → Mem x kept → earlier_than x d ≡ false

-- The end of a sorted copy is the newest part.
pub drop-IsNewest :
    (n : ℕ) (events : List ProcessActivityEvent) → IsNewest events (drop n (sort_events events))
drop-IsNewest n events =
    let sorted = sort_events events in
    let whole = take-append-drop n sorted in
    record {
      dropped = take n sorted;
      parted = rw whole (Perm.symm (stable_sort-perm earlier_than events));
      newer = λ d x md mx.
          ((Pairwise-append (λ x y. not-less_prop earlier_than-IsStrictWeak x y)).0 (
              subst IsChronological (sym whole)
                (stable_sort-IsSortedBy earlier_than-IsStrictWeak events))).2
            d md x mx;
    }

all-IsNewest : (events : List ProcessActivityEvent) → IsNewest events events
all-IsNewest events = record {
  dropped = [];
  parted = Perm.rfl;
  newer = λ d x md mx. absurd (not-mem-nil md);
}

-- The removal of an overflow keeps the newest events, and as many as the limit allows.
drop_overflow-IsNewest :
    (n : ℕ) (events : List ProcessActivityEvent) → IsNewest events (drop_overflow n events)
unfolding drop_overflow
drop_overflow-IsNewest n events = elim (Bool-cases (ltb n (length events))) [
  | inl over ↦ rw over (drop-IsNewest (length events - n) events)
  | inr fits ↦ rw fits (all-IsNewest events)
]

length-drop_overflow-min :
    (n : ℕ) (events : List ProcessActivityEvent)
    → length (drop_overflow n events) ≡ min n (length events)
unfolding drop_overflow
length-drop_overflow-min n events = ground (
  arith,
  length-drop (length events - n) (sort_events events),
  length-stable_sort earlier_than events,
)

drop_overflow_fits :
    (n : ℕ) (events : List ProcessActivityEvent)
    → length events ≤ n
    → drop_overflow n events ≡ events
unfolding drop_overflow
drop_overflow_fits n events h = ground arith

cleanup-events_at :
    (now n age : ℕ) (events : List ProcessActivityEvent)
    → let h : TimelineEventHistory = record { max_events = n; max_age = age; events = events } in
      (cleanup now h).0.events ≡ drop_overflow n (drop_stale now age events)
unfolding cleanup drop_overflow drop_stale
cleanup-events_at now n age [] = ground arith
cleanup-events_at now n age (x ∷ xs) = refl

cleanup-events :
    (now : ℕ) (h : TimelineEventHistory)
    → (cleanup now h).0.events ≡ drop_overflow h.max_events (drop_stale now h.max_age h.events)
cleanup-events now h = cleanup-events_at now h.max_events h.max_age h.events

-- An event that a cleanup by age leaves: any if age is off, and else one that is not stale.
abbrev pub IsCurrent : ℕ → TimelineEventHistory → ProcessActivityEvent → Type 0
IsCurrent now h e = 0 < h.max_age → is_stale now h.max_age e ≡ false

not-true : (b : Bool) → (not b ≡ true) ↔ (b ≡ false)
not-true b = (λ h. ground arith, λ h. ground arith)

mem-drop_stale_iff :
    (now : ℕ) (h : TimelineEventHistory) (e : ProcessActivityEvent)
    → Mem e (drop_stale now h.max_age h.events) ↔ (Mem e h.events × IsCurrent now h e)
unfolding drop_stale
mem-drop_stale_iff now h e = elim (Bool-cases (ltb 0 h.max_age)) [
  | inl on ↦ rw on (
      Iff.trans (mem-filter (λ x. bool_dec (not (is_stale now h.max_age x)))) (
        Iff.and Iff.rfl (λ p _. (not-true _).0 p, λ p. (not-true _).1 (p (ltb→lt 0 h.max_age on)))))
  | inr off ↦ rw off (λ m. (m, λ p. absurd (ground arith)), λ m. m.0)
]

-- A cleanup keeps, of the held events that are not stale, the newest, as many as the limit
-- allows; of these it drops none that is later than one that it keeps.
pub cleanup-IsNewest :
    (now : ℕ) (h : TimelineEventHistory)
    → (current : List ProcessActivityEvent) × ((e : ProcessActivityEvent)
        → Mem e current ↔ (Mem e h.events × IsCurrent now h e))
      × IsNewest current (cleanup now h).0.events
      × (length (cleanup now h).0.events ≡ min h.max_events (length current))
cleanup-IsNewest now h =
    let current = drop_stale now h.max_age h.events in
    (
      current,
      mem-drop_stale_iff now h,
      rw (cleanup-events now h) (drop_overflow-IsNewest h.max_events current),
      ap length (cleanup-events now h) ∙ length-drop_overflow-min h.max_events current,
    )

drop_stale_current :
    (now : ℕ) (h : TimelineEventHistory)
    → ((e : ProcessActivityEvent) → Mem e h.events → IsCurrent now h e)
    → drop_stale now h.max_age h.events ≡ h.events
unfolding drop_stale
drop_stale_current now h c = elim (Bool-cases (ltb 0 h.max_age)) [
  | inl on ↦ rw on (
      (filter-eq_self (λ x. bool_dec (not (is_stale now h.max_age x)))).1
        (λ e m. (not-true _).1 (c e m (ltb→lt 0 h.max_age on))))
  | inr off ↦ rw off
]

cleanup_unchanged :
    (now : ℕ) (h : TimelineEventHistory)
    → drop_overflow h.max_events (drop_stale now h.max_age h.events) ≡ h.events
    → cleanup now h ≡ (h, 0)
unfolding cleanup
cleanup_unchanged now h e = rw e (ground arith)

cleanup-parameters :
    (now : ℕ) (h : TimelineEventHistory)
    → ((cleanup now h).0.max_events ≡ h.max_events) × ((cleanup now h).0.max_age ≡ h.max_age)
unfolding cleanup
cleanup-parameters now h = ground arith

kept-IsCurrent :
    (now : ℕ) (h : TimelineEventHistory) (e : ProcessActivityEvent)
    → Mem e (cleanup now h).0.events
    → IsCurrent now h e
kept-IsCurrent now h e m =
    let (current, holds, newest, _) = cleanup-IsNewest now h in
    ((holds e).0 ((Perm.mem_iff newest.parted).1 (mem-append.1 (Or.inr m)))).1

-- Under a positive limit a second cleanup at the same time changes nothing and removes nothing.
cleanup_again :
    (now : ℕ) (h : TimelineEventHistory)
    → 0 < h.max_events
    → let after = (cleanup now h).0 in cleanup now after ≡ (after, 0)
cleanup_again now h pos =
    let after = (cleanup now h).0 in
    let (same_limit, same_age) = cleanup-parameters now h in
    let bound = (cleanup-IsBounded now h pos).0.within in
    let stay : drop_stale now after.max_age after.events ≡ after.events =
      drop_stale_current now after (λ e m. rw same_age (kept-IsCurrent now h e m)) in
    cleanup_unchanged now after (
      ap (drop_overflow after.max_events) stay
      ∙ drop_overflow_fits after.max_events after.events bound)
