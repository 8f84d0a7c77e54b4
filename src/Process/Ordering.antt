-- ===== src/Process/Ordering.antt =====
-- `earlierThan`, which TimelineEventHistory.cpp, TimelineQuery.cpp and ProcessTimelineBuilder.cpp
-- each declare with the same body: by time, then by process, then by kind of event.
use data_exfiltration_detect.Common.{
  ℕ, ◌≡◌, List, Perm, Bool, true, false, not, ◌&&◌, keep_if, bool_dec, arith, ltb, ◌==◌,
  if◌then◌else◌,
}
use data_exfiltration_detect.Common.Sorting.{
  IsStrictWeak, IsSortedBy, stable_sort, stable_sort-perm, stable_sort-IsSortedBy,
  stable_sort-filter,
}
use data_exfiltration_detect.Process.Types.{ProcessActivityEvent, event_type_index}

unfoldable pub earlier_than : ProcessActivityEvent → ProcessActivityEvent → Bool
unfolding event_type_index
earlier_than left right =
    if not (left.timestamp == right.timestamp)
    then ltb left.timestamp right.timestamp
    else if not (left.process_id == right.process_id)
    then ltb left.process_id right.process_id
    else ltb (event_type_index left.event_type) (event_type_index right.event_type)

-- `std::stable_sort(events.begin(), events.end(), earlierThan)`.
abbrev pub sort_events : List ProcessActivityEvent → List ProcessActivityEvent
sort_events = stable_sort earlier_than

abbrev pub IsChronological : List ProcessActivityEvent → Type 0
IsChronological = IsSortedBy earlier_than

-- Neither of two events is earlier.
abbrev tied : ProcessActivityEvent → ProcessActivityEvent → Bool
tied e x = not (earlier_than e x) && not (earlier_than x e)

-- What a chronological query answers: the events that pass its test, each as often as it is held,
-- in order of time, and in the order in which they are held where the times tie.
pub record IsAnswer (test : ProcessActivityEvent → Bool) (held answer : List ProcessActivityEvent)
    : Type 0 where
  pub chronological : IsChronological answer
  pub same : Perm answer (keep_if test held)
  pub in_order :
      (e : ProcessActivityEvent) → keep_if (tied e) answer ≡ keep_if (tied e) (keep_if test held)

-- The comparison on the three numbers that it reads.
triple_less : ℕ → ℕ → ℕ → ℕ → ℕ → ℕ → Bool
triple_less a b c x y z =
    if not (a == x) then ltb a x else if not (b == y) then ltb b y else ltb c z

triple_less-asymm :
    (a b c x y z : ℕ) → triple_less a b c x y z ≡ true → triple_less x y z a b c ≡ false
unfolding triple_less
triple_less-asymm a b c x y z h = ground arith

triple_less-negatively_transitive :
    (a b c x y z u v w : ℕ)
    → triple_less x y z a b c ≡ false
    → triple_less u v w x y z ≡ false
    → triple_less u v w a b c ≡ false
unfolding triple_less
triple_less-negatively_transitive a b c x y z u v w h k = ground arith

-- The comparison is a strict weak order, which `std::stable_sort` requires.
pub earlier_than-IsStrictWeak : IsStrictWeak earlier_than
unfolding earlier_than triple_less event_type_index
earlier_than-IsStrictWeak = record {
  asymm = λ x y.
      triple_less-asymm x.timestamp x.process_id (event_type_index x.event_type) y.timestamp
        y.process_id (event_type_index y.event_type);
  negatively_transitive = λ x y z.
      triple_less-negatively_transitive x.timestamp x.process_id (event_type_index x.event_type)
        y.timestamp y.process_id (event_type_index y.event_type) z.timestamp z.process_id
        (event_type_index z.event_type);
}

tied_not-less :
    (e x y : ProcessActivityEvent) → tied e x ≡ true → tied e y ≡ true → earlier_than x y ≡ false
tied_not-less e x y hx hy =
    earlier_than-IsStrictWeak.negatively_transitive y e x (ground arith) (ground arith)

-- Sorting what passes the test answers the query.
pub sort_events-IsAnswer :
    (test : ProcessActivityEvent → Bool) (held : List ProcessActivityEvent)
    → IsAnswer test held (sort_events (keep_if test held))
sort_events-IsAnswer test held = record {
  chronological = stable_sort-IsSortedBy earlier_than-IsStrictWeak (keep_if test held);
  same = stable_sort-perm earlier_than (keep_if test held);
  in_order = λ e.
      stable_sort-filter earlier_than-IsStrictWeak (λ x. bool_dec (tied e x)) (keep_if test held)
        (tied_not-less e);
}
