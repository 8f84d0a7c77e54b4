-- ===== src/Process/TimelineSummaryBuilder/Ranking.antt =====
-- TimelineSummaryBuilder.cpp: the loop that ranks the destinations.
use mathlib.Core.List.{not-mem-nil, mem-cons_self, mem-cons_of_mem, eq-or-mem_of_mem-cons}
use mathlib.Core.Logic.Or
use mathlib.Core.Bool.{Bool-set}
use data_exfiltration_detect.Common.{
  ◌+◌, ◌%◌, ◌^◌, ◌≡◌, ◌⊎◌, ◌≢◌, refl, ◌∙◌, List, [], ◌∷◌, Mem, true, false, ◌||◌, inl, inr,
  Bool-cases, is_empty, arith, if◌then◌else◌,
}
use data_exfiltration_detect.Common.Text.{Text}
use data_exfiltration_detect.Process.TimelineSummaryBuilder.Loops.{
  DestinationStats, is_more_active, Ranking, start_ranking, rank,
}

-- No destination is more active than a given one.
abbrev pub IsNotMore : DestinationStats → DestinationStats → Type 0
IsNotMore a b = is_more_active a b ≡ false

IsNotMore-trans : (a b c : DestinationStats) → IsNotMore a b → IsNotMore b c → IsNotMore a c
unfolding is_more_active
IsNotMore-trans a b c h k = ground (arith, h, k)

IsNotMore-refl : (a : DestinationStats) → IsNotMore a a
unfolding is_more_active
IsNotMore-refl a = ground arith

IsNotMore-asym : (a b : DestinationStats) → is_more_active a b ≡ true → IsNotMore b a
unfolding is_more_active
IsNotMore-asym a b h = ground (arith, h)

-- One turn of the loop over the destinations.
abbrev turn : Ranking → Text → DestinationStats → Ranking
turn r destination stats =
    let better = is_empty r.most_active_destination || is_more_active stats r.best_stats in
    record {
      total_uploaded = (r.total_uploaded + stats.uploaded_bytes) % 2 ^ 64;
      total_downloaded = (r.total_downloaded + stats.downloaded_bytes) % 2 ^ 64;
      most_active_destination = if better then destination else r.most_active_destination;
      best_stats = if better then stats else r.best_stats;
    }

turn-above :
    (r : Ranking) (a : Text) (stats : DestinationStats)
    → r.most_active_destination ≢ []
    → a ≢ []
    → ((turn r a stats).most_active_destination ≢ [])
      × IsNotMore r.best_stats (turn r a stats).best_stats
      × IsNotMore stats (turn r a stats).best_stats
turn-above r a stats h named = elim (Bool-cases (is_more_active stats r.best_stats)) [
  | inl e ↦ (
    ground (arith, h, named, e),
    ground (arith, h, e, IsNotMore-asym stats r.best_stats e),
    ground (arith, h, e, IsNotMore-refl stats),
  )
  | inr e ↦ (
    ground (arith, h, e),
    ground (arith, h, e, IsNotMore-refl r.best_stats),
    ground (arith, h, e),
  )
]

turn-chosen :
    (r : Ranking) (a : Text) (stats : DestinationStats)
    → (((turn r a stats).most_active_destination ≡ r.most_active_destination)
        × ((turn r a stats).best_stats ≡ r.best_stats))
      ⊎ (((turn r a stats).most_active_destination ≡ a) × ((turn r a stats).best_stats ≡ stats))
turn-chosen r a stats =
    elim (Bool-cases (is_empty r.most_active_destination || is_more_active stats r.best_stats)) [
      | inl e ↦ inr (ground (arith, e), ground (arith, e))
      | inr e ↦ inl (ground (arith, e), ground (arith, e))
    ]

-- What a ranking of a list leaves.
record IsBest (r : Ranking) (m : List (Text × DestinationStats)) (best : Ranking) : Type 0 where
  above : IsNotMore r.best_stats best.best_stats
  above_all : (x : Text × DestinationStats) → Mem x m → IsNotMore x.1 best.best_stats
  chosen :
      ((best.most_active_destination ≡ r.most_active_destination)
        × (best.best_stats ≡ r.best_stats))
      ⊎ Mem (best.most_active_destination, best.best_stats) m

rank-IsBest :
    (m : List (Text × DestinationStats)) (r : Ranking)
    → r.most_active_destination ≢ []
    → ((x : Text × DestinationStats) → Mem x m → x.0 ≢ [])
    → IsBest r m (rank r m)
unfolding rank
rank-IsBest [] r h named = record {
  above = IsNotMore-refl r.best_stats;
  above_all = λ x mem. absurd (not-mem-nil mem);
  chosen = inl (refl, refl);
}
rank-IsBest ((a, stats) ∷ m) r h named =
    let r' = turn r a stats in
    let step = turn-above r a stats h (named (a, stats) mem-cons_self) in
    let rest = rank-IsBest m r' step.0 (λ x mem. named x (mem-cons_of_mem (a, stats) mem)) in
    record {
      above = IsNotMore-trans r.best_stats r'.best_stats (rank r' m).best_stats step.1 rest.above;
      above_all = λ x mem.
          Or.elim (Bool-set _ _) (eq-or-mem_of_mem-cons mem)
            (λ here.
              rw here
                (IsNotMore-trans stats r'.best_stats (rank r' m).best_stats step.2 rest.above))
            (rest.above_all x);
      chosen = elim rest.chosen [
        | inr mem ↦ inr (mem-cons_of_mem (a, stats) mem)
        | inl same ↦ elim (turn-chosen r a stats) [
          | inl old ↦ inl (same.0 ∙ old.0, same.1 ∙ old.1)
          | inr new ↦ inr (rw (same.0 ∙ new.0, same.1 ∙ new.1) mem-cons_self)
        ]
      ];
    }

-- The first destination is always the best so far.
rank-start :
    (x : Text × DestinationStats) (m : List (Text × DestinationStats))
    → rank start_ranking (x ∷ m) ≡ rank (turn start_ranking x.0 x.1) m
unfolding rank
rank-start x m = refl

-- Of a list with a destination, the ranking is one of the list's, and none is more active.
pub ranked-IsBest :
    (m : List (Text × DestinationStats))
    → ((x : Text × DestinationStats) → Mem x m → x.0 ≢ [])
    → (y : Text × DestinationStats) → Mem y m
    → let r = rank start_ranking m in
      Mem (r.most_active_destination, r.best_stats) m
      × ((x : Text × DestinationStats) → Mem x m → IsNotMore x.1 r.best_stats)
ranked-IsBest [] named y mem = absurd (not-mem-nil mem)
ranked-IsBest (x ∷ m) named y mem =
    let best =
      rank-IsBest m (turn start_ranking x.0 x.1) (named x mem-cons_self)
        (λ z t. named z (mem-cons_of_mem x t)) in
    rw (rank-start x m) (
      elim best.chosen [
        | inl same ↦ rw (same.0, same.1) mem-cons_self
        | inr t ↦ mem-cons_of_mem x t
      ],
      λ z t.
          Or.elim (Bool-set _ _) (eq-or-mem_of_mem-cons t) (λ here. rw here best.above)
            (best.above_all z),
    )
