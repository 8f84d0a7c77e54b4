-- ===== src/Process/TimelineSummaryBuilder/Tests.antt =====
-- The summary of two processes, and of transfers to two addresses.
use mathlib.Core.List.{
  mem-cons_self, mem-cons_of_mem, eq-or-mem_of_mem-cons, not-mem-nil, reverse, reverse_perm,
}
use mathlib.Core.Logic.Or
use data_exfiltration_detect.Common.{
  ◌≡◌, ◌%◌, ◌^◌, ◌⊎◌, refl, sym, ◌∙◌, List, [], ◌∷◌, Mem, length, false, true, inl, inr, arith,
}
use data_exfiltration_detect.Common.Text.{Text, codes, text_discrete}
use data_exfiltration_detect.Common.Maps.{Visit, in_order}
use data_exfiltration_detect.Common.Sums.{sum_by}
use data_exfiltration_detect.Process.Types.{ProcessActivityEvent}
use data_exfiltration_detect.Process.Samples.{late, early, mixed}
use data_exfiltration_detect.Process.TimelineSummaryBuilder.Loops.{
  DestinationStats, is_more_active, start_ranking, rank,
}
use data_exfiltration_detect.Process.TimelineSummaryBuilder.Destinations.{destinations, peak}
use data_exfiltration_detect.Process.TimelineSummaryBuilder.Volumes.{summarize-volumes}
use data_exfiltration_detect.Process.TimelineSummaryBuilder.Activity.{
  visits, activity_of, most_active_destination-summarize,
}
use data_exfiltration_detect.Process.TimelineSummaryBuilder.Orders.{HasNoTies, summarize_any_order}
use data_exfiltration_detect.Process.TimelineSummaryBuilder.{
  TimelineSummaryBuilder, summarize, for_process_id,
}
use data_exfiltration_detect.Process.TimelineSummaryBuilder.Laws.{Covers, for_process_id-Covers}

abbrev builder : TimelineSummaryBuilder
builder = record { events = mixed }

abbrev stats : DestinationStats
stats = record { uploaded_bytes = 10; downloaded_bytes = 0; event_count = 1 }

-- Of two destinations that tie, the one that is visited first is the most active.
first_of_a_tie :
    (rank start_ranking ((codes "a", stats) ∷ (codes "b", stats) ∷ [])).most_active_destination
    ≡ codes "a"
unfolding rank
first_of_a_tie = refl

first_of_a_tie_reversed :
    (rank start_ranking ((codes "b", stats) ∷ (codes "a", stats) ∷ [])).most_active_destination
    ≡ codes "b"
unfolding rank
first_of_a_tie_reversed = refl

for_process_id-Covers_example : Covers (for_process_id in_order builder 7) 7 300
for_process_id-Covers_example = for_process_id-Covers in_order builder late mem-cons_self

-- Uploads to two addresses, one of them observed twice.
abbrev transfers : List ProcessActivityEvent
transfers = late ∷ record early { uploaded_bytes = 50 } ∷ record late { uploaded_bytes = 30 } ∷ []

abbrev backwards : Visit Text
backwards = record { visit = λ m. reverse m; visit-perm = λ m. reverse_perm m }

two_destinations : destinations transfers ≡ codes "8.8.8.8:53" ∷ codes "1.1.1.1:443" ∷ []
unfolding destinations
two_destinations = refl

summarizes_backwards :
    let s = summarize backwards transfers in
    (s.remote_endpoint_count ≡ 2)
    × (s.total_uploaded_bytes ≡ 80)
    × (s.most_active_destination ≡ codes "8.8.8.8:53")
unfolding summarize
summarizes_backwards = (refl, refl, refl)

summarize-volumes_example :
    let s = summarize backwards transfers in
    (s.remote_endpoint_count ≡ length (destinations transfers))
    × (s.total_uploaded_bytes
        ≡ sum_by (peak (λ e. e.uploaded_bytes) transfers) (destinations transfers) % 2 ^ 64)
    × (s.total_downloaded_bytes
        ≡ sum_by (peak (λ e. e.downloaded_bytes) transfers) (destinations transfers) % 2 ^ 64)
summarize-volumes_example = summarize-volumes backwards transfers

smaller_destination : Mem (codes "1.1.1.1:443") (destinations transfers)
smaller_destination = rw two_destinations (mem-cons_of_mem (codes "8.8.8.8:53") mem-cons_self)

most_active_destination-summarize_example :
    let s = summarize backwards transfers in
    Mem s.most_active_destination (destinations transfers)
    × (is_more_active
          (activity_of transfers (codes "1.1.1.1:443"))
          (activity_of transfers s.most_active_destination)
        ≡ false)
most_active_destination-summarize_example =
    most_active_destination-summarize backwards transfers (codes "1.1.1.1:443") smaller_destination

-- Whether one of two addresses is more active, by their positions.
ordered :
    is_more_active
      (activity_of transfers (codes "8.8.8.8:53"))
      (activity_of transfers (codes "1.1.1.1:443"))
    ≡ true
unfolding is_more_active peak visits
ordered = refl

Text_paths-prop : {a b : Text} → IsProp (a ≡ b)
Text_paths-prop = hlevel

either_destination :
    (a : Text)
    → Mem a (destinations transfers)
    → (a ≡ codes "8.8.8.8:53") ⊎ (a ≡ codes "1.1.1.1:443")
either_destination a mem = elim (text_discrete a (codes "8.8.8.8:53")) [
  | yes p ↦ inl p
  | no p ↦ inr (
      Or.elim (Text_paths-prop) (eq-or-mem_of_mem-cons (rw two_destinations at mem))
        (λ here. absurd (p here))
        (λ t.
          Or.elim (Text_paths-prop) (eq-or-mem_of_mem-cons t) (λ here. here)
            (λ t'. absurd (not-mem-nil t'))))
]

transfers-HasNoTies : HasNoTies transfers
transfers-HasNoTies a b here there h k = elim (either_destination a here) [
  | inl p ↦ elim (either_destination b there) [
    | inl q ↦ p ∙ sym q
    | inr q ↦ absurd (ground (arith, ordered, p, q, h))
  ]
  | inr p ↦ elim (either_destination b there) [
    | inl q ↦ absurd (ground (arith, ordered, p, q, k))
    | inr q ↦ p ∙ sym q
  ]
]

summarize_any_order_example : summarize backwards transfers ≡ summarize in_order transfers
summarize_any_order_example = summarize_any_order backwards in_order transfers transfers-HasNoTies
