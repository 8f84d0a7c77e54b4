-- ===== src/Network/ConnectionAttributor/Laws.antt =====
-- ConnectionAttributor.cpp: the index by process against the list of results.
use mathlib.Core.List.{lookup, append-nil, append_assoc, Nodup-cons}
use mathlib.Core.List.Perm
use mathlib.Core.Option
use data_exfiltration_detect.Common.{
  ℕ, ◌≡◌, refl, sym, ◌∙◌, ap, inl, inr, List, [], ◌∷◌, ◌++◌, Bool, arith, Bool-cases, ◌==◌, keep_if,
  ℕ_discrete, Option, none, some, ite,
}
use data_exfiltration_detect.Common.Text.{text_discrete}
use data_exfiltration_detect.Common.Maps.{
  Visit, HasUniqueKeys, lookup-perm, lookup-none_iff, assign, lookup-assign, bucket, push_back,
  bucket-push_back, contains, emplace,
}
use data_exfiltration_detect.Network.Types.{Connection, make_key}
use data_exfiltration_detect.Process.Types.{ProcessInfo, ProcessStatus, ProcessEvent}
use data_exfiltration_detect.Network.ConnectionAttributor.{
  AttributedConnection, ConnectionAttributor, Attribution, attribute_loop, attribute,
  build_attributed_connection, event_process, cache_events, cache_active, sync_processes,
  get_last_known_process,
}

-- The attributed connection is of the process.
abbrev pub owned_by : ℕ → AttributedConnection → Bool
owned_by q c = c.connection.process_id == q

build-connection :
    (a : ConnectionAttributor) (c : Connection) → (build_attributed_connection a c).connection ≡ c
unfolding build_attributed_connection
build-connection a c = ground arith

-- A pushed connection stands between those that were there and those that come after it.
bucket-push_back_append :
    (q p : ℕ) (x : AttributedConnection) (m : List (ℕ × List AttributedConnection))
    (rest : List AttributedConnection)
    → x.connection.process_id ≡ p
    → bucket ℕ_discrete q (push_back ℕ_discrete p x m) ++ keep_if (owned_by q) rest
      ≡ bucket ℕ_discrete q m ++ keep_if (owned_by q) (x ∷ rest)
bucket-push_back_append q p x m rest own = ground (
  arith,
  bucket-push_back ℕ_discrete q p x m,
  append_assoc (bucket ℕ_discrete p m) (x ∷ []) (keep_if (owned_by q) rest),
)

bucket-attribute_loop :
    (a : ConnectionAttributor) (q : ℕ) (v : Attribution) (connections : List Connection)
    → let r = attribute_loop a v connections in
      bucket ℕ_discrete q r.0.by_process
      ≡ bucket ℕ_discrete q v.by_process ++ keep_if (owned_by q) r.1
unfolding attribute_loop
bucket-attribute_loop a q v [] = sym (append-nil (bucket ℕ_discrete q v.by_process))
bucket-attribute_loop a q v (c ∷ connections) =
    elim (Bool-cases (contains text_discrete (make_key c) v.seen)) [
      | inl old ↦ rw (old, attribute_loop) (bucket-attribute_loop a q v connections)
      | inr new ↦
          let x = build_attributed_connection a c in
          let v' : Attribution = record {
            seen = make_key c ∷ v.seen;
            by_process = push_back ℕ_discrete c.process_id x v.by_process;
            by_key = emplace text_discrete (make_key c) x v.by_key;
          } in
          rw (new, attribute_loop)
            (bucket-attribute_loop a q v' connections
              ∙ bucket-push_back_append q c.process_id x v.by_process
                  (attribute_loop a v' connections).1
                  (ap (λ (d : Connection). d.process_id) (build-connection a c)))
    ]

-- After an attribution the connections indexed under a process are exactly the part of the
-- returned list with its process id, in its order.
pub connections_by_process-attribute :
    (a : ConnectionAttributor) (connections : List Connection) (q : ℕ)
    → let r = attribute a connections in
      bucket ℕ_discrete q r.0.connections_by_process ≡ keep_if (owned_by q) r.1
unfolding attribute bucket lookup
connections_by_process-attribute a connections q =
    bucket-attribute_loop a q (record { seen = []; by_process = []; by_key = [] }) connections

pub running : ProcessInfo → ProcessInfo
running info = record info { status = ProcessStatus.running }

-- The first that is there.
abbrev pub or_else : Option ProcessInfo → Option ProcessInfo → Option ProcessInfo
or_else (some p) o = some p
or_else none o = o

-- What the last event of a process says of it.
pub last_event : ℕ → List ProcessEvent → Option ProcessInfo
last_event q [] = none
last_event q (event ∷ events) =
    or_else (last_event q events)
      (ite (ℕ_discrete q (event_process event).process_id) (some (event_process event)) none)

lookup-cache_events :
    (q : ℕ) (cache : List (ℕ × ProcessInfo)) (events : List ProcessEvent)
    → lookup ℕ_discrete q (cache_events cache events)
      ≡ or_else (last_event q events) (lookup ℕ_discrete q cache)
unfolding cache_events last_event
lookup-cache_events q cache [] = refl
lookup-cache_events q cache (event ∷ events) =
    let info = event_process event in
    ground (
      arith,
      lookup-cache_events q (assign ℕ_discrete info.process_id info cache) events,
      lookup-assign ℕ_discrete q info.process_id info cache,
    )

lookup-cache_active :
    (q : ℕ) (cache active : List (ℕ × ProcessInfo))
    → HasUniqueKeys active
    → lookup ℕ_discrete q (cache_active cache active)
      ≡ or_else (Option.map running (lookup ℕ_discrete q active)) (lookup ℕ_discrete q cache)
unfolding cache_active lookup running
lookup-cache_active q cache [] u = refl
lookup-cache_active q cache ((pid, info) ∷ active) u = ground (
  arith,
  (lookup-none_iff ℕ_discrete pid active).1 (Nodup-cons.0 u).0,
  lookup-cache_active q (assign ℕ_discrete pid (running info) cache) active (Nodup-cons.0 u).1,
  lookup-assign ℕ_discrete q pid (running info) cache,
)

ProcessInfo-set : IsSet ProcessInfo
ProcessInfo-set = hlevel

-- After a synchronization with a map of active processes, what is last known of a process is what
-- the last of its events says, else its active entry, marked as running, else what was known
-- before, in whatever order the map is visited.
pub get_last_known_process-sync_processes :
    (order : Visit ℕ) (a : ConnectionAttributor) (active_processes : List (ℕ × ProcessInfo))
    (process_events : List ProcessEvent) (q : ℕ)
    → HasUniqueKeys active_processes
    → get_last_known_process (sync_processes order a active_processes process_events) q
      ≡ or_else (last_event q process_events) (
          or_else
            (Option.map running (lookup ℕ_discrete q active_processes))
            (get_last_known_process a q))
unfolding get_last_known_process sync_processes
get_last_known_process-sync_processes order a active_processes process_events q u =
    let p = order.visit-perm active_processes in
    lookup-cache_events q (cache_active a.process_cache (order.visit active_processes))
      process_events
    ∙ ap (or_else (last_event q process_events)) (
        lookup-cache_active q a.process_cache (order.visit active_processes)
          (Perm.nodup (Perm.symm (Perm.map (λ e. e.0) p)) u)
        ∙ ap (λ o. or_else (Option.map running o) (lookup ℕ_discrete q a.process_cache))
            (lookup-perm ℕ_discrete ProcessInfo-set q u p))
