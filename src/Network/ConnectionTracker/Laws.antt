-- ===== src/Network/ConnectionTracker/Laws.antt =====
-- ConnectionTracker.cpp: what a snapshot changes and what it reports.
use mathlib.Core.List.{lookup, mem-append}
use mathlib.Core.Logic.Iff
use mathlib.Core.Option
use data_exfiltration_detect.Common.{
  ℕ, ◌≡◌, refl, ◌↔◌, ◌∨₁◌, List, [], ◌∷◌, Mem, true, Option, none, some, arith, ◌∙◌, sym,
}
use data_exfiltration_detect.Common.Text.{Text, text_discrete}
use data_exfiltration_detect.Common.Maps.{Visit, HasUniqueKeys}
use data_exfiltration_detect.Common.Snapshots.{
  first_row, first_row-key, NoRow, first_row-none_iff, lookup-scan_rows, scan_rows-HasUniqueKeys,
  mem-missing_from_iff, missing_from-visit_none,
}
use data_exfiltration_detect.Network.Types.{
  Connection, ConnectionEvent, make_key, HasPlainAddresses, SameIdentity, make_key-eq_iff,
}
use data_exfiltration_detect.Network.ConnectionTracker.{
  ConnectionTracker, created_event, closed_event, next_active, update, reset,
}

-- The first row of a snapshot with a key.
abbrev pub row_of : Text → List Connection → Option Connection
row_of = first_row text_discrete make_key

-- The tracked connection with a key.
abbrev pub active : ConnectionTracker → Text → Option Connection
active t k = lookup text_discrete k t.active_connections

-- Each connection is held once, under its own key.
pub record IsValid (t : ConnectionTracker) : Type 0 where
  pub unique : HasUniqueKeys t.active_connections
  pub own_entry : (k : Text) (c : Connection) → active t k ≡ some c → make_key c ≡ k

Connection-set : IsSet Connection
Connection-set = hlevel

next_active-HasUniqueKeys : (current : List Connection) → HasUniqueKeys (next_active current)
unfolding next_active
next_active-HasUniqueKeys current = scan_rows-HasUniqueKeys text_discrete make_key (λ c. c) current

map_id : (o : Option Connection) → Option.map (λ (c : Connection). c) o ≡ o
map_id none = refl
map_id (some c) = refl

lookup-next_active :
    (k : Text) (current : List Connection)
    → lookup text_discrete k (next_active current) ≡ row_of k current
unfolding next_active
lookup-next_active k current =
    lookup-scan_rows text_discrete make_key (λ c. c) k current ∙ map_id (row_of k current)

-- After any update the tracked connections are the first row with each key of the snapshot.
active-update :
    (order : Visit Text) (now : ℕ) (t : ConnectionTracker) (current : List Connection) (k : Text)
    → active (update order now t current).0 k ≡ row_of k current
unfolding update
active-update order now t current k = ground (arith, lookup-next_active k current)

-- Every update leaves a valid tracker, whatever the tracker and the snapshot were.
pub update-IsValid :
    (order : Visit Text) (now : ℕ) (t : ConnectionTracker) (current : List Connection)
    → IsValid (update order now t current).0
unfolding update
update-IsValid order now t current = record {
  unique = ground (arith, next_active-HasUniqueKeys current);
  own_entry = λ k c h.
      first_row-key text_discrete make_key k current c
        (sym (active-update order now t current k) ∙ h);
}

-- A CREATED event is of a connection that is tracked now and was not before.
abbrev pub Created : ℕ → ConnectionTracker → ConnectionTracker → ConnectionEvent → Type 0
Created now t t' e = ∥ (
    (k : Text) × (c : Connection) × (active t' k ≡ some c)
    × (active t k ≡ none)
    × (e ≡ created_event now c)) ∥₁

-- A CLOSED event is of a connection that was tracked before and is not now.
abbrev pub Closed : ℕ → ConnectionTracker → ConnectionTracker → ConnectionEvent → Type 0
Closed now t t' e = ∥ (
    (k : Text) × (c : Connection) × (active t k ≡ some c)
    × (active t' k ≡ none)
    × (e ≡ closed_event now c)) ∥₁

-- A seeded, valid tracker reports exactly the connections that appeared, as CREATED, and those
-- that went, as CLOSED, in whatever order the loops visit the maps.
pub mem-update_connections_iff :
    (order : Visit Text) (now : ℕ) (t : ConnectionTracker) (current : List Connection)
    → t.seeded ≡ true
    → IsValid t
    → (e : ConnectionEvent)
    → let r = update order now t current in Mem e r.1 ↔ (Created now t r.0 e ∨₁ Closed now t r.0 e)
unfolding update
mem-update_connections_iff order now t current seeded v e = rw seeded (
    Iff.trans mem-append (
      Iff.or
        (mem-missing_from_iff text_discrete t.active_connections (created_event now) order
          Connection-set (next_active current) (next_active-HasUniqueKeys current) e)
        (mem-missing_from_iff text_discrete (next_active current) (closed_event now) order
          Connection-set t.active_connections v.unique e)))

-- The first snapshot after a reset reports nothing, and the same snapshot again reports nothing.
pub update_again :
    (order : Visit Text) (now later : ℕ) (t : ConnectionTracker) (current : List Connection)
    → let first = update order now (reset t) current in
      (first.1 ≡ []) × ((update order later first.0 current).1 ≡ [])
unfolding update reset
update_again order now later t current = (
  refl,
  rw (
    missing_from-visit_none text_discrete (next_active current) (created_event later) order
        Connection-set (next_active current) (next_active-HasUniqueKeys current) (λ k held. held),
    missing_from-visit_none text_discrete (next_active current) (closed_event later) order
        Connection-set (next_active current) (next_active-HasUniqueKeys current) (λ k held. held),
  ),
)

-- No row of a snapshot is the connection.
abbrev pub NotSeen : Connection → List Connection → Type 0
NotSeen c [] = Unit {0}
NotSeen c (d ∷ rows) = (¬ SameIdentity c d) × NotSeen c rows

abbrev ArePlain : List Connection → Type 0
ArePlain [] = Unit {0}
ArePlain (d ∷ rows) = HasPlainAddresses d × ArePlain rows

NoRow-NotSeen_iff :
    (c : Connection) (rows : List Connection)
    → HasPlainAddresses c
    → ArePlain rows
    → NoRow text_discrete make_key (make_key c) rows ↔ NotSeen c rows
NoRow-NotSeen_iff c [] hc h = (λ x. tt, λ x. tt)
NoRow-NotSeen_iff c (d ∷ rows) hc h =
    Iff.and (Iff.not (make_key-eq_iff c d hc h.0)) (NoRow-NotSeen_iff c rows hc h.1)

-- With addresses that hold no separator, a connection is not tracked after an update exactly when
-- no row of the snapshot has its protocol, process and 4-tuple.
pub untracked_iff :
    (order : Visit Text) (now : ℕ) (t : ConnectionTracker) (current : List Connection)
    (c : Connection)
    → HasPlainAddresses c
    → ArePlain current
    → (active (update order now t current).0 (make_key c) ≡ none) ↔ NotSeen c current
untracked_iff order now t current c hc h = rw (active-update order now t current (make_key c)) (
    Iff.trans (first_row-none_iff text_discrete make_key (make_key c) current)
      (NoRow-NotSeen_iff c current hc h))
