-- ===== src/EveMap/Avoid.antt =====
-- src/eve-map/avoid.ts: the pilot's standing avoid list, the table map_avoid_systems.
-- A `Set` is the list of its elements in the order of insertion. `ORDER BY created_at_ms DESC` keeps
-- rows of the same time in rowid order, which SQL leaves open. The graph is that of map-graph.ts.
pub mod Limits
pub mod Outcomes
pub mod Sets
mod Examples
use eveai.Base.{
  ℕ, ◌+◌, String, Bool, true, false, not, ◌&&◌, Option, none, some, List, [], ◌∷◌, ◌++◌, map, leb,
  ltb, ◌==◌, if◌then◌else◌, ℤ, pos, contains, count_where, exists_where, select_where, delete_where,
  update_where,
}
use eveai.Eve.MapGraph.{MapSystem, GraphCache, get_map_system}

pub record AvoidRow : Type 0 where
  pub user_id : ℕ
  pub system_id : ℕ
  pub note : Option String
  pub created_at_ms : ℕ

-- The name of the map, or `System ${id}`.
pub data SystemName : Type 0 where
  named : String → SystemName
  numbered : (system_id : ℕ) → SystemName

pub record AvoidEntry : Type 0 where
  pub system_id : ℕ
  pub name : SystemName
  pub security : ℤ
  pub region_name : Option String
  pub note : Option String
  pub created_at_ms : ℕ

pub data AddResult : Type 0 where
  added : (entry : AvoidEntry) (already_present : Bool) → AddResult
  not_on_map : (system_id : ℕ) → AddResult
  list_full : AddResult

abbrev pub max_avoid_systems : ℕ
max_avoid_systems = 200

abbrev pub of_pilot : ℕ → AvoidRow → Bool
of_pilot user_id r = r.user_id == user_id

abbrev pub is_row : (user_id system_id : ℕ) → AvoidRow → Bool
is_row user_id system_id r = r.user_id == user_id && r.system_id == system_id

abbrev name_of : ℕ → Option MapSystem → SystemName
name_of id none = numbered id
name_of id (some s) = named s.name

abbrev security_or_zero : Option MapSystem → ℤ
security_or_zero none = pos 0
security_or_zero (some s) = s.security

abbrev region_of : Option MapSystem → Option String
region_of none = none
region_of (some s) = s.region_name

abbrev pub entry_of_row : GraphCache → AvoidRow → AvoidEntry
entry_of_row g r =
    let system = get_map_system g r.system_id in
    record {
      system_id = r.system_id;
      name = name_of r.system_id system;
      security = security_or_zero system;
      region_name = region_of system;
      note = r.note;
      created_at_ms = r.created_at_ms;
    }

-- Newest first.
unfoldable pub insert_row : AvoidRow → List AvoidRow → List AvoidRow
insert_row r [] = r ∷ []
insert_row r (q ∷ rs) =
    let rest = insert_row r rs in
    if leb q.created_at_ms r.created_at_ms then r ∷ q ∷ rs else q ∷ rest

unfoldable pub newest_first : List AvoidRow → List AvoidRow
unfolding insert_row
newest_first [] = []
newest_first (r ∷ rs) = insert_row r (newest_first rs)

unfoldable pub list_avoided : GraphCache → List AvoidRow → ℕ → List AvoidEntry
unfolding newest_first
list_avoided g rows user_id =
    map (entry_of_row g) (newest_first (select_where (of_pilot user_id) rows))

unfoldable pub avoid_set_for : List AvoidRow → ℕ → List ℕ
avoid_set_for rows user_id = map (λ r. r.system_id) (select_where (of_pilot user_id) rows)

-- `COALESCE(excluded.note, note)`
abbrev pub coalesce : Option String → Option String → Option String
coalesce none old = old
coalesce (some text) old = some text

abbrev pub with_note : Option String → AvoidRow → AvoidRow
with_note note r = record r { note = coalesce note r.note }

-- `INSERT ... ON CONFLICT(user_id, system_id) DO UPDATE SET note = ...`
unfoldable pub upsert_row : AvoidRow → List AvoidRow → List AvoidRow
upsert_row r rows =
    if exists_where (is_row r.user_id r.system_id) rows
    then update_where (is_row r.user_id r.system_id) (with_note r.note) rows
    else rows ++ r ∷ []

abbrev pub row_of : (user_id system_id : ℕ) → Option String → ℕ → AvoidRow
row_of user_id system_id note now = record {
  user_id = user_id;
  system_id = system_id;
  note = note;
  created_at_ms = now;
}

abbrev pub new_entry : MapSystem → ℕ → Option String → ℕ → AvoidEntry
new_entry s system_id note now = record {
  system_id = system_id;
  name = named s.name;
  security = s.security;
  region_name = s.region_name;
  note = note;
  created_at_ms = now;
}

-- `addAvoided` with the system that the map has.
abbrev add_known :
    List AvoidRow
    → (user_id system_id : ℕ) → Option String
    → ℕ
    → Option MapSystem
    → AddResult × List AvoidRow
unfolding upsert_row
add_known rows user_id system_id text now none = (not_on_map system_id, rows)
add_known rows user_id system_id text now (some s) =
    let existing = exists_where (is_row user_id system_id) rows in
    if not existing && leb max_avoid_systems (count_where (of_pilot user_id) rows)
    then (list_full, rows)
    else (
      added (new_entry s system_id text now) existing,
      upsert_row (row_of user_id system_id text now) rows,
    )

unfoldable pub add_avoided :
    GraphCache
    → List AvoidRow
    → (user_id system_id : ℕ) → Option String
    → ℕ
    → AddResult × List AvoidRow
unfolding upsert_row
add_avoided g rows user_id system_id note now =
    add_known rows user_id system_id note now (get_map_system g system_id)

unfoldable pub remove_avoided : List AvoidRow → (user_id system_id : ℕ) → Bool × List AvoidRow
remove_avoided rows user_id system_id = (
  ltb 0 (count_where (is_row user_id system_id) rows),
  delete_where (is_row user_id system_id) rows,
)

unfoldable pub clear_avoided : List AvoidRow → ℕ → ℕ × List AvoidRow
clear_avoided rows user_id =
    (count_where (of_pilot user_id) rows, delete_where (of_pilot user_id) rows)

-- `Set.add` and `Set.delete` for each of the ids.
unfoldable pub add_each : List ℕ → List ℕ → List ℕ
add_each ids [] = ids
add_each ids (id ∷ more) = add_each (if contains id ids then ids else ids ++ id ∷ []) more

unfoldable pub delete_each : List ℕ → List ℕ → List ℕ
delete_each ids [] = ids
delete_each ids (id ∷ more) = delete_each (delete_where (λ x. x == id) ids) more

unfoldable pub effective_avoid_set :
    List AvoidRow → (user_id : ℕ) → (request_avoid keep : List ℕ) → List ℕ
unfolding avoid_set_for add_each delete_each
effective_avoid_set rows user_id request_avoid keep =
    delete_each (add_each (avoid_set_for rows user_id) request_avoid) keep

-- The calls that change the table.
pub data Call : Type 0 where
  adds : (user_id system_id : ℕ) (note : Option String) (now : ℕ) → Call
  removes : (user_id system_id : ℕ) → Call
  clears : (user_id : ℕ) → Call

unfoldable pub apply : GraphCache → List AvoidRow → Call → List AvoidRow
unfolding add_avoided remove_avoided clear_avoided
apply g rows (adds user_id system_id note now) = (add_avoided g rows user_id system_id note now).1
apply g rows (removes user_id system_id) = (remove_avoided rows user_id system_id).1
apply g rows (clears user_id) = (clear_avoided rows user_id).1

unfoldable pub apply_all : GraphCache → List AvoidRow → List Call → List AvoidRow
unfolding apply
apply_all g rows [] = rows
apply_all g rows (c ∷ cs) = apply_all g (apply g rows c) cs
