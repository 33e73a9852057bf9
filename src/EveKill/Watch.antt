-- ===== src/EveKill/Watch.antt =====
-- src/eve-kill/watch.ts: the topics that a chat watches, the table kill_watches. `ORDER BY created_at`
-- keeps rows of the same time in rowid order. Ids come from the table, times are in seconds, and the
-- texts of errors are values.
pub mod Limits
mod Examples
use eveai.Base.{
  ℕ, ◌+◌, String, str_eq, Bool, true, false, ◌&&◌, Option, none, some, List, [], ◌∷◌, ◌++◌, leb,
  ltb, ◌==◌, if◌then◌else◌, ℤ, int_eq, count_where, exists_where, select_where, delete_where,
}

pub record WatchRow : Type 0 where
  pub id : ℕ
  pub chat_id : ℤ
  pub topic : String
  pub label : String
  pub created_at : ℕ

pub data WatchResult : Type 0 where
  ok : WatchResult
  already_watching : (name : String) → WatchResult
  too_many_watches : WatchResult
  not_watching : (topic : String) → WatchResult

abbrev pub of_chat : ℤ → WatchRow → Bool
of_chat chat_id r = int_eq r.chat_id chat_id

abbrev pub is_watch : ℤ → String → WatchRow → Bool
is_watch chat_id topic r = int_eq r.chat_id chat_id && str_eq r.topic topic

abbrev pub max_watches : ℕ
max_watches = 20

-- `label || topic`
abbrev shown_name : String → String → String
shown_name label topic = if str_eq label "" then topic else label

unfoldable pub add_watch :
    (id now : ℕ) → ℤ → (topic label : String) → List WatchRow → WatchResult × List WatchRow
add_watch id now chat_id topic label rows =
    if exists_where (is_watch chat_id topic) rows
    then (already_watching (shown_name label topic), rows)
    else if leb max_watches (count_where (of_chat chat_id) rows)
    then (too_many_watches, rows)
    else (
      ok,
      rows
          ++ record { id = id; chat_id = chat_id; topic = topic; label = label; created_at = now }
            ∷ [],
    )

unfoldable pub remove_watch : ℤ → String → List WatchRow → WatchResult × List WatchRow
remove_watch chat_id topic rows = (
  if count_where (is_watch chat_id topic) rows == 0 then not_watching topic else ok,
  delete_where (is_watch chat_id topic) rows,
)

unfoldable pub remove_all_watches : ℤ → List WatchRow → ℕ × List WatchRow
remove_all_watches chat_id rows =
    (count_where (of_chat chat_id) rows, delete_where (of_chat chat_id) rows)

unfoldable pub insert_by_time : WatchRow → List WatchRow → List WatchRow
insert_by_time r [] = r ∷ []
insert_by_time r (q ∷ rs) =
    let rest = insert_by_time r rs in if leb r.created_at q.created_at then r ∷ q ∷ rs else q ∷ rest

unfoldable pub oldest_first : List WatchRow → List WatchRow
unfolding insert_by_time
oldest_first [] = []
oldest_first (r ∷ rs) = insert_by_time r (oldest_first rs)

unfoldable pub list_watches : ℤ → List WatchRow → List WatchRow
unfolding oldest_first
list_watches chat_id rows = oldest_first (select_where (of_chat chat_id) rows)

pub data WatchCall : Type 0 where
  adds : (id now : ℕ) (chat_id : ℤ) (topic label : String) → WatchCall
  removes : (chat_id : ℤ) (topic : String) → WatchCall
  removes_all : (chat_id : ℤ) → WatchCall

unfoldable pub run_calls : List WatchRow → List WatchCall → List WatchRow
unfolding add_watch remove_watch remove_all_watches
run_calls rows [] = rows
run_calls rows (adds id now chat_id topic label ∷ cs) =
    run_calls (add_watch id now chat_id topic label rows).1 cs
run_calls rows (removes chat_id topic ∷ cs) = run_calls (remove_watch chat_id topic rows).1 cs
run_calls rows (removes_all chat_id ∷ cs) = run_calls (remove_all_watches chat_id rows).1 cs
