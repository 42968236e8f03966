-- ===== src/Postgres/Refinement.antt =====
-- The abstract view of a table: a map from the ids to the rows that are not archived.
pub mod Tables
use dairycart.Prelude.{
  ℕ, ◌≡◌, refl, String, false, ◌==◌, Option, none, some, List, [], ◌∷◌, ◌++◌, if◌then◌else◌,
}
use dairycart.Models.Basics.{Time, Dairytime}
use dairycart.Storage.Answers.{Query, Command}
use dairycart.Postgres.Rows.{find}
use dairycart.Postgres.Statements.{
  Table, is_number, not_archived, both, is_unarchived, undefined_column, scan_row, select_one,
  insert_returning, update_returning,
}
use dairycart.Postgres.Laws.{
  IsAscending, append-IsAscending, map_where-IsAscending, live, changed, find-append, find-archive,
  find-change,
}

module _ {R : Type 0} (id : R → ℕ) where
  -- The ids ascend in the order of creation and are below the next one.
  abbrev pub IsSound : Table R → Type 0
  IsSound t = IsAscending id 0 t.rows t.next_id

module _ {R : Type 0} (id : R → ℕ) (archived_on : R → Dairytime) where
  abbrev pub view : Table R → ℕ → Option R
  view t n = find (live id archived_on n) t.rows

  -- On the table `t`, `get` looks the map up, `create` adds `row` under the next id, `update` changes the
  -- row with the id `m` by `set`, and `delete` removes the row with the id `k`; all say so at the id `n`,
  -- and the ids stay sound.
  abbrev pub Refines :
      {A : Type 0}
      → (ℕ → Query (Table R) R)
      → R
      → Command (Table R) A
      → (ℕ → R)
      → Command (Table R) Time
      → ℕ
      → (R → R)
      → Command (Table R) Time
      → ℕ
      → Table R
      → ℕ
      → Type 0
  Refines get zero_value create row update m set delete k t n =
      (get n t ≡ scan_row zero_value (view t n))
      × (view (create t).1 n ≡ (if n == t.next_id then some (row t.next_id) else view t n))
      × (view (update t).1 n ≡ changed id archived_on (n == m) set (view t n))
      × (view (delete t).1 n ≡ (if n == k then none else view t n))
      × IsSound id (create t).1
      × IsSound id (update t).1
      × IsSound id (delete t).1

  -- The statements of a table refine the map if they name only columns that it has, if a new row has the
  -- new id and is not archived, if an update keeps the id and the date of archiving, and if an archived
  -- row keeps its id.
  pub refines :
      (schema columns written returned set_columns : List String) (zero_value : R) {A : Type 0}
      (no_answer : A) (answer_of : ℕ → A) (row : ℕ → R) (set archive : R → R) (now : Time) (m k : ℕ)
      → undefined_column schema (columns ++ "archived_on" ∷ "id" ∷ []) ≡ none
      → undefined_column schema (written ++ returned) ≡ none
      → undefined_column schema (set_columns ++ "id" ∷ []) ≡ none
      → undefined_column schema ("archived_on" ∷ "id" ∷ []) ≡ none
      → ((n : ℕ) → id (row n) ≡ n)
      → ((n : ℕ) → archived_on (row n) ≡ none)
      → ((r : R) → id (set r) ≡ id r)
      → ((r : R) → archived_on (set r) ≡ archived_on r)
      → ((r : R) → id (archive r) ≡ id r)
      → ((r : R) → is_unarchived (archived_on (archive r)) ≡ false)
      → (t : Table R) (n : ℕ) → IsSound id t
      → Refines
          (λ n.
            select_one schema zero_value columns
              (both (not_archived archived_on) (is_number "id" id n)))
          zero_value
          (insert_returning schema written returned no_answer answer_of row)
          row
          (update_returning schema set_columns (is_number "id" id m) set now)
          m
          set
          (update_returning schema ("archived_on" ∷ []) (is_number "id" id k) archive now)
          k
          t
          n
  refines schema columns written returned set_columns zero_value no_answer answer_of row set archive
        now m k reads writes sets archives row_id row_live set_id set_live archive_id archive_gone t
        n h =
      rw (reads, writes, sets, archives)
        (
          refl,
          find-append id archived_on n 0 t.rows t.next_id (row t.next_id) h (row_id t.next_id)
              (row_live t.next_id),
          find-change id archived_on n m set set_id set_live t.rows,
          find-archive id archived_on n k archive archive_id archive_gone t.rows,
          append-IsAscending id 0 t.rows t.next_id (row t.next_id) h (row_id t.next_id),
          map_where-IsAscending id _ set set_id 0 t.rows t.next_id h,
          map_where-IsAscending id _ archive archive_id 0 t.rows t.next_id h,
        )
