-- ===== src/Postgres/Statements.antt =====
-- The statements that storage/v1/database/postgres sends, on the rows of one table. A statement that names
-- a column that the table does not have is an error and changes nothing. A table keeps its rows in the order in
-- which they were created, but a query without ORDER BY answers them in an order of its own; `now` is NOW(),
-- which is the same in all of a transaction.
use dairycart.Prelude.{
  ℕ, ◌+◌, ◌==◌, String, Bool, true, false, ◌&&◌, Option, none, some, List, [], ◌∷◌, ◌++◌, str_eq,
  filter, if◌then◌else◌, concat,
}
use dairycart.Models.Basics.{Float64, Time, Dairytime, QueryFilter}
use dairycart.Storage.Answers.{Answer, Query, Command, Created, nil, no_rows, failed}
use dairycart.Postgres.Rows.{find, any, map_where}
use dairycart.Postgres.Filter.{SelectBuilder, apply_query_filter_to_query_builder}

-- The rows in the order of their creation, and the next value of the serial id.
pub record Table (R : Type 0) : Type 0 where
  pub rows : List R
  pub next_id : ℕ

-- A WHERE clause: the columns that it names, and the rows that satisfy it.
pub record Where (R : Type 0) : Type 0 where
  pub names : List String
  pub holds : R → Bool

abbrev pub is_unarchived : Dairytime → Bool
is_unarchived none = true
is_unarchived (some t) = false

module _ {R : Type 0} where
  -- column = $n
  abbrev pub is_number : String → (R → ℕ) → ℕ → Where R
  is_number column of n = record { names = column ∷ []; holds = λ r. of r == n }

  abbrev pub is_text : String → (R → String) → String → Where R
  is_text column of s = record { names = column ∷ []; holds = λ r. str_eq (of r) s }

  -- archived_on IS NULL
  abbrev pub not_archived : (R → Dairytime) → Where R
  not_archived of = record { names = "archived_on" ∷ []; holds = λ r. is_unarchived (of r) }

  -- The same of a table whose rows have no such column.
  abbrev pub not_archived_nowhere : Where R
  not_archived_nowhere = record { names = "archived_on" ∷ []; holds = λ r. true }

  -- ... AND ...
  abbrev pub both : Where R → Where R → Where R
  both a b = record { names = a.names ++ b.names; holds = λ r. a.holds r && b.holds r }

abbrev pub has_name : String → List String → Bool
has_name c [] = false
has_name c (s ∷ ss) = if str_eq c s then true else has_name c ss

-- The first name that is no column of the table.
abbrev pub undefined_column : List String → List String → Option String
undefined_column schema [] = none
undefined_column schema (c ∷ cs) =
    let rest = undefined_column schema cs in if has_name c schema then rest else some c

abbrev pub no_column : String → String
no_column c = concat ("pq: column \"" ∷ c ∷ "\" does not exist" ∷ [])

module _ {A : Type 0} where
  -- The answer to a statement with this undefined column.
  abbrev pub answered : Option String → A → Answer A → Answer A
  answered none zero_value a = a
  answered (some c) zero_value a = record { value = zero_value; err = failed (no_column c) }

  abbrev pub executed : {T : Type 0} → Option String → A → T → Answer A × T → Answer A × T
  executed none zero_value t r = r
  executed (some c) zero_value t r = (record { value = zero_value; err = failed (no_column c) }, t)

  -- QueryRow(...).Scan(...)
  abbrev pub scan_row : A → Option A → Answer A
  scan_row zero_value none = record { value = zero_value; err = no_rows }
  scan_row zero_value (some a) = record { value = a; err = nil }

-- RETURNING a date, which no row returns if none was changed.
abbrev pub returning : Bool → Time → Answer Time
returning changed now =
    if changed then (record { value = now; err = nil }) else (record { value = 0; err = no_rows })

module _ {R : Type 0} (schema : List String) where
  -- SELECT columns FROM ... WHERE w, of which the caller scans the first row.
  abbrev pub select_one : R → List String → Where R → Query (Table R) R
  select_one zero_value columns w t =
      answered (undefined_column schema (columns ++ w.names)) zero_value
        (scan_row zero_value (find w.holds t.rows))

  -- SELECT columns FROM ... WHERE w, of which the caller scans every row. There is no ORDER BY: `arrange` is
  -- the order in which the rows come.
  abbrev pub select_all : (List R → List R) → List String → Where R → Query (Table R) (List R)
  select_all arrange columns w t =
      answered (undefined_column schema (columns ++ w.names)) []
        (record { value = arrange (filter w.holds t.rows); err = nil })

  -- SELECT EXISTS(SELECT ... WHERE w), scanned into a string that is compared with "true".
  abbrev pub select_exists : List String → Where R → Query (Table R) Bool
  select_exists columns w t =
      answered (undefined_column schema (columns ++ w.names)) false
        (record { value = any w.holds t.rows; err = nil })

  -- INSERT INTO ... (columns) VALUES ... RETURNING returned, whose answer is made of the new id.
  abbrev pub insert_returning :
      {A : Type 0} → List String → List String → A → (ℕ → A) → (ℕ → R) → Command (Table R) A
  insert_returning columns returned zero_value answer_of row t =
      executed (undefined_column schema (columns ++ returned)) zero_value t (
        record { value = answer_of t.next_id; err = nil },
        record { rows = t.rows ++ row t.next_id ∷ []; next_id = t.next_id + 1 },
      )

  -- UPDATE ... SET columns WHERE w RETURNING one of the columns that were set.
  abbrev pub update_returning : List String → Where R → (R → R) → Time → Command (Table R) Time
  update_returning columns w change now t =
      executed (undefined_column schema (columns ++ w.names)) 0 t
        (returning (any w.holds t.rows) now, record t { rows = map_where w.holds change t.rows })

  -- UPDATE ... SET columns WHERE w without RETURNING: QueryRow(...).Scan(...) finds no row to scan.
  abbrev pub update_silently : List String → Where R → (R → R) → Command (Table R) Time
  update_silently columns w change t =
      executed (undefined_column schema (columns ++ w.names)) 0 t
        (record { value = 0; err = no_rows }, record t { rows = map_where w.holds change t.rows })

-- A new row's id and `created_on`, and what the caller has if there is none.
abbrev pub created_at : Time → ℕ → Created
created_at now id = record { id = id; created_on = now }

abbrev pub not_created : Created
not_created = record { id = 0; created_on = 0 }

-- squirrel's `Select(columns...).From(table)`, the methods of its builder, and the answer of PostgreSQL to
-- the query that was built, on a table with these columns and rows; `times` reads a column of dates.
pub record Queries (Q : Type 0) : Type 1 where
  pub select_from : List String → String → Q
  pub builder : SelectBuilder Q
  -- The order in which the rows of a query without ORDER BY come, at a time.
  pub arrange : {R : Type 0} → Time → List R → List R
  -- What a column of type numeric(15, 2) holds of a float64 and gives back.
  pub numeric : Float64 → Float64
  pub answer_rows :
      {R : Type 0} → List String → (String → R → Option Time) → Q → List R → Answer (List R)
  pub answer_count : {R : Type 0} → List String → (String → R → Option Time) → Q → List R → Answer ℕ

-- The dates of a row under the names of their columns.
abbrev pub dates : Time → Dairytime → Dairytime → String → Option Time
dates created updated archived c =
    if str_eq c "created_on"
    then some created
    else if str_eq c "updated_on"
    then updated
    else if str_eq c "archived_on"
    then archived
    else none

module _ {Q : Type 0} (sq : Queries Q) where
  -- applyQueryFilterToQueryBuilder(queryBuilder.Select(columns...).From(table), qf, includeOffset)
  abbrev pub filtered : List String → String → QueryFilter → Bool → Q
  filtered columns table qf include_offset =
      apply_query_filter_to_query_builder sq.builder (sq.select_from columns table) (some qf)
        include_offset

  -- On an error the list is nil.
  abbrev pub scanned_list : {R : Type 0} → Answer (List R) → Answer (List R)
  scanned_list a = elim a.err [
    | nil ↦ record { value = a.value; err = nil }
    | e ↦ record { value = []; err = e }
  ]
