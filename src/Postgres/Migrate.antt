-- ===== src/Postgres/Migrate.antt =====
-- storage/v1/database/postgres/migrate.go: waiting for the database, and migrating it up or down.
pub mod Waiting
use dairycart.Prelude.{
  ℕ, zero, suc, ◌+◌, ◌==◌, String, Bool, not, ◌&&◌, Option, none, some, [], ◌∷◌, concat,
  if◌then◌else◌,
}
use dairycart.Storage.Answers.{Err, nil, failed, is_err, text, Answer}

abbrev pub max_connection_attempts : ℕ
max_connection_attempts = 5

-- What `databaseIsAvailable` returns, and how many pings it took.
pub record Availability : Type 0 where
  pub err : Err
  pub pings : ℕ

-- The loop after `unsuccessful` pings, all of which failed; `ping n` is the error of the n-th ping. No more
-- fuel is none.
unfoldable pub ping_loop : ℕ → (ℕ → Err) → ℕ → Option Availability
ping_loop zero ping unsuccessful = none
ping_loop (suc fuel) ping unsuccessful =
    let rest = ping_loop fuel ping (unsuccessful + 1) in
    if is_err (ping unsuccessful)
    then (if unsuccessful + 1 == max_connection_attempts
        then some (record {
          err = failed (
              concat
                ("failed to connect to the database: " ∷ text (ping unsuccessful) ∷ "\n" ∷ []));
          pings = unsuccessful + 1;
        })
        else rest)
    else some (record { err = nil; pings = unsuccessful + 1 })

unfoldable pub database_is_available : (ℕ → Err) → Option Availability
unfolding ping_loop
database_is_available ping = ping_loop max_connection_attempts ping 0

-- strings.Contains(name, "example_data") is `is_example`, `migrations.Asset` is `asset`. A nil slice is
-- none.
unfoldable pub example_asset :
    (String → Bool) → (String → Answer (Option String)) → Bool → String → Answer (Option String)
example_asset is_example asset load_example_data name =
    if is_example name && load_example_data
    then asset name
    else if is_example name && not load_example_data
    then (record { value = none; err = nil })
    else asset name

-- mattes/migrate over a database `D`: the source and the connection, the two runs, and whether an error
-- is `migrate.ErrNoChange`.
pub record Migrations (D : Type 0) : Type 0 where
  pub load : (String → Answer (Option String)) → String → Err
  pub up : D → Err × D
  pub down : D → Err × D
  pub is_no_change : Err → Bool

module _ {D : Type 0} (m : Migrations D) (is_example : String → Bool)
    (asset : String → Answer (Option String)) where
  -- Loading the migrations after the wait; none if the loop is out of fuel.
  abbrev pub load_after : Option Availability → String → Bool → Option Err
  load_after none db_url load_example_data = none
  load_after (some a) db_url load_example_data = some (
      if is_err a.err
      then a.err
      else m.load (example_asset is_example asset load_example_data) db_url)

  unfoldable pub prepare_for_migration : (ℕ → Err) → String → Bool → Option Err
  unfolding database_is_available example_asset
  prepare_for_migration ping = load_after (database_is_available ping)

  abbrev pub or_no_change : Err × D → Err × D
  or_no_change (e, d) = if m.is_no_change e then (nil, d) else (e, d)

  abbrev pub run : (D → Err × D) → D → Option Err → Option (Err × D)
  run go d none = none
  run go d (some e) = if is_err e then some (e, d) else some (or_no_change (go d))

  unfoldable pub migrate : (ℕ → Err) → String → Bool → D → Option (Err × D)
  unfolding prepare_for_migration
  migrate ping db_url load_example_data d =
      run m.up d (prepare_for_migration ping db_url load_example_data)

  unfoldable pub downgrade : (ℕ → Err) → String → Bool → D → Option (Err × D)
  unfolding prepare_for_migration
  downgrade ping db_url load_example_data d =
      run m.down d (prepare_for_migration ping db_url load_example_data)
