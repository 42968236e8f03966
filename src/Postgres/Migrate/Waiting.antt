-- ===== src/Postgres/Migrate/Waiting.antt =====
-- How long the wait for the database takes, and when it succeeds.
use dairycart.Prelude.{
  subst, String, ℕ, zero, suc, ◌+◌, ◌-◌, ◌≤◌, ◌<◌, ◌==◌, ◌≡◌, ◌∙◌, sym, ap, ◌⊎◌, inl, inr, refl,
  Bool, true, false, Bool-cases, Option, some, arith,
}
use dairycart.Storage.Answers.{Err, nil, no_rows, failed, is_err, Answer}
use dairycart.Api.Rules.{is_err-false}
use dairycart.Postgres.Migrate.{
  Availability, ping_loop, database_is_available, Migrations, or_no_change, run, load_after,
  prepare_for_migration, migrate,
}

-- The loop that has failed `from` times ends well at a ping that gets an answer, or badly at the fifth.
abbrev pub IsEnd : (ℕ → Err) → ℕ → Availability → Type 0
IsEnd ping from a =
    (from < a.pings)
    × (a.pings ≤ 5)
    × ((a.err ≡ nil) × (ping (a.pings - 1) ≡ nil) ⊎ (is_err a.err ≡ true) × (a.pings ≡ 5))

less_one : (n : ℕ) → n + 1 - 1 ≡ n
less_one n = omega arith

eq_five : (n : ℕ) → (n + 1 == 5) ≡ true → n + 1 ≡ 5
eq_five n e = ground arith

not_five : (n m : ℕ) → suc m + n ≡ 5 → (n + 1 == 5) ≡ false → 0 < m
not_five n m h e = ground arith

loop-IsEnd :
    (fuel : ℕ) (ping : ℕ → Err) (from : ℕ)
    → fuel + from ≡ 5
    → 0 < fuel
    → (a : Availability) × (ping_loop fuel ping from ≡ some a) × IsEnd ping from a
unfolding ping_loop
loop-IsEnd zero ping from e h = absurd (omega arith)
loop-IsEnd (suc fuel) ping from e h = elim (Bool-cases (is_err (ping from))) [
  | inl bad ↦ elim (Bool-cases (from + 1 == 5)) [
    | inl last ↦
        rw (bad, last)
          (
            _,
            refl,
            (
              omega arith,
              (let five = eq_five from last in omega arith),
              inr (refl, eq_five from last),
            ),
          )
    | inr more ↦
        let (a, same, (after, most, end)) =
          loop-IsEnd fuel ping (from + 1) (omega arith) (not_five from fuel e more) in
        rw (bad, more) (a, same, (omega arith, most, end))
  ]
  | inr good ↦ rw good (
    _,
    refl,
    (omega arith, omega arith, inl (refl, ap ping (less_one from) ∙ is_err-false (ping from) good)),
  )
]

-- The wait for the database ends, after one to five pings: with no error at a ping that got an answer, or
-- with an error at the fifth.
pub database_is_available-IsEnd :
    (ping : ℕ → Err) → (a : Availability) × (database_is_available ping ≡ some a) × IsEnd ping 0 a
unfolding database_is_available
database_is_available-IsEnd ping = loop-IsEnd 5 ping 0 refl (omega arith)

not_last :
    (fuel from ahead : ℕ) → suc fuel + from ≡ 5 → suc ahead < suc fuel → (from + 1 == 5) ≡ false
not_last fuel from ahead e h = ground arith

zero_plus : (n : ℕ) → 0 + n ≡ n
zero_plus n = omega arith

loop_answered :
    (fuel : ℕ) (ping : ℕ → Err) (from ahead : ℕ)
    → fuel + from ≡ 5
    → ahead < fuel
    → ping (from + ahead) ≡ nil
    → (a : Availability) × (ping_loop fuel ping from ≡ some a)
      × (a.err ≡ nil)
      × (a.pings ≤ from + ahead + 1)
unfolding ping_loop
loop_answered zero ping from ahead e h p = absurd (omega arith)
loop_answered (suc fuel) ping from zero e h p =
    rw (sym (ap ping (plus_zero from)) ∙ p) (_, refl, refl, omega arith)
  where
    plus_zero : (n : ℕ) → n + zero ≡ n
    plus_zero n = omega arith
loop_answered (suc fuel) ping from (suc ahead) e h p = elim (Bool-cases (is_err (ping from))) [
  | inl bad ↦
      let (a, same, ok, most) =
        loop_answered fuel ping (from + 1) ahead (omega arith) (omega arith)
          (ap ping (shift from ahead) ∙ p) in
      rw (bad, not_last fuel from ahead e h) (a, same, ok, omega arith)
  | inr good ↦ rw good (_, refl, refl, omega arith)
]
  where
    shift : (n m : ℕ) → n + 1 + m ≡ n + suc m
    shift n m = omega arith

-- If the database answers one of the first five pings, the wait ends without an error, at that ping at the
-- latest.
pub database_is_available-answered :
    (ping : ℕ → Err) (n : ℕ)
    → n < 5
    → ping n ≡ nil
    → (a : Availability) × (database_is_available ping ≡ some a) × (a.err ≡ nil) × (a.pings ≤ n + 1)
unfolding database_is_available
database_is_available-answered ping n h p =
    let (a, same, ok, most) = loop_answered 5 ping 0 n refl h (ap ping (zero_plus n) ∙ p) in
    (a, same, ok, omega arith)

module _ {D : Type 0} (m : Migrations D) (is_example : String → Bool)
    (asset : String → Answer (Option String)) where
  -- A migration always ends: with an error and the database as it was, or with what the migrations made of
  -- it, where the error that there was nothing to change is dropped.
  pub migrate_lem :
      (ping : ℕ → Err) (db_url : String) (load_example_data : Bool) (d : D)
      → (r : Err × D) × (migrate m is_example asset ping db_url load_example_data d ≡ some r)
        × ((is_err r.0 ≡ true) × (r.1 ≡ d) ⊎ (r ≡ or_no_change m is_example asset (m.up d)))
  unfolding migrate prepare_for_migration
  migrate_lem ping db_url load_example_data d = by_wait (database_is_available-IsEnd ping)
    where
      Ended : Option (Err × D) → Type 0
      Ended o =
          (r : Err × D) × (o ≡ some r)
          × ((is_err r.0 ≡ true) × (r.1 ≡ d) ⊎ (r ≡ or_no_change m is_example asset (m.up d)))

      by_load : (e : Err) → Ended (run m is_example asset m.up d (some e))
      by_load nil = (_, refl, inr refl)
      by_load no_rows = (_, refl, inl (refl, refl))
      by_load (failed t) = (_, refl, inl (refl, refl))

      by_wait :
          (a : Availability) × (database_is_available ping ≡ some a) × IsEnd ping 0 a
          → Ended (
              run m is_example asset m.up d (
                load_after m is_example asset
                  (database_is_available ping)
                  db_url
                  load_example_data))
      by_wait (a, same, _) =
          subst
            (λ o. Ended (
              run m is_example asset m.up d
                (load_after m is_example asset o db_url load_example_data)))
            (sym same) (by_load _)
