-- ===== src/Postgres/Database/Writing.antt =====
-- What a writing statement leaves: the database with the new table, or an error and the database as it was.
use dairycart.Prelude.{true, String, ◌≡◌, refl, false, Option, none, some}
use dairycart.Storage.Answers.{Answer, Command, is_failure}
use dairycart.Postgres.Statements.{Table}
use dairycart.Postgres.Database.{Database, writing, unless_violated}

module _ {A R : Type 0} (violated : Database → Option String) (get : Database → Table R)
    (put : Table R → Database → Database) (zero_value : A) (statement : Command (Table R) A)
    (d : Database) where
  -- Without a failure the table was written.
  pub writing-put :
      is_failure (writing violated get put zero_value statement d).0.err ≡ false
      → (writing violated get put zero_value statement d).1 ≡ put (statement (get d)).1 d
  unfolding writing
  writing-put = by_check (violated (put (statement (get d)).1 d))
    where
      by_check :
          (o : Option String)
          → is_failure
              (unless_violated o zero_value d
                ((statement (get d)).0, put (statement (get d)).1 d)).0.err
            ≡ false
          → (unless_violated o zero_value d ((statement (get d)).0, put (statement (get d)).1 d)).1
            ≡ put (statement (get d)).1 d
      by_check none e = refl
      by_check (some m) e = cc

  -- What holds of the database and of the database with the new table holds after the statement.
  pub writing-keeps :
      (P : Database → Type 0)
      → P d
      → P (put (statement (get d)).1 d)
      → P (writing violated get put zero_value statement d).1
  unfolding writing
  writing-keeps P h k = by_check (violated (put (statement (get d)).1 d))
    where
      by_check :
          (o : Option String)
          → P
              (unless_violated o zero_value d
                ((statement (get d)).0, put (statement (get d)).1 d)).1
      by_check none = k
      by_check (some m) = h

-- A statement that fails and leaves the database as it was.
abbrev pub IsUseless : {A : Type 0} → Database → Answer A × Database → Type 0
IsUseless d (a, d') = (is_failure a.err ≡ true) × (d' ≡ d)

module _ {A R : Type 0} (violated : Database → Option String) (get : Database → Table R)
    (put : Table R → Database → Database) (zero_value : A) (statement : Command (Table R) A) where
  -- A statement that fails on its table is useless, whatever the constraints say.
  pub writing-IsUseless :
      (d : Database)
      → is_failure (statement (get d)).0.err ≡ true
      → put (statement (get d)).1 d ≡ d
      → IsUseless d (writing violated get put zero_value statement d)
  unfolding writing
  writing-IsUseless d e same = by_check (violated (put (statement (get d)).1 d))
    where
      by_check :
          (o : Option String)
          → IsUseless d
              (unless_violated o zero_value d ((statement (get d)).0, put (statement (get d)).1 d))
      by_check none = (e, same)
      by_check (some m) = (refl, refl)
