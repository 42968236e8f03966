-- ===== src/Http/Handler.antt =====
-- The handler monad: a handler reads and changes the world, and may return early.
use dairycart.Prelude.{ℕ, Bool, true, false, List, [], ◌∷◌, ◌++◌, Option, none, some}
use dairycart.Storage.Answers.{Err, nil, Answer, Query, Command}
use dairycart.Storage.Storer.{Storer}
use dairycart.Http.Messages.{Body, Session, HookCall}

-- `db` is what is committed, `tx` the working copy of the open transaction, `cookie` the session that
-- was saved, `hooks` the webhook calls that were started, in order.
pub record World (D : Type 0) : Type 0 where
  pub db : D
  pub tx : Option D
  pub status : Option ℕ
  pub body : List Body
  pub hooks : List HookCall
  pub cookie : Option Session

-- The world at the start of a request.
abbrev pub fresh : {D : Type 0} → D → World D
fresh d = record { db = d; tx = none; status = none; body = []; hooks = []; cookie = none }

-- What follows a step: the handler has returned, it has panicked, or it goes on with a value.
pub data Flow (A : Type 0) : Type 0 where
  returned : Flow A
  panicked : Flow A
  next : A → Flow A

abbrev pub Handler : Type 0 → Type 0 → Type 0
Handler D A = World D → Flow A × World D

abbrev pub or_status : Option ℕ → ℕ → Option ℕ
or_status none n = some n
or_status (some m) n = some m

module _ {D : Type 0} where
  unfoldable pub pure : {A : Type 0} → A → Handler D A
  pure a w = (next a, w)

  -- return
  unfoldable pub stop : {A : Type 0} → Handler D A
  stop w = (returned, w)

  unfoldable pub panic : {A : Type 0} → Handler D A
  panic w = (panicked, w)

  abbrev pub ended : Flow (Unit {0}) × World D → Flow (Unit {0}) × World D
  ended (panicked, w) = (panicked, w)
  ended (_, w) = (returned, w)

  -- if c { ...; return }
  unfoldable pub when_return : Bool → Handler D (Unit {0}) → Handler D (Unit {0})
  when_return true m w = ended (m w)
  when_return false m w = (next tt, w)

  -- if err != nil { return zero, err }, in a function that a handler calls
  unfoldable pub or_fail : {A : Type 0} → Err → A → Handler D (Answer A) → Handler D (Answer A)
  or_fail nil zero_value rest w = rest w
  or_fail e zero_value rest w = (next (record { value = zero_value; err = e }), w)

  -- return value, nil
  unfoldable pub succeed : {A : Type 0} → A → Handler D (Answer A)
  succeed a w = (next (record { value = a; err = nil }), w)

  -- A statement on `*sql.DB`.
  unfoldable pub query_db : {A : Type 0} → Query D A → Handler D (Answer A)
  query_db q w = (next (q w.db), w)

  unfoldable pub exec_db : {A : Type 0} → Command D A → Handler D (Answer A)
  exec_db c w = let (a, d) = c w.db in (next a, record w { db = d })

  abbrev pub run_tx : {A : Type 0} → Command D A → World D → Option D → Flow (Answer A) × World D
  run_tx c w none = (panicked, w)
  run_tx c w (some d) = let (a, d') = c d in (next a, record w { tx = some d' })

  -- A statement on `*sql.Tx`. With no open transaction the pointer is nil, and the handler panics.
  unfoldable pub exec_tx : {A : Type 0} → Command D A → Handler D (Answer A)
  exec_tx c w = run_tx c w w.tx

  abbrev pub begin_as : Err → World D → Flow Err × World D
  begin_as nil w = (next nil, record w { tx = some w.db })
  begin_as e w = (next e, w)

  -- tx, err := db.Begin()
  unfoldable pub begin : Storer D → Handler D Err
  begin s w = begin_as (s.begin_err w.db) w

  -- tx.Rollback()
  unfoldable pub rollback : Handler D (Unit {0})
  rollback w = (next tt, record w { tx = none })

  abbrev pub commit_as : Err → D → World D → Flow Err × World D
  commit_as nil d w = (next nil, record w { db = d; tx = none })
  commit_as e d w = (next e, record w { tx = none })

  abbrev pub commit_open : Storer D → Option D → World D → Flow Err × World D
  commit_open s none w = (panicked, w)
  commit_open s (some d) w = commit_as (s.commit_err d) d w

  -- err = tx.Commit()
  unfoldable pub commit : Storer D → Handler D Err
  commit s w = commit_open s w.tx w

  -- res.WriteHeader(status); only the first call counts.
  unfoldable pub write_header : ℕ → Handler D (Unit {0})
  write_header n w = (next tt, record w { status = or_status w.status n })

  -- json.NewEncoder(res).Encode(b); a first write without a header has status 200.
  unfoldable pub encode : Body → Handler D (Unit {0})
  encode b w = (next tt, record w { status = or_status w.status 200; body = w.body ++ b ∷ [] })

  -- The goroutines that call the webhooks.
  unfoldable pub start_hooks : List HookCall → Handler D (Unit {0})
  start_hooks l w = (next tt, record w { hooks = w.hooks ++ l })

  -- session.Save(req, res)
  unfoldable pub save_session : Session → Handler D (Unit {0})
  save_session v w = (next tt, record w { cookie = some v })

  abbrev pub continue : {A B : Type 0} → Flow A × World D → (A → Handler D B) → Flow B × World D
  continue (returned, w) f = (returned, w)
  continue (panicked, w) f = (panicked, w)
  continue (next a, w) f = f a w

  -- Opening this opens the whole monad.
  infixl 5 ◌>>=◌ ◌>>◌
  unfoldable pub ◌>>=◌ : {A B : Type 0} → Handler D A → (A → Handler D B) → Handler D B
  unfolding pure stop panic when_return or_fail succeed query_db exec_db exec_tx begin rollback
      commit write_header encode start_hooks save_session
  ◌>>=◌ m f w = continue (m w) f

  abbrev pub ◌>>◌ : {B : Type 0} → Handler D (Unit {0}) → Handler D B → Handler D B
  m >> k = m >>= λ _. k
