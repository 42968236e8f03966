-- ===== src/Api/Rules/Running.antt =====
-- How to follow a handler to its end: one rule for each step that a handler makes. `Ends G m w` says
-- that running `m` in the world `w` ends in a result for which `G` holds.
use dairycart.Prelude.{String, Bool, true, false, ◌≡◌, refl, [], ◌∷◌, ◌++◌, none, some}
use dairycart.Storage.Answers.{
  Err, nil, no_rows, failed, is_err, is_failure, text, Answer, Query, Command,
}
use dairycart.Storage.Storer.{Storer}
use dairycart.Http.Messages.{Body}
use dairycart.Http.Handler.{
  World, Flow, returned, panicked, next, Handler, pure, succeed, or_fail, continue, or_status,
  when_return, encode, query_db, exec_db, exec_tx, begin, commit, ◌>>=◌, ◌>>◌,
}
use dairycart.Api.Respond.{
  not_found_message, check_body, check_internal, check_row, check_tx, check_tx_rows,
  check_internal_rows,
}
use dairycart.Api.Rules.Answering.{answered, internal, rolled_back}

pub record Ends {D B : Type 0} (G : Flow B × World D → Type 0) (m : Handler D B) (w : World D)
    : Type 0 where
  pub ends : G (m w)

module _ {D : Type 0} where
  module _ {B : Type 0} {G : Flow B × World D → Type 0} where
    pub Ends-query_db :
        {A : Type 0} (q : Query D A) (f : Answer A → Handler D B) (w : World D)
        → Ends G (f (q w.db)) w
        → Ends G (query_db q >>= f) w
    unfolding ◌>>=◌
    Ends-query_db q f w h = record { ends = h.ends }

    pub Ends-exec_db :
        {A : Type 0} (c : Command D A) (f : Answer A → Handler D B) (w : World D)
        → Ends G (f (c w.db).0) (record w { db = (c w.db).1 })
        → Ends G (exec_db c >>= f) w
    unfolding ◌>>=◌
    Ends-exec_db c f w h = record { ends = h.ends }

    pub Ends-exec_tx :
        {A : Type 0} (c : Command D A) (f : Answer A → Handler D B) (w : World D) {d : D}
        → w.tx ≡ some d
        → Ends G (f (c d).0) (record w { tx = some (c d).1 })
        → Ends G (exec_tx c >>= f) w
    unfolding ◌>>=◌
    Ends-exec_tx c f w e h = record { ends = rw (e, exec_tx) h.ends }

    -- The refusal `m` leads to the world `w'`.
    pub Ends-when_return :
        (c : Bool) (m : Handler D (Unit {0})) (k : Handler D B) (w w' : World D)
        → m w ≡ (next tt, w')
        → (c ≡ true → G (returned, w'))
        → (c ≡ false → Ends G k w)
        → Ends G (when_return c m >> k) w
    unfolding ◌>>=◌
    Ends-when_return true m k w w' e out go = record { ends = rw e (out refl) }
    Ends-when_return false m k w w' e out go = record { ends = (go refl).ends }

    pub Ends-check_body :
        (e : Err) (k : Handler D B) (w : World D)
        → (is_err e ≡ true → G (returned, answered 400 (text e) w))
        → (e ≡ nil → Ends G k w)
        → Ends G (check_body e >> k) w
    unfolding ◌>>=◌ check_body
    Ends-check_body nil k w out go = record { ends = (go refl).ends }
    Ends-check_body no_rows k w out go = record { ends = out refl }
    Ends-check_body (failed m) k w out go = record { ends = out refl }

    pub Ends-check_internal :
        (e : Err) (k : Handler D B) (w : World D)
        → (is_err e ≡ true → G (returned, internal w))
        → (e ≡ nil → Ends G k w)
        → Ends G (check_internal e >> k) w
    unfolding ◌>>=◌ check_internal
    Ends-check_internal nil k w out go = record { ends = (go refl).ends }
    Ends-check_internal no_rows k w out go = record { ends = out refl }
    Ends-check_internal (failed m) k w out go = record { ends = out refl }

    pub Ends-check_row :
        (e : Err) (item id : String) (k : Handler D B) (w : World D)
        → (e ≡ no_rows → G (returned, answered 404 (not_found_message item id) w))
        → (is_failure e ≡ true → G (returned, internal w))
        → (e ≡ nil → Ends G k w)
        → Ends G (check_row e item id >> k) w
    unfolding ◌>>=◌ check_row
    Ends-check_row nil item id k w none_found out go = record { ends = (go refl).ends }
    Ends-check_row no_rows item id k w none_found out go = record { ends = none_found refl }
    Ends-check_row (failed m) item id k w none_found out go = record { ends = out refl }

    pub Ends-check_tx :
        (e : Err) (k : Handler D B) (w : World D)
        → (is_err e ≡ true → G (returned, internal (rolled_back w)))
        → (e ≡ nil → Ends G k w)
        → Ends G (check_tx e >> k) w
    unfolding ◌>>=◌ check_tx
    Ends-check_tx nil k w out go = record { ends = (go refl).ends }
    Ends-check_tx no_rows k w out go = record { ends = out refl }
    Ends-check_tx (failed m) k w out go = record { ends = out refl }

    pub Ends-check_tx_rows :
        (e : Err) (k : Handler D B) (w : World D)
        → (is_failure e ≡ true → G (returned, internal (rolled_back w)))
        → (is_failure e ≡ false → Ends G k w)
        → Ends G (check_tx_rows e >> k) w
    unfolding ◌>>=◌ check_tx_rows
    Ends-check_tx_rows nil k w out go = record { ends = (go refl).ends }
    Ends-check_tx_rows no_rows k w out go = record { ends = (go refl).ends }
    Ends-check_tx_rows (failed m) k w out go = record { ends = out refl }

    pub Ends-check_internal_rows :
        (e : Err) (k : Handler D B) (w : World D)
        → (is_failure e ≡ true → G (returned, internal w))
        → (is_failure e ≡ false → Ends G k w)
        → Ends G (check_internal_rows e >> k) w
    unfolding ◌>>=◌ check_internal_rows
    Ends-check_internal_rows nil k w out go = record { ends = (go refl).ends }
    Ends-check_internal_rows no_rows k w out go = record { ends = (go refl).ends }
    Ends-check_internal_rows (failed m) k w out go = record { ends = out refl }

    pub Ends-pure :
        {A : Type 0} (a : A) (k : A → Handler D B) (w : World D)
        → Ends G (k a) w
        → Ends G (pure a >>= k) w
    unfolding ◌>>=◌
    Ends-pure a k w h = record { ends = h.ends }

    -- What holds at the end of `m` is known when `k` goes on.
    pub Ends-after :
        {A : Type 0} {H : Flow A × World D → Type 0} (m : Handler D A) (k : A → Handler D B)
        (w : World D)
        → Ends H m w
        → ((w' : World D) → H (returned, w') → G (returned, w'))
        → ((w' : World D) → H (panicked, w') → G (panicked, w'))
        → ((a : A) (w' : World D) → H (next a, w') → Ends G (k a) w')
        → Ends G (m >>= k) w
    unfolding ◌>>=◌
    Ends-after {A} {H} m k w h out gone go = record { ends = by_flow (m w) h.ends }
      where
        by_flow : (r : Flow A × World D) → H r → G (continue r k)
        by_flow (returned, w') p = out w' p
        by_flow (panicked, w') p = gone w' p
        by_flow (next a, w') p = (go a w' p).ends

    pub Ends-assoc :
        {A C : Type 0} (m : Handler D A) (f : A → Handler D C) (k : C → Handler D B) (w : World D)
        → Ends G (m >>= λ a. f a >>= k) w
        → Ends G ((m >>= f) >>= k) w
    unfolding ◌>>=◌
    Ends-assoc {A} m f k w h = record { ends = by_flow (m w) h.ends }
      where
        by_flow :
            (r : Flow A × World D) → G (continue r (λ a. f a >>= k)) → G (continue (continue r f) k)
        by_flow (returned, w') g = g
        by_flow (panicked, w') g = g
        by_flow (next a, w') g = g

    -- tx, err := db.Begin(), and the check of its error
    pub Ends-begin :
        (s : Storer D) (k : Handler D B) (w : World D)
        → (is_err (s.begin_err w.db) ≡ true → G (returned, internal w))
        → (s.begin_err w.db ≡ nil → Ends G k (record w { tx = some w.db }))
        → Ends G (begin s >>= λ e. check_internal e >> k) w
    unfolding ◌>>=◌ check_internal
    Ends-begin s k w out go = by_err (s.begin_err w.db) refl
      where
        by_err :
            (e : Err) → s.begin_err w.db ≡ e → Ends G (begin s >>= λ e'. check_internal e' >> k) w
        by_err nil p = record { ends = rw (p, begin) (go p).ends }
        by_err no_rows p = record { ends = rw (p, begin) (out (rw p refl)) }
        by_err (failed m) p = record { ends = rw (p, begin) (out (rw p refl)) }

    -- err = tx.Commit(), and the check of its error
    pub Ends-commit :
        (s : Storer D) (k : Handler D B) (w : World D) {d : D}
        → w.tx ≡ some d
        → (is_err (s.commit_err d) ≡ true → G (returned, internal (rolled_back w)))
        → (s.commit_err d ≡ nil → Ends G k (record w { db = d; tx = none }))
        → Ends G (commit s >>= λ e. check_internal e >> k) w
    unfolding ◌>>=◌ check_internal
    Ends-commit s k w {d} e out go = by_err (s.commit_err d) refl
      where
        by_err :
            (r : Err) → s.commit_err d ≡ r → Ends G (commit s >>= λ e'. check_internal e' >> k) w
        by_err nil p = record { ends = rw (e, commit) (rw p (go p).ends) }
        by_err no_rows p = record { ends = rw (e, commit) (rw p (out (rw p refl))) }
        by_err (failed m) p = record { ends = rw (e, commit) (rw p (out (rw p refl))) }

module _ {D : Type 0} {G : Flow (Unit {0}) × World D → Type 0} where
  -- A handler that ends with an answer.
  pub Ends-encode :
      (b : Body) (w : World D)
      → G (next tt, record w { status = or_status w.status 200; body = w.body ++ b ∷ [] })
      → Ends G (encode b) w
  unfolding ◌>>=◌
  Ends-encode b w g = record { ends = g }

module _ {D A : Type 0} {G : Flow (Answer A) × World D → Type 0} where
  pub Ends-succeed :
      (a : A) (w : World D) → G (next (record { value = a; err = nil }), w) → Ends G (succeed a) w
  unfolding ◌>>=◌
  Ends-succeed a w g = record { ends = g }

  pub Ends-or_fail :
      (e : Err) (z : A) (m : Handler D (Answer A)) (w : World D)
      → (is_err e ≡ true → G (next (record { value = z; err = e }), w))
      → (e ≡ nil → Ends G m w)
      → Ends G (or_fail e z m) w
  unfolding ◌>>=◌
  Ends-or_fail nil z m w out go = record { ends = (go refl).ends }
  Ends-or_fail no_rows z m w out go = record { ends = out refl }
  Ends-or_fail (failed t) z m w out go = record { ends = out refl }
