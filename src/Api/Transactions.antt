-- ===== src/Api/Transactions.antt =====
-- Functions that a handler calls inside a transaction: all that they change is the working copy.
use dairycart.Prelude.{◌≡◌, refl, ◌⊎◌, inl, inr, some}
use dairycart.Storage.Answers.{Err, nil, no_rows, failed, Answer, Command}
use dairycart.Http.Handler.{
  World, Flow, returned, panicked, next, Handler, pure, panic, exec_tx, or_fail, succeed, run_tx,
  ◌>>=◌,
}
use dairycart.Api.Respond.{check_tx}
use dairycart.Api.Rules.{Ends, internal, rolled_back}

module _ {D : Type 0} where
  -- The world with another working copy.
  abbrev pub working : D → World D → World D
  working d w = record w { tx = some d }

  -- Run with an open transaction, `m` goes on with a value, or it panics; only the working copy changes.
  pub record TxOnly {A : Type 0} (m : Handler D A) : Type 0 where
    pub at :
        (w : World D) (d : D)
        → w.tx ≡ some d
        → ((a : A) × (d' : D) × (m w ≡ (next a, working d' w)))
          ⊎ ((d' : D) × (m w ≡ (panicked, working d' w)))

  -- The same, but `m` may also roll back, answer 500 and return.
  pub record TxOrStop {A : Type 0} (m : Handler D A) : Type 0 where
    pub at :
        (w : World D) (d : D)
        → w.tx ≡ some d
        → ((a : A) × (d' : D) × (m w ≡ (next a, working d' w)))
          ⊎ ((d' : D) × (m w ≡ (panicked, working d' w)))
          ⊎ (m w ≡ (returned, internal (rolled_back w)))

  module _ {A : Type 0} where
    pub TxOnly-succeed : (a : A) → TxOnly (succeed a)
    unfolding ◌>>=◌
    TxOnly-succeed a = record {
      at = λ w d e. inl (
        record { value = a; err = nil },
        d,
        λ i. (next (record { value = a; err = nil }), record w { tx = e i }),
      );
    }

    pub TxOnly-panic : TxOnly (panic {A = A})
    unfolding ◌>>=◌
    TxOnly-panic = record { at = λ w d e. inr (d, λ i. (panicked, record w { tx = e i })) }

    pub TxOnly-exec_tx : (c : Command D A) → TxOnly (exec_tx c)
    unfolding ◌>>=◌
    TxOnly-exec_tx c = record { at = λ w d e. inl ((c d).0, (c d).1, λ i. run_tx c w (e i)) }

    pub TxOnly-or_fail :
        (e : Err) (z : A) (m : Handler D (Answer A)) → TxOnly m → TxOnly (or_fail e z m)
    unfolding ◌>>=◌
    TxOnly-or_fail nil z m h = record { at = h.at }
    TxOnly-or_fail no_rows z m h = record {
      at = λ w d e. inl (
        record { value = z; err = no_rows },
        d,
        λ i. (next (record { value = z; err = no_rows }), record w { tx = e i }),
      );
    }
    TxOnly-or_fail (failed t) z m h = record {
      at = λ w d e. inl (
        record { value = z; err = failed t },
        d,
        λ i. (next (record { value = z; err = failed t }), record w { tx = e i }),
      );
    }

  module _ {A B : Type 0} where
    pub TxOnly-bind :
        (m : Handler D A) (f : A → Handler D B)
        → TxOnly m
        → ((a : A) → TxOnly (f a))
        → TxOnly (m >>= f)
    unfolding ◌>>=◌
    TxOnly-bind m f h k = record {
      at = λ w d e. elim (h.at w d e) [
        | inl (a, d', p) ↦ rw p ((k a).at (working d' w) d' refl)
        | inr (d', p) ↦ inr (d', rw p refl)
      ];
    }

    pub TxOrStop-bind :
        (m : Handler D A) (f : A → Handler D B)
        → TxOrStop m
        → ((a : A) → TxOrStop (f a))
        → TxOrStop (m >>= f)
    unfolding ◌>>=◌
    TxOrStop-bind m f h k = record {
      at = λ w d e. elim (h.at w d e) [
        | inl (a, d', p) ↦ rw p ((k a).at (working d' w) d' refl)
        | inr (inl (d', p)) ↦ inr (inl (d', rw p refl))
        | inr (inr p) ↦ inr (inr (rw p refl))
      ];
    }

  pub TxOrStop-of_TxOnly : {A : Type 0} (m : Handler D A) → TxOnly m → TxOrStop m
  TxOrStop-of_TxOnly m h = record {
    at = λ w d e. elim (h.at w d e) [ inl p ↦ inl p | inr p ↦ inr (inl p) ];
  }

  pub TxOrStop-pure : {A : Type 0} (a : A) → TxOrStop (pure a)
  unfolding ◌>>=◌
  TxOrStop-pure a = record { at = λ w d e. inl (a, d, λ i. (next a, record w { tx = e i })) }

  pub TxOrStop-check_tx : (e : Err) → TxOrStop (check_tx e)
  unfolding ◌>>=◌ check_tx
  TxOrStop-check_tx nil = record {
    at = λ w d e. inl (tt, d, λ i. (next tt, record w { tx = e i }));
  }
  TxOrStop-check_tx no_rows = record { at = λ w d e. inr (inr refl) }
  TxOrStop-check_tx (failed m) = record { at = λ w d e. inr (inr refl) }

  module _ {A B : Type 0} {G : Flow B × World D → Type 0} where
    pub Ends-TxOrStop :
        (m : Handler D A) (f : A → Handler D B) (w : World D) {d : D}
        → TxOrStop m
        → w.tx ≡ some d
        → ((d' : D) → G (panicked, working d' w))
        → G (returned, internal (rolled_back w))
        → ((a : A) (d' : D) → m w ≡ (next a, working d' w) → Ends G (f a) (working d' w))
        → Ends G (m >>= f) w
    unfolding ◌>>=◌
    Ends-TxOrStop m f w {d} h e out back go = record {
      ends = elim (h.at w d e) [
        | inl (a, d', p) ↦ rw p (go a d' p).ends
        | inr (inl (d', p)) ↦ rw p (out d')
        | inr (inr p) ↦ rw p back
      ];
    }
