-- ===== src/Api/Rules/Outcomes.antt =====
-- What the theorems on the handlers say of their ends: refused, or committed.
use dairycart.Prelude.{
  ℕ, Bool, true, false, not, ◌||◌, ◌≡◌, refl, ◌⊎◌, inl, inr, List, [], none, some,
}
use dairycart.Storage.Answers.{Err, nil, no_rows, failed, is_err, is_failure}
use dairycart.Http.Messages.{HookCall}
use dairycart.Http.Handler.{World}

-- One of two outcomes, as `b` says.
abbrev pub Verdict : Bool → Type 0 → Type 0 → Type 0
Verdict b P Q = (b ≡ true) × P ⊎ (b ≡ false) × Q

pub accept : {b : Bool} {P Q : Type 0} → b ≡ true → P → Verdict b P Q
accept e p = inl (e, p)

pub refuse : {b : Bool} {P Q : Type 0} → b ≡ false → Q → Verdict b P Q
refuse e q = inr (e, q)

module _ {D : Type 0} where
  -- Nothing was written, nobody was called, and the answer is an error.
  abbrev pub IsRefused : D → World D → Type 0
  IsRefused d w =
      (w.db ≡ d)
      × (w.tx ≡ none)
      × (w.hooks ≡ [])
      × ((w.status ≡ some 400) ⊎ (w.status ≡ some 404) ⊎ (w.status ≡ some 500))

  -- The database is `d'` and no transaction is open. Either the answer is `status` and the webhooks in
  -- `calls` were started, or the webhooks could not be read and the answer is an error.
  abbrev pub IsCommitted : D → Err → ℕ → List HookCall → World D → Type 0
  IsCommitted d' e status calls w =
      (w.db ≡ d')
      × (w.tx ≡ none)
      × ((w.status ≡ some status) × (w.hooks ≡ calls)
          ⊎ (is_failure e ≡ true) × (w.status ≡ some 500) × (w.hooks ≡ []))

pub not-false : (b : Bool) → not b ≡ false → b ≡ true
not-false true e = refl
not-false false e = cc

pub right_false : (a b : Bool) → a || b ≡ false → b ≡ false
right_false false b e = e
right_false true b e = cc

pub is_err-false : (e : Err) → is_err e ≡ false → e ≡ nil
is_err-false nil p = refl
is_err-false no_rows p = cc
is_err-false (failed m) p = cc
