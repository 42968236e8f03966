-- ===== src/Postgres/Database/Resets.antt =====
-- Resetting a password: api/v1/users.go on the table of tokens.
use dairycart.Prelude.{
  ℕ, String, ◌≡◌, refl, sym, ap, ◌∙◌, Bool, true, false, Option, some, ◌||◌, not, List, [], ◌∷◌,
  ◌++◌, ltb, inl, inr, arith, if◌then◌else◌, str_eq,
}
use dairycart.Models.Basics.{Time}
use dairycart.Models.Users.{UserLoginInput, PasswordResetToken}
use dairycart.Storage.Answers.{Answer, Err, is_err}
use dairycart.Storage.Storer.{Storer}
use dairycart.Http.Handler.{World, fresh, continue, when_return, write_header, ◌>>=◌}
use dairycart.Api.Users.Login.{new_token, forgotten_password, reset_token_validation}
use dairycart.Api.Users.Login.Reset.{IsReset, forgotten_password_safe}
use dairycart.Postgres.Rows.{any, and-false}
use dairycart.Postgres.Statements.{Queries, Table}
use dairycart.Postgres.ResetTokens.{
  create_password_reset_token, password_reset_token_with_token_exists,
}
use dairycart.Postgres.Database.{Database, postgres}
use dairycart.Postgres.Database.Writing.{writing-keeps}

any-append_none :
    {A : Type 0} (p : A → Bool) (xs : List A) (x : A)
    → p x ≡ false
    → any p (xs ++ x ∷ []) ≡ any p xs
any-append_none p [] x e = rw e refl
any-append_none p (y ∷ ys) x e = ap (λ b. if p y then true else b) (any-append_none p ys x e)

never_before_zero : (t : Time) → ltb t 0 ≡ false
never_before_zero t = ground arith

expired :
    (now later : Time) (user_id : ℕ) (token shown : String) (t : Table PasswordResetToken)
    → password_reset_token_with_token_exists later shown
        (create_password_reset_token now (new_token user_id token) t).1
      ≡ password_reset_token_with_token_exists later shown t
unfolding password_reset_token_with_token_exists create_password_reset_token
expired now later user_id token shown t =
    ap (λ b. record { value = b; err = Err.nil })
      (any-append_none _ t.rows _ (rw (never_before_zero later) (and-false (str_eq token shown))))

-- The status for a token that is refused, or not.
abbrev status_for : Bool → Option ℕ
status_for true = some 404
status_for false = some 200

module _ {Q : Type 0} (sq : Queries Q) (violated : Database → Option String)
    (begin_err commit_err : Database → Err) where
  abbrev at : Time → Storer Database
  at = postgres sq violated begin_err commit_err

  abbrev AgreesWith : Time → String → Database → Database → Type 0
  AgreesWith later shown d d' =
      (at later).password_reset_token_with_token_exists shown d'
      ≡ (at later).password_reset_token_with_token_exists shown d

  created-AgreesWith :
      (now later : Time) (user_id : ℕ) (token shown : String) (d : Database)
      → AgreesWith later shown d
          ((at now).create_password_reset_token (new_token user_id token) d).1
  unfolding postgres
  created-AgreesWith now later user_id token shown d =
      writing-keeps violated (λ d. d.password_reset_tokens) _ _ _ d (AgreesWith later shown d) refl
        (expired now later user_id token shown d.password_reset_tokens)

  validation_status :
      (s : Storer Database) (shown : String) (d : Database)
      → (reset_token_validation s shown (fresh d)).1.status
        ≡ status_for (
            is_err (s.password_reset_token_with_token_exists shown d).err
            || not (s.password_reset_token_with_token_exists shown d).value)
  unfolding reset_token_validation ◌>>=◌
  validation_status s shown d = by_test (
      is_err (s.password_reset_token_with_token_exists shown d).err
      || not (s.password_reset_token_with_token_exists shown d).value)
    where
      by_test :
          (b : Bool)
          → (continue (when_return b (write_header 404) (fresh d)) (λ _. write_header 200)).1.status
            ≡ status_for b
      by_test true = refl
      by_test false = refl

  by_token :
      (later : Time) (shown : String) (d d' : Database)
      → AgreesWith later shown d d'
      → (reset_token_validation (at later) shown (fresh d')).1.status
        ≡ (reset_token_validation (at later) shown (fresh d)).1.status
  by_token later shown d d' e =
      validation_status (at later) shown d'
      ∙ ap (λ a. status_for (is_err a.err || not a.value)) e
      ∙ sym (validation_status (at later) shown d)

  -- A request to reset a password makes no token valid, the one that it creates and shows included: the
  -- check of any token at any later time answers as if the request had not been made.
  pub forgotten_password-validation :
      (now later : Time) (is_zero : UserLoginInput → Bool) (token shown : String)
      (body : Answer UserLoginInput) (d : Database)
      → let asked = (forgotten_password (at now) is_zero token body (fresh d)).1 in
        (reset_token_validation (at later) shown (fresh asked.db)).1.status
        ≡ (reset_token_validation (at later) shown (fresh d)).1.status
  forgotten_password-validation now later is_zero token shown body d =
      by_token later shown d asked.db
        (by_reset (forgotten_password_safe (at now) is_zero token body d))
    where
      asked : World Database
      asked = (forgotten_password (at now) is_zero token body (fresh d)).1

      by_reset : IsReset (at now) token body.value d asked → AgreesWith later shown d asked.db
      by_reset (inl (db, _, _, _)) = rw db refl
      by_reset (inr (_, _, db, _)) = rw db (created-AgreesWith now later _ token shown d)
