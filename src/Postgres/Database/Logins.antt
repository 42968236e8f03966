-- ===== src/Postgres/Database/Logins.antt =====
-- Logging in: `buildUserLoginHandler` of api/v1/users.go on the table of login attempts.
use dairycart.Prelude.{
  ℕ, ◌+◌, ◌≤◌, ◌<◌, String, ◌≡◌, refl, ap, subst, Bool, true, false, not, ◌&&◌, Bool-cases, Option,
  List, [], ◌∷◌, ◌++◌, All, length, length-append, filter, inl, inr, str_eq, str_eq_iff, leb, ltb,
  not_leb, arith,
}
use dairycart.Models.Basics.{Time}
use dairycart.Models.Users.{User, UserLoginInput, LoginAttempt}
use dairycart.Storage.Answers.{Answer, Err}
use dairycart.Storage.Storer.{Storer}
use dairycart.Http.Messages.{Session}
use dairycart.Http.Handler.{World, Flow, fresh, save_session, write_header, ◌>>=◌, ◌>>◌}
use dairycart.Api.Rules.{
  Ends, Ends-check_body, Ends-exec_db, Ends-check_internal, Ends-check_row, Ends-query_db,
  Ends-when_return, notify_of_invalid_request_cookie_lem,
  notify_of_invalid_authentication_attempt_lem, notify_of_exhausted_authentication_attempts_lem,
}
use dairycart.Api.Users.Passwords.{Crypto, password_matches}
use dairycart.Api.Users.Login.{attempt, user_login}
use dairycart.Api.Users.Login.Safe.{Ends-rehash}
use dairycart.Postgres.Statements.{Queries, Table}
use dairycart.Postgres.LoginAttempts.{
  attempt_window, failed_recently, inserted_login_attempt, create_login_attempt,
  login_attempts_have_been_exhausted,
}
use dairycart.Postgres.Database.{Database, postgres}
use dairycart.Postgres.Database.Writing.{writing-keeps}

module _ {A : Type 0} where
  filter-append : (p : A → Bool) (xs ys : List A) → filter p (xs ++ ys) ≡ filter p xs ++ filter p ys
  filter-append p [] ys = refl
  filter-append p (x ∷ xs) ys = elim (Bool-cases (p x)) [
    | inl e ↦ rw e (ap (λ l. x ∷ l) (filter-append p xs ys))
    | inr e ↦ rw e (filter-append p xs ys)
  ]

  -- Of the rows for which `P` holds, those that satisfy `p` satisfy `q`.
  length-filter :
      (P : A → Type 0) (p q : A → Bool)
      → ((x : A) → P x → p x ≡ true → q x ≡ true)
      → (xs : List A) → All P xs
      → length (filter p xs) ≤ length (filter q xs)
  length-filter P p q h [] hs = omega arith
  length-filter P p q h (x ∷ xs) (k, ks) = elim (Bool-cases (p x)) [
    | inl e ↦ let r = length-filter P p q h xs ks in rw (e, h x k e) (omega arith)
    | inr e ↦ elim (Bool-cases (q x)) [
      | inl u ↦ let r = length-filter P p q h xs ks in rw (e, u) (omega arith)
      | inr u ↦ rw (e, u) (length-filter P p q h xs ks)
    ]
  ]

-- A failed attempt of a user in the 15 minutes from `start`.
abbrev in_window : Time → String → LoginAttempt → Bool
in_window start username a =
    str_eq a.username username
    && not a.successful
    && leb start a.created_on
    && ltb a.created_on (start + attempt_window)

abbrev failures : Time → String → Table LoginAttempt → ℕ
failures start username t = length (filter (in_window start username) t.rows)

-- What is in a window that contains `now` was seen by the query at `now`, if it was written before.
seen_bits :
    (b f : Bool) (start now c : ℕ)
    → start ≤ now
    → now < start + 900
    → c < now
    → b && f && leb start c && ltb c (start + 900) ≡ true
    → b && ltb c now && f && ltb now (c + 900) ≡ true
seen_bits true true start now c h k e p = ground arith
seen_bits true false start now c h k e p = cc
seen_bits false f start now c h k e p = cc

seen :
    (start now : Time) (username : String)
    → start ≤ now
    → now < start + attempt_window
    → (a : LoginAttempt) → a.created_on < now
    → in_window start username a ≡ true
    → failed_recently now username a ≡ true
seen start now username h k a e p =
    seen_bits (str_eq a.username username) (not a.successful) start now a.created_on h k e p

bits :
    (b f : Bool) (start c : ℕ)
    → b && f && leb start c && ltb c (start + 900) ≡ true
    → (b ≡ true) × (start ≤ c) × (c < start + 900)
bits true true start c p = (refl, ground arith, ground arith)
bits true false start c p = cc
bits false f start c p = cc

-- One more attempt, of a name whose attempts are not exhausted.
counted :
    (start now : Time) (username name : String) (ok : Bool) (t : Table LoginAttempt)
    → All (λ a. a.created_on < now) t.rows
    → failures start name t ≤ 10
    → leb 10 (length (filter (failed_recently now username) t.rows)) ≡ false
    → failures start name (create_login_attempt now (attempt username ok) t).1 ≤ 10
unfolding create_login_attempt
counted start now username name ok t before bound open_ =
    rw
      (
        filter-append (in_window start name) t.rows (new ∷ []),
        length-append (filter (in_window start name) t.rows)
            (filter (in_window start name) (new ∷ [])),
      )
      (by_test (in_window start name new) refl)
  where
    new : LoginAttempt
    new = inserted_login_attempt now (attempt username ok) t.next_id

    by_test :
        (b : Bool)
        → in_window start name new ≡ b
        → failures start name t + length (filter (in_window start name) (new ∷ [])) ≤ 10
    by_test false e = rw e (omega arith)
    by_test true e =
        let (same, h, k) = bits (str_eq username name) (not ok) start now e in
        let n =
          length-filter (λ a. a.created_on < now) (in_window start name) (failed_recently now name)
            (seen start now name h k) t.rows before in
        let few = not_leb 10 (length (filter (failed_recently now name) t.rows)) (
          subst (λ u. leb 10 (length (filter (failed_recently now u) t.rows)) ≡ false)
            ((str_eq_iff username name).0 same) open_) in
        rw e (omega arith)

module _ {Q : Type 0} (sq : Queries Q) (violated : Database → Option String)
    (begin_err commit_err : Database → Err) (now : Time) where
  abbrev s : Storer Database
  s = postgres sq violated begin_err commit_err now

  abbrev pub IsLimited : Time → String → Database → Type 0
  IsLimited start name d = failures start name d.login_attempts ≤ 10

  attempt-IsLimited :
      (start : Time) (username name : String) (ok : Bool) (d : Database)
      → All (λ a. a.created_on < now) d.login_attempts.rows
      → IsLimited start name d
      → (s.login_attempts_have_been_exhausted username d).value ≡ false
      → IsLimited start name (s.create_login_attempt (attempt username ok) d).1
  unfolding postgres login_attempts_have_been_exhausted
  attempt-IsLimited start username name ok d before bound open_ =
      writing-keeps violated (λ d. d.login_attempts) _ _ _ d (IsLimited start name) bound
        (counted start now username name ok d.login_attempts before bound open_)

  update-IsLimited :
      (start : Time) (name : String) (u : User) (d : Database)
      → IsLimited start name d
      → IsLimited start name (s.update_user u d).1
  unfolding postgres
  update-IsLimited start name u d h =
      writing-keeps violated (λ d. d.users) _ _ _ d (IsLimited start name) h h

  save_session-Ends :
      (start : Time) (name : String) (v : Session) (w : World Database)
      → IsLimited start name w.db
      → Ends {B = Unit {0}}
          (λ r. IsLimited start name r.1.db)
          (save_session v >> write_header 200)
          w
  unfolding ◌>>=◌
  save_session-Ends start name v w h = record { ends = h }

  -- A login never writes more than ten failed attempts of one name into any 15 minutes: if all attempts
  -- were written before now, and if at most ten of them are of a name, failed, and in the 15 minutes from
  -- some start, then so it is after the login.
  pub user_login-IsLimited :
      (crypto : Crypto) (is_zero : UserLoginInput → Bool) (body : Answer UserLoginInput)
      (session : Answer Session) (start : Time) (name : String) (d : Database)
      → All (λ a. a.created_on < now) d.login_attempts.rows
      → IsLimited start name d
      → IsLimited start name (user_login s crypto is_zero body session (fresh d)).1.db
  unfolding user_login
  user_login-IsLimited crypto is_zero body session start name d before bound = run.ends
    where
      G : Flow (Unit {0}) × World Database → Type 0
      G r = IsLimited start name r.1.db

      run : Ends G (user_login s crypto is_zero body session) (fresh d)
      run =
          Ends-check_body _ _ _ (λ _. bound)
            λ _. Ends-query_db _ _ _ (
              Ends-when_return _ _ _ _ _ (notify_of_exhausted_authentication_attempts_lem _)
                (λ _. bound)
                λ open_.
                  Ends-check_internal _ _ _ (λ _. bound)
                    λ _. Ends-query_db _ _ _ (
                      Ends-check_row _ _ _ _ _ (λ _. bound) (λ _. bound)
                        λ found.
                          let ok =
                            password_matches crypto body.value.password
                              (s.get_user_by_username body.value.username d).value.password in
                          let d' = (s.create_login_attempt (attempt body.value.username ok) d).1 in
                          let still =
                            attempt-IsLimited start body.value.username name ok d before bound
                              open_ in
                          Ends-exec_db _ _ _ (
                            Ends-check_internal _ _ _ (λ _. still)
                              λ _.
                                Ends-when_return _ _ _ _ _
                                  (notify_of_invalid_authentication_attempt_lem _) (λ _. still)
                                  λ valid.
                                    Ends-check_body _ _ _ (λ _. still)
                                      λ _.
                                        Ends-rehash s crypto (IsLimited start name) _ _ _ _ still
                                          (λ v. update-IsLimited start name v d' still) (λ _. still)
                                          (λ _ h. h)
                                          λ p e h.
                                            Ends-when_return _ _ _ _ _
                                              (notify_of_invalid_request_cookie_lem _) (λ _. h)
                                              λ _. save_session-Ends start name _ _ h)))
