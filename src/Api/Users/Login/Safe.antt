-- ===== src/Api/Users/Login/Safe.antt =====
-- Who gets a session from `buildUserLoginHandler` of api/v1/users.go.
use dairycart.Prelude.{
  subst, [], ◌∷◌, String, Bool, true, false, ◌≡◌, refl, inl, inr, ◌⊎◌, none, some,
}
use dairycart.Models.Users.{User, UserLoginInput}
use dairycart.Storage.Answers.{Answer, nil, is_err}
use dairycart.Storage.Storer.{Storer}
use dairycart.Http.Messages.{Session, error}
use dairycart.Http.Handler.{World, Flow, Handler, returned, fresh, ◌>>=◌}
use dairycart.Api.Respond.{validate_request_input}
use dairycart.Api.Rules.{
  Ends, answered, internal, Ends-query_db, Ends-exec_db, Ends-when_return, Ends-check_body,
  Ends-check_internal, Ends-check_row, Ends-assoc, Ends-pure, notify_of_invalid_request_cookie_lem,
  notify_of_invalid_authentication_attempt_lem, notify_of_exhausted_authentication_attempts_lem,
  not-false,
}
use dairycart.Api.Users.Passwords.{Crypto, password_matches, session_of}
use dairycart.Api.Users.Login.{attempt, rehash, user_login}

module _ {D : Type 0} (s : Storer D) (crypto : Crypto) where
  -- The user that a login with `input` finds in the database `d`.
  abbrev pub login_user : UserLoginInput → D → User
  login_user input d = (s.get_user_by_username input.username d).value

  abbrev pub IsEntitled : UserLoginInput → D → Type 0
  IsEntitled input d =
      ((s.login_attempts_have_been_exhausted input.username d).value ≡ false)
      × ((s.get_user_by_username input.username d).err ≡ nil)
      × (password_matches crypto input.password (login_user input d).password ≡ true)

  abbrev pub IsLogin : UserLoginInput → D → Flow (Unit {0}) × World D → Type 0
  IsLogin input d (flow, w) =
      (w.cookie ≡ none)
        × ((w.status ≡ some 400)
            ⊎ (w.status ≡ some 401)
            ⊎ (w.status ≡ some 404)
            ⊎ (w.status ≡ some 500))
      ⊎ IsEntitled input d
        × (w.cookie ≡ some (session_of (login_user input d).id (login_user input d).is_admin))
        × (w.status ≡ some 200)

  -- What holds of the database before the rehashing and after any update of a user.
  pub Ends-rehash :
      {G : Flow (Unit {0}) × World D → Type 0} (P : D → Type 0) (weak : Bool) (u : User)
      (k : User → Handler D (Unit {0})) (w : World D)
      → P w.db
      → ((v : User) → P (s.update_user v w.db).1)
      → ((message : String) → G (returned, answered 400 message w))
      → ((d' : D) → P d' → G (returned, internal (record w { db = d' })))
      → ((password : String) (d' : D)
          → P d'
          → Ends G (k (record u { password = password })) (record w { db = d' }))
      → Ends G (rehash s crypto weak u >>= k) w
  unfolding rehash
  Ends-rehash P false u k w before updated bad out go = Ends-pure _ _ _ (go u.password w.db before)
  Ends-rehash P true u k w before updated bad out go = Ends-assoc _ _ _ _ (
      Ends-check_body _ _ _ (λ _. bad _)
        λ _. Ends-assoc _ _ _ _ (
          Ends-exec_db _ _ _ (
            Ends-assoc _ _ _ _ (
              Ends-check_internal _ _ _ (λ _. out _ (updated _))
                λ _. Ends-pure _ _ _ (go _ _ (updated _))))))

  -- A login answers 200 and saves a session only if the attempts of the username are not exhausted,
  -- the user is found, and the password matches the stored hash; the session is then that of the user.
  -- Otherwise no session is saved and the answer is an error.
  pub user_login_safe :
      (is_zero : UserLoginInput → Bool) (body : Answer UserLoginInput) (session : Answer Session)
      (d : D)
      → IsLogin body.value d (user_login s crypto is_zero body session (fresh d))
  unfolding user_login
  user_login_safe is_zero body session d = run.ends
    where
      run : Ends (IsLogin body.value d) (user_login s crypto is_zero body session) (fresh d)
      run =
          Ends-check_body _ _ _ (λ _. inl (refl, inl refl))
            λ _. Ends-query_db _ _ _ (
              Ends-when_return _ _ _ _ _ (notify_of_exhausted_authentication_attempts_lem _)
                (λ _. inl (refl, inr (inl refl)))
                λ fresh_name.
                  Ends-check_internal _ _ _ (λ _. inl (refl, inr (inr (inr refl))))
                    λ _. Ends-query_db _ _ _ (
                      Ends-check_row _ _ _ _ _ (λ _. inl (refl, inr (inr (inl refl))))
                        (λ _. inl (refl, inr (inr (inr refl))))
                        λ found. Ends-exec_db _ _ _ (
                          Ends-check_internal _ _ _ (λ _. inl (refl, inr (inr (inr refl))))
                            λ _.
                              Ends-when_return _ _ _ _ _
                                (notify_of_invalid_authentication_attempt_lem _)
                                (λ _. inl (refl, inr (inl refl)))
                                λ valid.
                                  Ends-check_body _ _ _ (λ _. inl (refl, inl refl))
                                    λ _.
                                      Ends-rehash (λ _. Unit) _ _ _ _ tt (λ _. tt)
                                        (λ _. inl (refl, inl refl))
                                        (λ _ _. inl (refl, inr (inr (inr refl))))
                                        λ p d' _.
                                          Ends-when_return _ _ _ _ _
                                            (notify_of_invalid_request_cookie_lem _)
                                            (λ _. inl (refl, inl refl))
                                            λ _. record {
                                              ends =
                                                  unfold ◌>>=◌ in
                                                  inr (
                                                    (fresh_name, found, not-false _ valid),
                                                    refl,
                                                    refl,
                                                  );
                                            })))

  -- The attempts of the username are not exhausted, and the user is found.
  abbrev pub IsKnown : (UserLoginInput → Bool) → Answer UserLoginInput → D → Type 0
  IsKnown is_zero body d =
      (validate_request_input is_zero body ≡ nil)
      × (s.login_attempts_have_been_exhausted (body.value).username d
          ≡ record { value = false; err = nil })
      × ((s.get_user_by_username (body.value).username d).err ≡ nil)

  -- A wrong password of a known user is written down as a failed attempt, which is all that is written,
  -- before the answer says that the attempt was invalid, or is an internal error if it could not be written; no
  -- session is saved.
  pub wrong_password_logged :
      (is_zero : UserLoginInput → Bool) (body : Answer UserLoginInput) (session : Answer Session)
      (d : D)
      → IsKnown is_zero body d
      → password_matches crypto (body.value).password (login_user body.value d).password ≡ false
      → let (flow, w) = user_login s crypto is_zero body session (fresh d) in
        (w.db ≡ (s.create_login_attempt (attempt (body.value).username false) d).1)
        × (w.cookie ≡ none)
        × (((s.create_login_attempt (attempt (body.value).username false) d).0.err ≡ nil)
              × (w.status ≡ some 401)
              × (w.body
                  ≡ error (record { status = 401; message = "Invalid email and/or password" }) ∷ [])
            ⊎ (is_err (s.create_login_attempt (attempt (body.value).username false) d).0.err ≡ true)
              × (w.status ≡ some 500))
  unfolding user_login
  wrong_password_logged is_zero body session d (valid, open_, found) wrong = run.ends
    where
      G : Flow (Unit {0}) × World D → Type 0
      G (flow, w) =
          (w.db ≡ (s.create_login_attempt (attempt (body.value).username false) d).1)
          × (w.cookie ≡ none)
          × (((s.create_login_attempt (attempt (body.value).username false) d).0.err ≡ nil)
                × (w.status ≡ some 401)
                × (w.body
                    ≡ error (record { status = 401; message = "Invalid email and/or password" })
                      ∷ [])
              ⊎ (is_err (s.create_login_attempt (attempt (body.value).username false) d).0.err
                  ≡ true)
                × (w.status ≡ some 500))

      run : Ends G (user_login s crypto is_zero body session) (fresh d)
      run =
          Ends-check_body _ _ _ (λ e. cc)
            λ _. Ends-query_db _ _ _ (
              Ends-when_return _ _ _ _ _ (notify_of_exhausted_authentication_attempts_lem _)
                (λ e. cc)
                λ _.
                  Ends-check_internal _ _ _ (λ e. cc)
                    λ _. Ends-query_db _ _ _ (
                      Ends-check_row _ _ _ _ _ (λ e. cc) (λ e. cc)
                        λ _. Ends-exec_db _ _ _ (
                          Ends-check_internal _ _ _
                            (λ bad. (
                              rw wrong refl,
                              refl,
                              inr (
                                subst
                                    (λ b.
                                      is_err
                                        (s.create_login_attempt (attempt (body.value).username b)
                                          d).0.err
                                      ≡ true)
                                    wrong bad,
                                refl,
                              ),
                            ))
                            λ logged.
                              Ends-when_return _ _ _ _ _
                                (notify_of_invalid_authentication_attempt_lem _)
                                (λ _. (
                                  rw wrong refl,
                                  refl,
                                  inl (
                                    subst
                                        (λ b.
                                          (s.create_login_attempt (attempt (body.value).username b)
                                            d).0.err
                                          ≡ nil)
                                        wrong logged,
                                    refl,
                                    refl,
                                  ),
                                ))
                                λ e. cc)))
