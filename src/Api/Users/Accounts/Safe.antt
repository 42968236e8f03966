-- ===== src/Api/Users/Accounts/Safe.antt =====
-- Who may create and delete users, and which rows are written for them.
use dairycart.Prelude.{
  String, Bool, true, false, ◌&&◌, ◌||◌, ◌≡◌, refl, inl, inr, ◌⊎◌, [], ◌∷◌, Option, none, some,
}
use dairycart.Models.Users.{UserCreationInput}
use dairycart.Storage.Answers.{Answer, nil, is_err}
use dairycart.Storage.Storer.{Storer}
use dairycart.Http.Messages.{Session, user_response}
use dairycart.Http.Handler.{World, Flow, fresh, ◌>>=◌}
use dairycart.Api.Rules.{
  Ends, Ends-query_db, Ends-exec_db, Ends-when_return, Ends-check_body, Ends-check_internal,
  Ends-check_row, notify_of_invalid_request_body_lem, notify_of_invalid_request_cookie_lem,
  respond_error_lem, right_false, is_err-false,
}
use dairycart.Api.Users.Passwords.{
  Crypto, create_user_from_input, create_user_response_from_user, validate_user_creation_input,
  is_not_set, session_of,
}
use dairycart.Api.Users.Accounts.{user_id_of, user_creation, user_deletion}

is_not_set_lem : (o : Option Bool) → is_not_set o ≡ false → o ≡ some true
is_not_set_lem none e = cc
is_not_set_lem (some true) e = refl
is_not_set_lem (some false) e = cc

admin_lem :
    (wanted : Bool) (o : Option Bool)
    → wanted && is_not_set o ≡ false
    → (wanted ≡ false) ⊎ (o ≡ some true)
admin_lem true o e = inr (is_not_set_lem o e)
admin_lem false o e = inl refl

module _ {D : Type 0} (s : Storer D) (crypto : Crypto) where
  -- A refusal: nothing is written, and no session is saved.
  abbrev pub IsDenied : D → World D → Type 0
  IsDenied d w =
      (w.db ≡ d)
      × (w.cookie ≡ none)
      × ((w.status ≡ some 400)
          ⊎ (w.status ≡ some 401)
          ⊎ (w.status ≡ some 403)
          ⊎ (w.status ≡ some 404)
          ⊎ (w.status ≡ some 500))

  -- What an input must satisfy for a user to be written.
  abbrev pub IsAcceptable : UserCreationInput → Answer Session → D → Type 0
  IsAcceptable input session d =
      (validate_user_creation_input crypto input ≡ nil)
      × ((input.is_admin ≡ false) ⊎ (session.value.is_admin ≡ some true))
      × ((s.user_with_username_exists input.username d).value ≡ false)
      × ((create_user_from_input crypto input).err ≡ nil)

  abbrev pub IsUserCreation :
      UserCreationInput → Answer Session → D → Flow (Unit {0}) × World D → Type 0
  IsUserCreation input session d (flow, w) =
      let new = (create_user_from_input crypto input).value in
      IsDenied d w
      ⊎ IsAcceptable input session d
        × (w.db ≡ (s.create_user new d).1)
        × (((s.create_user new d).0.err ≡ nil)
              × (w.status ≡ some 201)
              × (w.cookie ≡ some (session_of (s.create_user new d).0.value.id input.is_admin))
            ⊎ (is_err (s.create_user new d).0.err ≡ true)
              × (w.status ≡ some 500)
              × (w.cookie ≡ none))

  -- Creating a user is refused with nothing written, or the input is valid, its username is free, it
  -- asks for an administrator only in the session of one, and the row that is written is the one of
  -- `createUserFromInput`; with status 201 the session saved is that of the new user.
  pub user_creation_safe :
      (is_zero : UserCreationInput → Bool) (body : Answer UserCreationInput)
      (session : Answer Session) (d : D)
      → IsUserCreation body.value session d (user_creation s crypto is_zero body session (fresh d))
  unfolding user_creation
  user_creation_safe is_zero body session d = run.ends
    where
      accepted :
          validate_user_creation_input crypto body.value ≡ nil
          → (body.value).is_admin && is_not_set (session.value).is_admin ≡ false
          → is_err (s.user_with_username_exists (body.value).username d).err
              || (s.user_with_username_exists (body.value).username d).value
            ≡ false
          → (create_user_from_input crypto body.value).err ≡ nil
          → IsAcceptable body.value session d
      accepted valid admin free hashed = (
        valid,
        admin_lem (body.value).is_admin (session.value).is_admin admin,
        right_false (is_err (s.user_with_username_exists (body.value).username d).err) _ free,
        hashed,
      )

      run :
          Ends
            (IsUserCreation body.value session d)
            (user_creation s crypto is_zero body session)
            (fresh d)
      run =
          Ends-check_body _ _ _ (λ _. inl (refl, refl, inl refl))
            λ _.
              Ends-check_body _ _ _ (λ _. inl (refl, refl, inl refl))
                λ valid.
                  Ends-when_return _ _ _ _ _ (notify_of_invalid_request_cookie_lem _)
                    (λ _. inl (refl, refl, inl refl))
                    λ _.
                      Ends-when_return _ _ _ _ _ (respond_error_lem _ _ _)
                        (λ _. inl (refl, refl, inr (inr (inl refl))))
                        λ admin. Ends-query_db _ _ _ (
                          Ends-when_return _ _ _ _ _ (notify_of_invalid_request_body_lem _ _)
                            (λ _. inl (refl, refl, inl refl))
                            λ free.
                              Ends-check_internal _ _ _
                                (λ _. inl (refl, refl, inr (inr (inr (inr refl)))))
                                λ hashed. Ends-exec_db _ _ _ (
                                  Ends-check_internal _ _ _
                                    (λ bad. inr (
                                      accepted valid admin free hashed,
                                      refl,
                                      inr (bad, refl, refl),
                                    ))
                                    λ ok. record {
                                      ends =
                                          unfold ◌>>=◌ create_user_from_input in
                                          inr (
                                            accepted valid admin free hashed,
                                            refl,
                                            inl (ok, refl, refl),
                                          );
                                    }))

  abbrev pub IsUserDeletion : String → Answer Session → D → Flow (Unit {0}) × World D → Type 0
  IsUserDeletion id_str session d (flow, w) =
      let found = s.get_user (user_id_of id_str) d in
      let archived = s.delete_user (user_id_of id_str) d in
      IsDenied d w
      ⊎ (session.err ≡ nil)
        × (session.value.is_admin ≡ some true)
        × (found.err ≡ nil)
        × (w.db ≡ archived.1)
        × ((archived.0.err ≡ nil)
              × (w.status ≡ some 200)
              × (w.body
                  ≡ user_response (
                      create_user_response_from_user
                        (record found.value { archived_on = some archived.0.value }))
                    ∷ [])
            ⊎ (is_err archived.0.err ≡ true) × (w.status ≡ some 500))

  -- Deleting a user is refused with nothing written unless the session is that of an administrator and
  -- the user exists; then the row is archived, and the answer shows it with the date of its archiving, or is an
  -- internal error if the statement that archives it fails.
  pub user_deletion_safe :
      (id_str : String) (session : Answer Session) (d : D)
      → IsUserDeletion id_str session d (user_deletion s id_str session (fresh d))
  unfolding user_deletion
  user_deletion_safe id_str session d = run.ends
    where
      run : Ends (IsUserDeletion id_str session d) (user_deletion s id_str session) (fresh d)
      run = Ends-query_db _ _ _ (
          Ends-check_row _ _ _ _ _ (λ _. inl (refl, refl, inr (inr (inr (inl refl)))))
            (λ _. inl (refl, refl, inr (inr (inr (inr refl)))))
            λ found.
              Ends-when_return _ _ _ _ _ (notify_of_invalid_request_cookie_lem _)
                (λ _. inl (refl, refl, inl refl))
                λ cookie.
                  Ends-when_return _ _ _ _ _ (respond_error_lem _ _ _)
                    (λ _. inl (refl, refl, inr (inr (inl refl))))
                    λ admin. Ends-exec_db _ _ _ (
                      Ends-check_internal _ _ _
                        (λ bad. inr (
                          is_err-false _ cookie,
                          is_not_set_lem _ admin,
                          found,
                          refl,
                          inr (bad, refl),
                        ))
                        λ ok. record {
                          ends =
                              unfold ◌>>=◌ in
                              inr (
                                is_err-false _ cookie,
                                is_not_set_lem _ admin,
                                found,
                                refl,
                                inl (ok, refl, refl),
                              );
                        }))
