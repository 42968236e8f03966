-- ===== src/Api/Users/Login/Reset.antt =====
-- Who gets a token to reset a password.
use dairycart.Prelude.{String, Bool, true, false, ◌≡◌, ◌⊎◌, inl, inr, refl, some, [], ◌∷◌}
use dairycart.Models.Users.{User, UserLoginInput, PasswordResetToken}
use dairycart.Storage.Answers.{Answer, nil, is_err}
use dairycart.Storage.Storer.{Storer}
use dairycart.Http.Messages.{reset_token}
use dairycart.Http.Handler.{World, Flow, fresh, ◌>>=◌}
use dairycart.Api.Rules.{
  Ends, IsRefused, Ends-query_db, Ends-exec_db, Ends-check_body, Ends-check_internal,
  Ends-check_row, Ends-when_return, notify_of_invalid_request_body_lem, right_false,
}
use dairycart.Api.Users.Login.{new_token, forgotten_password}

module _ {D : Type 0} (s : Storer D) where
  abbrev forgetful : UserLoginInput → D → User
  forgetful input d = (s.get_user_by_username input.username d).value

  abbrev stored_token : PasswordResetToken → D → PasswordResetToken
  stored_token new d =
      let c = (s.create_password_reset_token new d).0.value in
      record new { id = c.id; created_on = c.created_on }

  abbrev pub IsReset : String → UserLoginInput → D → World D → Type 0
  IsReset token input d w =
      let new = new_token (forgetful input d).id token in
      IsRefused d w
      ⊎ ((s.get_user_by_username input.username d).err ≡ nil)
        × ((s.password_reset_token_for_user_id_exists (forgetful input d).id d).value ≡ false)
        × (w.db ≡ (s.create_password_reset_token new d).1)
        × (((s.create_password_reset_token new d).0.err ≡ nil)
              × (w.status ≡ some 200)
              × (w.body ≡ reset_token (stored_token new d) ∷ [])
            ⊎ (is_err (s.create_password_reset_token new d).0.err ≡ true) × (w.status ≡ some 500))

  -- A request to reset a password is refused with nothing written; or the user exists and has no token
  -- that is still good, and a token for that user is written and shown, or an internal error is answered if the
  -- statement that writes it fails.
  pub forgotten_password_safe :
      (is_zero : UserLoginInput → Bool) (token : String) (body : Answer UserLoginInput) (d : D)
      → let (flow, w) = forgotten_password s is_zero token body (fresh d) in
        IsReset token body.value d w
  unfolding forgotten_password
  forgotten_password_safe is_zero token body d = run.ends
    where
      G : Flow (Unit {0}) × World D → Type 0
      G (flow, w) = IsReset token body.value d w

      user : User
      user = forgetful body.value d

      run : Ends G (forgotten_password s is_zero token body) (fresh d)
      run =
          Ends-check_body _ _ _ (λ _. inl (refl, refl, refl, inl refl))
            λ _. Ends-query_db _ _ _ (
              Ends-check_row _ _ _ _ _ (λ _. inl (refl, refl, refl, inr (inl refl)))
                (λ _. inl (refl, refl, refl, inr (inr refl)))
                λ found. Ends-query_db _ _ _ (
                  Ends-when_return _ _ _ _ _ (notify_of_invalid_request_body_lem _ _)
                    (λ _. inl (refl, refl, refl, inl refl))
                    λ none_yet. Ends-exec_db _ _ _ (
                      Ends-check_internal _ _ _
                        (λ bad. inr (
                          found,
                          right_false
                              (is_err (s.password_reset_token_for_user_id_exists user.id d).err) _
                              none_yet,
                          refl,
                          inr (bad, refl),
                        ))
                        λ ok. record {
                          ends =
                              unfold ◌>>=◌ in
                              inr (
                                found,
                                right_false
                                    (is_err
                                      (s.password_reset_token_for_user_id_exists user.id d).err)
                                    _ none_yet,
                                refl,
                                inl (ok, refl, refl),
                              );
                        })))
