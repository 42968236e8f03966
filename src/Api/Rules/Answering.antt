-- ===== src/Api/Rules/Answering.antt =====
-- The world after a handler answers an error, by api/v1/helpers.go.
use dairycart.Prelude.{ℕ, String, ◌≡◌, refl, [], ◌∷◌, ◌++◌, none}
use dairycart.Http.Messages.{error}
use dairycart.Http.Handler.{World, next, or_status, ◌>>=◌}
use dairycart.Api.Respond.{
  respond_error, respond_that_row_does_not_exist, notify_of_invalid_request_body,
  notify_of_invalid_request_cookie, notify_of_invalid_authentication_attempt,
  notify_of_exhausted_authentication_attempts, exhausted_message, not_found_message,
}

module _ {D : Type 0} where
  -- The world after `respond_error status message`.
  abbrev pub answered : ℕ → String → World D → World D
  answered status message w = record w {
    status = or_status (or_status w.status status) 200;
    body = w.body ++ error (record { status = status; message = message }) ∷ [];
  }

  abbrev pub internal : World D → World D
  internal = answered 500 "Unexpected internal error occurred"

  -- The world after a rollback.
  abbrev pub rolled_back : World D → World D
  rolled_back w = record w { tx = none }

  pub respond_error_lem :
      (status : ℕ) (message : String) (w : World D)
      → respond_error status message w ≡ (next tt, answered status message w)
  unfolding ◌>>=◌ respond_error
  respond_error_lem status message w = refl

  pub notify_of_invalid_request_body_lem :
      (message : String) (w : World D)
      → notify_of_invalid_request_body message w ≡ (next tt, answered 400 message w)
  unfolding ◌>>=◌ notify_of_invalid_request_body
  notify_of_invalid_request_body_lem message w = refl

  pub respond_that_row_does_not_exist_lem :
      (item id : String) (w : World D)
      → respond_that_row_does_not_exist item id w
        ≡ (next tt, answered 404 (not_found_message item id) w)
  unfolding ◌>>=◌ respond_that_row_does_not_exist
  respond_that_row_does_not_exist_lem item id w = refl

  pub notify_of_invalid_request_cookie_lem :
      (w : World D)
      → notify_of_invalid_request_cookie w ≡ (next tt, answered 400 "invalid request cookie" w)
  unfolding ◌>>=◌ notify_of_invalid_request_cookie
  notify_of_invalid_request_cookie_lem w = refl

  pub notify_of_invalid_authentication_attempt_lem :
      (w : World D)
      → notify_of_invalid_authentication_attempt w
        ≡ (next tt, answered 401 "Invalid email and/or password" w)
  unfolding ◌>>=◌ notify_of_invalid_authentication_attempt
  notify_of_invalid_authentication_attempt_lem w = refl

  pub notify_of_exhausted_authentication_attempts_lem :
      (w : World D)
      → notify_of_exhausted_authentication_attempts w ≡ (next tt, answered 401 exhausted_message w)
  unfolding ◌>>=◌ notify_of_exhausted_authentication_attempts
  notify_of_exhausted_authentication_attempts_lem w = refl
