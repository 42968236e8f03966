-- ===== src/Api/Users/Login/Weak.antt =====
-- The login of a user whose stored hash has another cost than the current one.
use dairycart.Prelude.{◌+◌, Bool, true, false, ◌≡◌, refl, some}
use dairycart.Models.Users.{User, UserLoginInput}
use dairycart.Storage.Answers.{Answer, nil}
use dairycart.Storage.Storer.{Storer}
use dairycart.Http.Messages.{Session}
use dairycart.Http.Handler.{World, Flow, Handler, fresh, ◌>>=◌}
use dairycart.Api.Rules.{
  Ends, Ends-query_db, Ends-exec_db, Ends-when_return, Ends-check_body, Ends-check_internal,
  Ends-check_row, Ends-assoc, Ends-pure, notify_of_invalid_request_cookie_lem,
  notify_of_invalid_authentication_attempt_lem, notify_of_exhausted_authentication_attempts_lem,
}
use dairycart.Api.Users.Passwords.{
  Crypto, hash_password, password_matches, password_is_too_weak, session_of,
}
use dairycart.Api.Users.Login.{attempt, rehash, user_login}
use dairycart.Api.Users.Login.Safe.{IsKnown, login_user}

module _ {D : Type 0} (s : Storer D) (crypto : Crypto) where
  -- The user as `rehash` writes it.
  abbrev pub rehashed : User → User
  rehashed u = record u { password = (crypto.generate u.password (crypto.default_cost + 3)).value }

  Ends-rehash_weak :
      {G : Flow (Unit {0}) × World D → Type 0} (weak : Bool) (u : User)
      (k : User → Handler D (Unit {0})) (w : World D)
      → weak ≡ true
      → (crypto.generate u.password (crypto.default_cost + 3)).err ≡ nil
      → (s.update_user (rehashed u) w.db).0.err ≡ nil
      → Ends G (k (rehashed u)) (record w { db = (s.update_user (rehashed u) w.db).1 })
      → Ends G (rehash s crypto weak u >>= k) w
  unfolding rehash hash_password
  Ends-rehash_weak true u k w weak hashed written h = Ends-assoc _ _ _ _ (
      Ends-check_body _ _ _ (λ e. cc)
        λ _. Ends-assoc _ _ _ _ (
          Ends-exec_db _ _ _
            (Ends-assoc _ _ _ _ (Ends-check_internal _ _ _ (λ e. cc) λ _. Ends-pure _ _ _ h))))
  Ends-rehash_weak false u k w weak hashed written h = cc

  -- The password is right, the cost of the stored hash is another than the current one, and nothing fails.
  abbrev pub IsWeakLogin : UserLoginInput → Answer Session → D → Type 0
  IsWeakLogin input session d =
      let u = login_user s crypto input d in
      let d₁ = (s.create_login_attempt (attempt input.username true) d).1 in
      (password_matches crypto input.password u.password ≡ true)
      × (password_is_too_weak crypto u.password ≡ record { value = true; err = nil })
      × ((s.create_login_attempt (attempt input.username true) d).0.err ≡ nil)
      × ((crypto.generate u.password (crypto.default_cost + 3)).err ≡ nil)
      × ((s.update_user (rehashed u) d₁).0.err ≡ nil)
      × (session.err ≡ nil)

  -- A login with the right password of a user whose hash has another cost than the current one, where nothing
  -- fails, answers 200 with the session of the user, and stores as the password of the user the hash of the old
  -- hash, not of the password; that row is what is written, after the attempt.
  pub weak_login-rehashed :
      (is_zero : UserLoginInput → Bool) (body : Answer UserLoginInput) (session : Answer Session)
      (d : D)
      → IsKnown s crypto is_zero body d
      → IsWeakLogin body.value session d
      → let (flow, w) = user_login s crypto is_zero body session (fresh d) in
        let u = login_user s crypto body.value d in
        (w.status ≡ some 200)
        × (w.cookie ≡ some (session_of u.id u.is_admin))
        × (w.db
            ≡ (s.update_user
                (rehashed u)
                (s.create_login_attempt (attempt (body.value).username true) d).1).1)
  unfolding user_login
  weak_login-rehashed is_zero body session d (valid, open_, found)
        (right, weak, logged, hashed, written, cookie) =
      run.ends
    where
      u : User
      u = login_user s crypto body.value d

      G : Flow (Unit {0}) × World D → Type 0
      G (flow, w) =
          (w.status ≡ some 200)
          × (w.cookie ≡ some (session_of u.id u.is_admin))
          × (w.db
              ≡ (s.update_user (rehashed u)
                  (s.create_login_attempt (attempt (body.value).username true) d).1).1)

      run : Ends G (user_login s crypto is_zero body session) (fresh d)
      run =
          Ends-check_body _ _ _ (λ e. cc)
            λ _. Ends-query_db _ _ _ (
              Ends-when_return _ _ _ _ _ (notify_of_exhausted_authentication_attempts_lem _)
                (λ e. cc)
                λ _.
                  Ends-check_internal _ _ _ (λ e. cc)
                    λ _. Ends-query_db _ _ _ (
                      Ends-check_row _ _ _ _ _ (λ e. cc) (λ e. cc)
                        λ _. Ends-exec_db _ _ _ (
                          Ends-check_internal _ _ _ (λ e. cc)
                            λ _.
                              Ends-when_return _ _ _ _ _
                                (notify_of_invalid_authentication_attempt_lem _) (λ e. cc)
                                λ _.
                                  Ends-check_body _ _ _ (λ e. cc)
                                    λ _. Ends-rehash_weak _ _ _ _ (cc) hashed (rw right written) (
                                      Ends-when_return _ _ _ _ _
                                        (notify_of_invalid_request_cookie_lem _) (λ e. cc)
                                        λ _. record {
                                          ends = unfold ◌>>=◌ in (refl, refl, rw right refl);
                                        }))))
