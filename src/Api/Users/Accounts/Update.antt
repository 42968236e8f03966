-- ===== src/Api/Users/Accounts/Update.antt =====
-- Who may change a user, and which row is written.
use dairycart.Prelude.{
  subst, if◌then◌else◌, leb→le, ℕ, ◌≤◌, ◌+◌, String, Bool, true, false, not, ◌&&◌, ◌≡◌, ◌≢◌, refl,
  inl, inr, ◌⊎◌, some, len, str_eq, str_eq_iff,
}
use dairycart.Models.Basics.{Time}
use dairycart.Models.Users.{User, UserUpdateInput}
use dairycart.Storage.Answers.{Answer, nil, is_err}
use dairycart.Storage.Storer.{Storer}
use dairycart.Http.Handler.{World, Flow, fresh, ◌>>=◌}
use dairycart.Api.Rules.{
  Ends, Ends-query_db, Ends-exec_db, Ends-when_return, Ends-check_body, Ends-check_internal,
  Ends-check_row, notify_of_invalid_request_body_lem, notify_of_invalid_authentication_attempt_lem,
  not-false,
}
use dairycart.Api.Users.Passwords.{Crypto, password_is_valid, password_matches, hash_password}
use dairycart.Api.Users.Accounts.{user_id_of, hashed_for_update, updated_user, user_update}
use dairycart.Api.Users.Accounts.Safe.{IsDenied}

valid_lem : (a b : Bool) → not a && not b ≡ false → a ≡ false → b ≡ true
valid_lem false true e f = refl
valid_lem false false e f = cc
valid_lem true b e f = cc

-- `mergo.Merge` fills what is zero in the first from the second.
pub record IsFilling (merge : User → User → User) : Type 0 where
  pub on_id : (u v : User) → u.id ≡ 0 → (merge u v).id ≡ v.id
  pub on_admin : (u v : User) → u.is_admin ≡ false → (merge u v).is_admin ≡ v.is_admin
  pub on_password :
      (u v : User)
      → (u.password ≢ "") ⊎ (u.password ≡ v.password)
      → (merge u v).password ≡ u.password

-- A hash that bcrypt makes without an error is not the empty string.
abbrev pub IsNonempty : Crypto → Type 0
IsNonempty crypto =
    (password : String) (cost : ℕ)
    → (crypto.generate password cost).err ≡ nil
    → (crypto.generate password cost).value ≢ ""

module _ {D : Type 0} (s : Storer D) (crypto : Crypto) where
  abbrev pub IsUpdate : UserUpdateInput → User → User → Type 0
  IsUpdate input existing u =
      (u.id ≡ existing.id)
      × ((input.new_password ≡ "") × (u.password ≡ existing.password)
          ⊎ (16 ≤ len input.new_password)
            × ((crypto.generate input.new_password (crypto.default_cost + 3)).err ≡ nil)
            × (u.password ≡ (crypto.generate input.new_password (crypto.default_cost + 3)).value))
      × (u.is_admin ≡ existing.is_admin)

  abbrev pub IsUserUpdate : String → UserUpdateInput → D → Flow (Unit {0}) × World D → Type 0
  IsUserUpdate id_str input d (flow, w) =
      let existing = (s.get_user (user_id_of id_str) d).value in
      IsDenied s crypto d w
      ⊎ (password_matches crypto input.current_password existing.password ≡ true)
        × ((u : User) × IsUpdate input existing u
            × (w.db ≡ (s.update_user u d).1)
            × (((s.update_user u d).0.err ≡ nil) × (w.status ≡ some 200)
                ⊎ (is_err (s.update_user u d).0.err ≡ true) × (w.status ≡ some 500)))

  hashed_lem :
      (merge : User → User → User)
      → IsFilling merge
      → IsNonempty crypto
      → (now : Time) (input : UserUpdateInput) (existing : User)
      → not (str_eq input.new_password "") && not (password_is_valid input.new_password) ≡ false
      → (hashed_for_update crypto input existing).err ≡ nil
      → IsUpdate input existing
          (updated_user merge now input (hashed_for_update crypto input existing).value existing)
  unfolding updated_user hashed_for_update hash_password password_is_valid
  hashed_lem merge filling nonempty now input existing valid hashed = (
    filling.on_id _ existing refl,
    by_test (str_eq input.new_password "") refl,
    filling.on_admin _ existing refl,
  )
    where
      by_test :
          (b : Bool)
          → str_eq input.new_password "" ≡ b
          → let u =
              updated_user merge now input
                (hashed_for_update crypto input existing).value
                existing in
            (input.new_password ≡ "") × (u.password ≡ existing.password)
            ⊎ (16 ≤ len input.new_password)
              × ((crypto.generate input.new_password (crypto.default_cost + 3)).err ≡ nil)
              × (u.password ≡ (crypto.generate input.new_password (crypto.default_cost + 3)).value)
      by_test true e = inl ((str_eq_iff _ _).0 e, rw e (filling.on_password _ existing (inr refl)))
      by_test false e = inr (
        leb→le _ _ (valid_lem _ _ valid e),
        made e,
        rw e (filling.on_password _ existing (inl (nonempty _ _ (made e)))),
      )
        where
          made :
              str_eq input.new_password "" ≡ false
              → (crypto.generate input.new_password (crypto.default_cost + 3)).err ≡ nil
          made e =
              subst
                (λ b.
                  (if not b
                    then crypto.generate input.new_password (crypto.default_cost + 3)
                    else record { value = existing.password; err = nil }).err
                  ≡ nil)
                e hashed

  -- Updating a user is refused with nothing written unless the request knows the current password and a
  -- new password, if there is one, has 16 bytes at least. The row written then has the id and the rights
  -- of the stored one, and its password is the hash that bcrypt made without an error of the new password, or the
  -- old hash if there is none. The answer is 200, or an internal error if the statement fails. Assumed of mergo:
  -- it fills what is zero; of bcrypt: a hash made without an error is not empty.
  pub user_update_safe :
      (merge : User → User → User)
      → IsFilling merge
      → IsNonempty crypto
      → (is_zero : UserUpdateInput → Bool) (now : Time) (id_str : String)
        (body : Answer UserUpdateInput) (d : D)
      → IsUserUpdate id_str body.value d
          (user_update s crypto is_zero merge now id_str body (fresh d))
  unfolding user_update
  user_update_safe merge filling nonempty is_zero now id_str body d = run.ends
    where
      existing : User
      existing = (s.get_user (user_id_of id_str) d).value

      u : User
      u =
          updated_user merge now body.value (hashed_for_update crypto body.value existing).value
            existing

      stored :
          not (str_eq (body.value).new_password "")
              && not (password_is_valid (body.value).new_password)
            ≡ false
          → (hashed_for_update crypto body.value existing).err ≡ nil
          → IsUpdate body.value existing u
      stored = hashed_lem merge filling nonempty now body.value existing

      run :
          Ends
            (IsUserUpdate id_str body.value d)
            (user_update s crypto is_zero merge now id_str body)
            (fresh d)
      run =
          Ends-check_body _ _ _ (λ _. inl (refl, refl, inl refl))
            λ _.
              Ends-when_return _ _ _ _ _ (notify_of_invalid_request_body_lem _ _)
                (λ _. inl (refl, refl, inl refl))
                λ long. Ends-query_db _ _ _ (
                  Ends-check_row _ _ _ _ _ (λ _. inl (refl, refl, inr (inr (inr (inl refl)))))
                    (λ _. inl (refl, refl, inr (inr (inr (inr refl)))))
                    λ found.
                      Ends-when_return _ _ _ _ _ (notify_of_invalid_authentication_attempt_lem _)
                        (λ _. inl (refl, refl, inr (inl refl)))
                        λ right.
                          Ends-check_internal _ _ _
                            (λ _. inl (refl, refl, inr (inr (inr (inr refl)))))
                            λ hashed. Ends-exec_db _ _ _ (
                              Ends-check_internal _ _ _
                                (λ bad. inr (
                                  not-false _ right,
                                  (u, stored long hashed, refl, inr (bad, refl)),
                                ))
                                λ ok. record {
                                  ends =
                                      unfold ◌>>=◌ in
                                      inr (
                                        not-false _ right,
                                        (u, stored long hashed, refl, inl (ok, refl)),
                                      );
                                }))
