-- ===== src/Models/Users.antt =====
-- models/v1/users.go, login_attempts.go and password_reset_tokens.go, with the response and login
-- structs of api/v1/users.go
use dairycart.Prelude.{ℕ, Bool, String}
use dairycart.Models.Basics.{Time, Dairytime}

pub record User : Type 0 where
  pub id : ℕ
  pub first_name : String
  pub last_name : String
  pub username : String
  pub email : String
  pub password : String
  pub is_admin : Bool
  pub password_last_changed_on : Dairytime
  pub created_on : Time
  pub updated_on : Dairytime
  pub archived_on : Dairytime

pub record UserResponse : Type 0 where
  pub id : ℕ
  pub first_name : String
  pub last_name : String
  pub username : String
  pub email : String
  pub is_admin : Bool
  pub password_last_changed_on : Dairytime
  pub created_on : Time
  pub updated_on : Dairytime
  pub archived_on : Dairytime

pub record UserCreationInput : Type 0 where
  pub first_name : String
  pub last_name : String
  pub username : String
  pub email : String
  pub password : String
  pub is_admin : Bool

pub record UserUpdateInput : Type 0 where
  pub first_name : String
  pub last_name : String
  pub username : String
  pub email : String
  pub new_password : String
  pub current_password : String
  pub is_admin : Bool

pub record DisplayUser : Type 0 where
  pub id : ℕ
  pub first_name : String
  pub last_name : String
  pub email : String
  pub is_admin : Bool
  pub created_on : Time
  pub updated_on : Dairytime
  pub archived_on : Dairytime

pub record UserLoginInput : Type 0 where
  pub username : String
  pub password : String

pub record LoginAttempt : Type 0 where
  pub id : ℕ
  pub username : String
  pub successful : Bool
  pub created_on : Time

pub record PasswordResetToken : Type 0 where
  pub id : ℕ
  pub user_id : ℕ
  pub token : String
  pub created_on : Time
  pub expires_on : Time
  pub password_reset_on : Dairytime
