-- ===== src/Http/Messages.antt =====
-- `http.Request` as a handler sees it, what it writes to the `http.ResponseWriter`, and the structs
-- of api/v1/helpers.go that go into a response.
use dairycart.Prelude.{ℕ, String, Bool, List, Option}
use dairycart.Models.Basics.{QueryFilter}
use dairycart.Models.Discounts.{Discount}
use dairycart.Models.Webhooks.{Webhook}
use dairycart.Models.Users.{User, UserResponse, DisplayUser, PasswordResetToken}
use dairycart.Models.Options.{ProductOption, ProductOptionValue}
use dairycart.Models.Products.{Product}
use dairycart.Models.Roots.{ProductRoot}

pub record ListResponse (A : Type 0) : Type 0 where
  pub count : ℕ
  pub limit : ℕ
  pub page : ℕ
  pub items : List A

abbrev pub list_response : {A : Type 0} → QueryFilter → ℕ → List A → ListResponse A
list_response qf count items = record {
  count = count;
  limit = qf.limit;
  page = qf.page;
  items = items;
}

pub record ErrorResponse : Type 0 where
  pub status : ℕ
  pub message : String

-- The value that a handler hands to `json.NewEncoder(res).Encode`.
pub data Body : Type 0 where
  error : ErrorResponse → Body
  discount : Discount → Body
  discounts : ListResponse Discount → Body
  webhook : Webhook → Body
  webhook_list : List Webhook → Body
  webhooks : ListResponse Webhook → Body
  product : Product → Body
  products : ListResponse Product → Body
  product_root : ProductRoot → Body
  product_roots : ListResponse ProductRoot → Body
  product_option : ProductOption → Body
  product_options : ListResponse ProductOption → Body
  product_option_value : ProductOptionValue → Body
  user : User → Body
  user_response : UserResponse → Body
  display_user : DisplayUser → Body
  reset_token : PasswordResetToken → Body

-- `session.Values` under the three keys of api/v1/users.go; `none` is a key that is not there.
pub record Session : Type 0 where
  pub user_id : Option ℕ
  pub authenticated : Option Bool
  pub is_admin : Option Bool

-- One `go webhookExecutor.CallWebhook(wh, object, db, client)`.
pub record HookCall : Type 0 where
  pub hook : Webhook
  pub object : Body
