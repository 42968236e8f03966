-- ===== src/Tests/Stocked.antt =====
-- A stocked PostgreSQL database.
use mathlib.Core.List.{Perm}
use mathlib.Core.List.Perm
use dairycart.Prelude.{ℕ, ◌/◌, ◌*◌, false, none, some, [], ◌∷◌, ◌≡◌, ◌⊎◌, arith}
use dairycart.Models.Basics.{Time}
use dairycart.Models.Users.{User}
use dairycart.Models.Products.{Product}
use dairycart.Storage.Answers.{nil}
use dairycart.Storage.Storer.{Storer}
use dairycart.Http.Messages.{webhook}
use dairycart.Http.Handler.{fresh}
use dairycart.Api.Rules.{IsRefused}
use dairycart.Api.Roots.{root_deletion}
use dairycart.Api.Users.Login.{user_login, forgotten_password, reset_token_validation}
use dairycart.Api.Webhooks.{webhook_creation, webhook_deletion}
use dairycart.Api.Webhooks.Executor.{Network, call_webhook, answered}
use dairycart.Postgres.Statements.{Queries, Table}
use dairycart.Postgres.Refinement.Tables.{ProductsRefine, get_product-ProductsRefine}
use dairycart.Postgres.Database.{Database, postgres}
use dairycart.Postgres.Database.Cascade.{IsGone, deleted_id, root_deletion-IsGone}
use dairycart.Postgres.Database.Hooks.{
  called_ids, webhook_creation-IsRefused, call_webhook-unlogged, webhook_deletion-called,
}
use dairycart.Postgres.Database.Logins.{IsLimited, user_login-IsLimited}
use dairycart.Postgres.Database.Resets.{forgotten_password-validation}
use dairycart.Postgres.Database.Sound.{IsSoundDatabase}
use dairycart.Postgres.Database.Steps.{migrated, Reach, Reach-IsSoundDatabase}
use dairycart.Storage.Steps.{Step}
use dairycart.Tests.Data.{
  cap, cap_root, red, blue, color, hook, ada, ada_login, good, admin_session,
}
use dairycart.Tests.Crypto.{toy_crypto}

-- A builder whose queries ask for every row.
abbrev plain : Queries (Unit {0})
plain = record {
  select_from = λ columns table. tt;
  builder = record {
    limit = λ n q. q;
    offset = λ n q. q;
    where_gt = λ c t q. q;
    where_lt = λ c t q. q;
    where_null = λ c q. q;
  };
  arrange = λ now rows. rows;
  numeric = λ f. f;
  answer_rows = λ schema times q rows. record { value = rows; err = nil };
  answer_count = λ schema times q rows. record { value = 0; err = nil };
}

abbrev none_yet : {R : Type 0} → Table R
none_yet = record { rows = []; next_id = 1 }

abbrev products_of_cap : Table Product
products_of_cap = record { rows = cap ∷ []; next_id = 8 }

abbrev users_with_ada : Table User
users_with_ada = record { rows = ada ∷ []; next_id = 10 }

abbrev stocked : Database
stocked = record {
  webhooks = record { rows = hook ∷ []; next_id = 3 };
  webhook_execution_logs = none_yet;
  discounts = none_yet;
  users = users_with_ada;
  login_attempts = none_yet;
  password_reset_tokens = none_yet;
  product_options = record { rows = color ∷ []; next_id = 6 };
  product_option_values = record { rows = red ∷ blue ∷ []; next_id = 13 };
  product_images = none_yet;
  product_image_bridges = none_yet;
  product_variant_bridges = none_yet;
  product_roots = record { rows = cap_root ∷ []; next_id = 4 };
  products = products_of_cap;
}

abbrev pg : Time → Storer Database
pg = postgres plain (λ d. none) (λ d. nil) (λ d. nil)

root_deletion-IsGone_example :
    let w = (root_deletion (pg 500) "3" (fresh stocked)).1 in
    IsRefused stocked w
    ⊎ (w.status ≡ some 200)
      × IsGone (deleted_id plain (λ d. none) (λ d. nil) (λ d. nil) 500 "3" stocked) w.db
root_deletion-IsGone_example =
    root_deletion-IsGone plain (λ d. none) (λ d. nil) (λ d. nil) 500 "3" stocked

forgotten_password-validation_example :
    let asked =
      (forgotten_password (pg 500) (λ i. false) "secret" (good ada_login) (fresh stocked)).1 in
    (reset_token_validation (pg 600) "secret" (fresh asked.db)).1.status
    ≡ (reset_token_validation (pg 600) "secret" (fresh stocked)).1.status
forgotten_password-validation_example =
    forgotten_password-validation plain (λ d. none) (λ d. nil) (λ d. nil) 500 600 (λ i. false)
      "secret" "secret" (good ada_login) stocked

webhook_creation-IsRefused_example :
    IsRefused stocked (webhook_creation (pg 500) (λ h. false) (good hook) (fresh stocked)).1
webhook_creation-IsRefused_example =
    webhook_creation-IsRefused plain (λ d. none) (λ d. nil) (λ d. nil) 500 (λ h. false) (good hook)
      stocked

abbrev network : Network
network = record {
  to_lower = λ s. s;
  xml_marshal = λ b. record { value = "<xml/>"; err = nil };
  json_marshal = λ b. record { value = "{}"; err = nil };
  post = λ url content_type body. answered 204;
}

call_webhook-unlogged_example : call_webhook (pg 500) network hook (webhook hook) stocked ≡ stocked
call_webhook-unlogged_example =
    call_webhook-unlogged plain (λ d. none) (λ d. nil) (λ d. nil) 500 network hook (webhook hook)
      stocked

webhook_deletion-called_example :
    let w = (webhook_deletion (pg 500) "2" (fresh stocked)).1 in
    Perm
      (called_ids plain (λ d. none) (λ d. nil) (λ d. nil) 600 "product_created" w.db)
      (called_ids plain (λ d. none) (λ d. nil) (λ d. nil) 600 "product_created" stocked)
webhook_deletion-called_example =
    webhook_deletion-called plain (λ d. none) (λ d. nil) (λ d. nil) (λ now xs. Perm.rfl) 500 600 "2"
      "product_created" stocked

user_login-IsLimited_example :
    IsLimited plain
      (λ d. none)
      (λ d. nil)
      (λ d. nil)
      500
      100
      "ada"
      (user_login
        (pg 500)
        toy_crypto
        (λ i. false)
        (good ada_login)
        (good admin_session)
        (fresh stocked)).1.db
user_login-IsLimited_example =
    user_login-IsLimited plain (λ d. none) (λ d. nil) (λ d. nil) 500 toy_crypto (λ i. false)
      (good ada_login) (good admin_session) 100 "ada" stocked tt (omega arith)

abbrev with_ada : Database
with_ada = ((pg 500).create_user ada migrated).1

Reach-IsSoundDatabase_example : IsSoundDatabase with_ada
Reach-IsSoundDatabase_example =
    Reach-IsSoundDatabase plain (λ d. none) (λ d. nil) (λ d. nil) with_ada
      (Reach.step 500 Reach.start (Step.create_user ada))

-- A column that holds even numbers.
abbrev even : ℕ → ℕ
even f = f / 2 * 2

get_product-ProductsRefine_example : ProductsRefine even 500 cap cap 7 products_of_cap 8
get_product-ProductsRefine_example =
    get_product-ProductsRefine even 500 cap cap 7 products_of_cap 8 (omega arith, omega arith)
