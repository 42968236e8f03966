-- ===== src/Postgres/Refinement/Tables.antt =====
-- The tables with ids, dates of archiving and all four statements refine the abstract map.
use dairycart.Prelude.{ℕ, refl, [], ◌∷◌}
use dairycart.Models.Basics.{Time, Float64}
use dairycart.Models.Discounts.{Discount}
use dairycart.Models.Users.{User}
use dairycart.Models.Options.{ProductOption, ProductOptionValue}
use dairycart.Models.Products.{ProductImage, Product}
use dairycart.Models.Roots.{ProductRoot}
use dairycart.Postgres.Statements.{Table, not_created, created_at}
use dairycart.Postgres.Refinement.{IsSound, Refines, refines}
use dairycart.Postgres.Discounts.{
  no_discount, get_discount, create_discount, inserted_discount, update_discount,
  set_discount_columns, delete_discount, archived_discount, discount_schema,
  inserted_discount_columns, updated_discount_columns,
}
use dairycart.Postgres.Users.{
  no_user, get_user, create_user, inserted_user, update_user, set_user_columns, delete_user,
  archived_user, user_schema, inserted_user_columns, updated_user_columns,
}
use dairycart.Postgres.Options.{
  no_product_option, get_product_option, create_product_option, inserted_product_option,
  update_product_option, set_product_option_columns, delete_product_option, archived_product_option,
  product_option_schema, inserted_product_option_columns, updated_product_option_columns,
}
use dairycart.Postgres.OptionValues.{
  no_product_option_value, get_product_option_value, create_product_option_value,
  inserted_product_option_value, update_product_option_value, set_product_option_value_columns,
  delete_product_option_value, archived_product_option_value, product_option_value_schema,
  inserted_product_option_value_columns, updated_product_option_value_columns,
}
use dairycart.Postgres.Images.{
  no_product_image, get_product_image, create_product_image, inserted_product_image,
  update_product_image, set_product_image_columns, delete_product_image, archived_product_image,
  product_image_schema, inserted_product_image_columns, updated_product_image_columns,
}
use dairycart.Postgres.Roots.{
  no_product_root, get_product_root, create_product_root, inserted_product_root,
  update_product_root, set_product_root_columns, delete_product_root, archived_product_root,
  product_root_schema, inserted_product_root_columns, updated_product_root_columns,
}
use dairycart.Postgres.Products.{
  no_product, get_product, create_product, inserted_product, update_product, set_product_columns,
  delete_product, archived_product, no_created_product, product_schema, inserted_product_columns,
  updated_product_columns,
}

module _ (numeric : Float64 → Float64) (now : Time) (new updated : Discount) (k : ℕ) where
  abbrev pub DiscountsRefine : Table Discount → ℕ → Type 0
  DiscountsRefine =
      Refines (λ r. r.id) (λ r. r.archived_on) get_discount no_discount
        (create_discount numeric now new) (inserted_discount numeric now new)
        (update_discount numeric now updated) updated.id (set_discount_columns numeric updated now)
        (delete_discount now k) k

  -- In a table of discounts whose ids ascend below the next one, a query by id answers the row that is not
  -- archived, or no row; an INSERT adds the new row under the next id, an UPDATE changes the columns under
  -- its id, an archiving removes its id, each for every id; and the ids stay sound.
  pub get_discount-DiscountsRefine :
      (t : Table Discount) (n : ℕ) → IsSound (λ r. r.id) t → DiscountsRefine t n
  unfolding get_discount create_discount update_discount delete_discount
  get_discount-DiscountsRefine =
      refines (λ r. r.id) (λ r. r.archived_on) discount_schema discount_schema
        inserted_discount_columns ("id" ∷ "created_on" ∷ []) updated_discount_columns no_discount
        not_created (created_at now) (inserted_discount numeric now new)
        (set_discount_columns numeric updated now) (archived_discount now) now updated.id k refl
        refl refl refl (λ n. refl) (λ n. refl) (λ r. refl) (λ r. refl) (λ r. refl) (λ r. refl)

module _ (now : Time) (new updated : User) (k : ℕ) where
  abbrev pub UsersRefine : Table User → ℕ → Type 0
  UsersRefine =
      Refines (λ r. r.id) (λ r. r.archived_on) get_user no_user (create_user now new)
        (inserted_user now new) (update_user now updated) updated.id (set_user_columns updated now)
        (delete_user now k) k

  -- In a table of users whose ids ascend below the next one, a query by id answers the row that is not
  -- archived, or no row; an INSERT adds the new row under the next id, an UPDATE changes the columns under
  -- its id, an archiving removes its id, each for every id; and the ids stay sound.
  pub get_user-UsersRefine : (t : Table User) (n : ℕ) → IsSound (λ r. r.id) t → UsersRefine t n
  unfolding get_user create_user update_user delete_user
  get_user-UsersRefine =
      refines (λ r. r.id) (λ r. r.archived_on) user_schema user_schema inserted_user_columns
        ("id" ∷ "created_on" ∷ []) updated_user_columns no_user not_created (created_at now)
        (inserted_user now new) (set_user_columns updated now) (archived_user now) now updated.id k
        refl refl refl refl (λ n. refl) (λ n. refl) (λ r. refl) (λ r. refl) (λ r. refl) (λ r. refl)

module _ (now : Time) (new updated : ProductOption) (k : ℕ) where
  abbrev pub ProductOptionsRefine : Table ProductOption → ℕ → Type 0
  ProductOptionsRefine =
      Refines (λ r. r.id) (λ r. r.archived_on) get_product_option no_product_option
        (create_product_option now new) (inserted_product_option now new)
        (update_product_option now updated) updated.id (set_product_option_columns updated now)
        (delete_product_option now k) k

  -- In a table of product options whose ids ascend below the next one, a query by id answers the row that is not
  -- archived, or no row; an INSERT adds the new row under the next id, an UPDATE changes the columns under
  -- its id, an archiving removes its id, each for every id; and the ids stay sound.
  pub get_product_option-ProductOptionsRefine :
      (t : Table ProductOption) (n : ℕ) → IsSound (λ r. r.id) t → ProductOptionsRefine t n
  unfolding get_product_option create_product_option update_product_option delete_product_option
  get_product_option-ProductOptionsRefine =
      refines (λ r. r.id) (λ r. r.archived_on) product_option_schema product_option_schema
        inserted_product_option_columns ("id" ∷ "created_on" ∷ []) updated_product_option_columns
        no_product_option not_created (created_at now) (inserted_product_option now new)
        (set_product_option_columns updated now) (archived_product_option now) now updated.id k refl
        refl refl refl (λ n. refl) (λ n. refl) (λ r. refl) (λ r. refl) (λ r. refl) (λ r. refl)

module _ (now : Time) (new updated : ProductOptionValue) (k : ℕ) where
  abbrev pub ProductOptionValuesRefine : Table ProductOptionValue → ℕ → Type 0
  ProductOptionValuesRefine =
      Refines (λ r. r.id) (λ r. r.archived_on) get_product_option_value no_product_option_value
        (create_product_option_value now new) (inserted_product_option_value now new)
        (update_product_option_value now updated) updated.id
        (set_product_option_value_columns updated now) (delete_product_option_value now k) k

  -- In a table of product option values whose ids ascend below the next one, a query by id answers the row that is not
  -- archived, or no row; an INSERT adds the new row under the next id, an UPDATE changes the columns under
  -- its id, an archiving removes its id, each for every id; and the ids stay sound.
  pub get_product_option_value-ProductOptionValuesRefine :
      (t : Table ProductOptionValue) (n : ℕ) → IsSound (λ r. r.id) t → ProductOptionValuesRefine t n
  unfolding get_product_option_value create_product_option_value update_product_option_value
      delete_product_option_value
  get_product_option_value-ProductOptionValuesRefine =
      refines (λ r. r.id) (λ r. r.archived_on) product_option_value_schema
        product_option_value_schema inserted_product_option_value_columns ("id" ∷ "created_on" ∷ [])
        updated_product_option_value_columns no_product_option_value not_created (created_at now)
        (inserted_product_option_value now new) (set_product_option_value_columns updated now)
        (archived_product_option_value now) now updated.id k refl refl refl refl (λ n. refl)
        (λ n. refl) (λ r. refl) (λ r. refl) (λ r. refl) (λ r. refl)

module _ (now : Time) (new updated : ProductImage) (k : ℕ) where
  abbrev pub ProductImagesRefine : Table ProductImage → ℕ → Type 0
  ProductImagesRefine =
      Refines (λ r. r.id) (λ r. r.archived_on) get_product_image no_product_image
        (create_product_image now new) (inserted_product_image now new)
        (update_product_image now updated) updated.id (set_product_image_columns updated now)
        (delete_product_image now k) k

  -- In a table of product images whose ids ascend below the next one, a query by id answers the row that is not
  -- archived, or no row; an INSERT adds the new row under the next id, an UPDATE changes the columns under
  -- its id, an archiving removes its id, each for every id; and the ids stay sound.
  pub get_product_image-ProductImagesRefine :
      (t : Table ProductImage) (n : ℕ) → IsSound (λ r. r.id) t → ProductImagesRefine t n
  unfolding get_product_image create_product_image update_product_image delete_product_image
  get_product_image-ProductImagesRefine =
      refines (λ r. r.id) (λ r. r.archived_on) product_image_schema product_image_schema
        inserted_product_image_columns ("id" ∷ "created_on" ∷ []) updated_product_image_columns
        no_product_image not_created (created_at now) (inserted_product_image now new)
        (set_product_image_columns updated now) (archived_product_image now) now updated.id k refl
        refl refl refl (λ n. refl) (λ n. refl) (λ r. refl) (λ r. refl) (λ r. refl) (λ r. refl)

module _ (numeric : Float64 → Float64) (now : Time) (new updated : ProductRoot) (k : ℕ) where
  abbrev pub ProductRootsRefine : Table ProductRoot → ℕ → Type 0
  ProductRootsRefine =
      Refines (λ r. r.id) (λ r. r.archived_on) get_product_root no_product_root
        (create_product_root numeric now new) (inserted_product_root numeric now new)
        (update_product_root numeric now updated) updated.id
        (set_product_root_columns numeric updated now) (delete_product_root now k) k

  -- In a table of product roots whose ids ascend below the next one, a query by id answers the row that is not
  -- archived, or no row; an INSERT adds the new row under the next id, an UPDATE changes the columns under
  -- its id, an archiving removes its id, each for every id; and the ids stay sound.
  pub get_product_root-ProductRootsRefine :
      (t : Table ProductRoot) (n : ℕ) → IsSound (λ r. r.id) t → ProductRootsRefine t n
  unfolding get_product_root create_product_root update_product_root delete_product_root
  get_product_root-ProductRootsRefine =
      refines (λ r. r.id) (λ r. r.archived_on) product_root_schema product_root_schema
        inserted_product_root_columns ("id" ∷ "created_on" ∷ []) updated_product_root_columns
        no_product_root not_created (created_at now) (inserted_product_root numeric now new)
        (set_product_root_columns numeric updated now) (archived_product_root now) now updated.id k
        refl refl refl refl (λ n. refl) (λ n. refl) (λ r. refl) (λ r. refl) (λ r. refl) (λ r. refl)

module _ (numeric : Float64 → Float64) (now : Time) (new updated : Product) (k : ℕ) where
  abbrev pub ProductsRefine : Table Product → ℕ → Type 0
  ProductsRefine =
      Refines (λ r. r.id) (λ r. r.archived_on) get_product no_product
        (create_product numeric now new) (inserted_product numeric now new)
        (update_product numeric now updated) updated.id (set_product_columns numeric updated now)
        (delete_product now k) k

  -- In a table of products whose ids ascend below the next one, a query by id answers the row that is not
  -- archived, or no row; an INSERT adds the new row under the next id and an UPDATE changes the columns under its
  -- id, with the prices, the cost, the weights and the sizes as the numeric columns hold them; an archiving removes
  -- its id, each for every id; and the ids stay sound.
  pub get_product-ProductsRefine :
      (t : Table Product) (n : ℕ) → IsSound (λ r. r.id) t → ProductsRefine t n
  unfolding get_product create_product update_product delete_product
  get_product-ProductsRefine =
      refines (λ r. r.id) (λ r. r.archived_on) product_schema product_schema
        inserted_product_columns ("id" ∷ "created_on" ∷ "available_on" ∷ []) updated_product_columns
        no_product no_created_product
        (λ id. record { id = id; created_on = now; available_on = new.available_on })
        (inserted_product numeric now new) (set_product_columns numeric updated now)
        (archived_product now) now updated.id k refl refl refl refl (λ n. refl) (λ n. refl)
        (λ r. refl) (λ r. refl) (λ r. refl) (λ r. refl)
