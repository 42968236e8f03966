-- ===== src/Api/Products/Creation.antt =====
-- `buildProductCreationHandler` of api/v1/products.go and `createProductsInDBFromOptions`.
pub mod Transaction
pub mod Safe
use dairycart.Prelude.{
  ℕ, ◌<◌, max, String, Bool, true, false, not, ◌||◌, List, [], ◌∷◌, ◌++◌, map, Option, none, some,
  concat, if◌then◌else◌,
}
use dairycart.Models.Basics.{Time}
use dairycart.Models.Options.{ProductOption, ProductOptionValue, ProductOptionCreationInput}
use dairycart.Models.Products.{Product, ProductImage, ProductCreationInput}
use dairycart.Models.Roots.{ProductRoot}
use dairycart.Storage.Answers.{Answer, Err, nil, is_err}
use dairycart.Storage.Storer.{Storer, CreatedProduct}
use dairycart.Http.Messages.{product_root}
use dairycart.Http.Handler.{
  Handler, pure, panic, ◌>>=◌, ◌>>◌, query_db, exec_tx, begin, commit, write_header, encode,
  when_return, start_hooks, or_fail, succeed,
}
use dairycart.Api.Respond.{
  validate_request_input, notify_of_invalid_request_body, check_body, check_internal, check_tx,
  check_internal_rows,
}
use dairycart.Api.Inputs.{
  new_product_from_creation_input, create_product_root_from_product, restricted_string_is_valid,
}
use dairycart.Api.Options.{create_product_option_and_values_in_db_from_input}
use dairycart.Api.Variants.Odometer.{Run, out_of_fuel, panicked, finished}
use dairycart.Api.Variants.Build.{build_products_from_options}
use dairycart.Api.Products.Images.{Imaging, CreatedImages, handle_product_creation_images}
use dairycart.Api.Products.Handlers.{hook_calls}

abbrev kept : Product → CreatedProduct → Product
kept p c = record p { id = c.id; created_on = c.created_on; available_on = c.available_on }

-- newProduct.AvailableOn, when the input has none
abbrev available_or_now : Time → Option Time → Time → Time
available_or_now now none t = now
available_or_now now (some _) t = t

module _ {D : Type 0} (s : Storer D) where
  -- The loop over `productsToCreate`.
  create_products : ℕ → List Product → List Product → Handler D (Answer (List Product))
  create_products root_id [] out = succeed out
  create_products root_id (p ∷ ps) out = do
    let variant = record p { product_root_id = root_id }
    created ← exec_tx (s.create_product variant)
    or_fail created.err [] do
      let new = kept variant created.value
      bridged ← exec_tx (
          s.create_multiple_product_variant_bridges_for_product_id new.id
            (map (λ o. o.id) new.applicable_option_values))
      or_fail bridged.err [] (create_products root_id ps (out ++ new ∷ []))

  -- A run of the loop that ended; the end of its fuel counts as a panic.
  create_built : ℕ → Run (List Product) → Handler D (Answer (List Product))
  unfolding create_products
  create_built root_id (finished ps) = create_products root_id ps []
  create_built root_id panicked = panic
  create_built root_id out_of_fuel = panic

  unfoldable pub create_products_in_db_from_options :
      (String → String)
      → ℕ
      → ProductCreationInput
      → List ProductOption
      → Handler D (Answer (List Product))
  unfolding create_built
  create_products_in_db_from_options to_lower root_id input options =
      create_built root_id (build_products_from_options to_lower input options)

  -- The loop over `productInput.Options`, which rolls back and responds on an error.
  create_options :
      ℕ → List ProductOptionCreationInput → List ProductOption → Handler D (List ProductOption)
  create_options root_id [] out = pure out
  create_options root_id (o ∷ os) out = do
    created ← create_product_option_and_values_in_db_from_input s o root_id
    check_tx created.err
    create_options root_id os (out ++ created.value ∷ [])

  -- The primary image of a product with no options: the chosen one, or else the first.
  abbrev primary_or_first : Option ℕ → List ProductImage → Option ℕ
  primary_or_first (some id) images = some id
  primary_or_first none [] = none
  primary_or_first none (img ∷ images) = some img.id

  set_primary : ℕ → List ProductImage → Option ℕ → Handler D (Unit {0})
  set_primary product_id [] primary = pure tt
  set_primary product_id (img ∷ images) none = panic
  set_primary product_id (img ∷ images) (some id) = do
    set ← exec_tx (s.set_primary_product_image_for_product product_id id)
    check_tx set.err

  -- The branch for `len(productInput.Options) == 0`.
  create_single : Product → ProductRoot → Handler D ProductRoot
  unfolding set_primary
  create_single new root = do
    let owned = record new { product_root_id = root.id }
    created ← exec_tx (s.create_product owned)
    check_tx created.err
    let primary = primary_or_first root.primary_image_id root.images
    let complete = kept owned created.value
    let shown = record complete { primary_image_id = primary }
    set_primary shown.id root.images primary
    pure (record root { primary_image_id = primary; products = shown ∷ [] })

  -- The other branch.
  create_variants : (String → String) → ProductCreationInput → ProductRoot → Handler D ProductRoot
  unfolding create_options
  create_variants to_lower input root = do
    options ← create_options root.id input.options []
    products ← create_products_in_db_from_options to_lower root.id input options
    check_tx products.err
    pure (record root { options = options; products = products.value })

  unfoldable pub create_rows :
      (String → String)
      → ProductCreationInput
      → List ProductOptionCreationInput
      → Product
      → ProductRoot
      → Handler D ProductRoot
  unfolding create_single create_variants
  create_rows to_lower input [] new root = create_single new root
  create_rows to_lower input (o ∷ os) new root = create_variants to_lower input root

  module _ {I : Type 0} (imaging : Imaging I) (is_zero : ProductCreationInput → Bool)
      (now : Time) where
    -- newProduct, with its quantity per package and its date.
    unfoldable pub new_product : ProductCreationInput → Product
    new_product input =
        let plain = new_product_from_creation_input input in
        record plain {
          quantity_per_package = max plain.quantity_per_package 1;
          available_on = available_or_now now input.available_on plain.available_on;
        }

    unfoldable pub product_creation : Answer ProductCreationInput → Handler D (Unit {0})
    unfolding create_rows new_product
    product_creation body = do
      check_body (validate_request_input is_zero body)
      let input = body.value
      when_return (not (restricted_string_is_valid input.sku)) (
          notify_of_invalid_request_body
            (concat ("the sku received (" ∷ input.sku ∷ ") is invalid" ∷ [])))
      let new = new_product input
      known ← query_db (s.product_root_with_sku_prefix_exists input.sku)
      when_return (is_err known.err || known.value) (
          notify_of_invalid_request_body
            (concat ("product with sku '" ∷ input.sku ∷ "' already exists" ∷ [])))
      started ← begin s
      check_internal started
      let plain_root = create_product_root_from_product new
      created ← exec_tx (s.create_product_root plain_root)
      check_tx created.err
      pictures ← handle_product_creation_images s imaging input.sku created.value.id input.images
      check_tx pictures.err
      let root = record plain_root {
        id = created.value.id;
        created_on = created.value.created_on;
        images = pictures.value.images;
        primary_image_id = pictures.value.primary;
      }
      complete ← create_rows imaging.to_lower input input.options new root
      done ← commit s
      check_internal done
      hooks ← query_db (s.get_webhooks_by_event_type "product_created")
      check_internal_rows hooks.err
      start_hooks (hook_calls hooks.value (product_root complete))
      write_header 201
      encode (product_root complete)
