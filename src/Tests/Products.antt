-- ===== src/Tests/Products.antt =====
-- Products, their options and images, and product roots.
use dairycart.Prelude.{
  ℕ, true, false, ◌≡◌, ◌≢◌, refl, some, none, List, [], ◌∷◌, map, if◌then◌else◌, arith, ◌==◌,
}
use dairycart.Models.Products.{Product}
use dairycart.Storage.Answers.{nil, failed}
use dairycart.Storage.Storer.{Storer}
use dairycart.Http.Messages.{product}
use dairycart.Http.Handler.{fresh}
use dairycart.Api.Rules.{Verdict, IsRefused, IsCommitted}
use dairycart.Api.Variants.Odometer.{finished, panicked}
use dairycart.Api.Variants.Product.{product as rows_of}
use dairycart.Api.Variants.Build.{option_data, variant, build_products_from_options}
use dairycart.Api.Variants.Correct.{build_products-product, build_products_panics}
use dairycart.Api.Products.Images.{Imaging, has, images_to_create}
use dairycart.Api.Products.Images.Dedupe.{IsDistinct, data_of, images_to_create_lem}
use dairycart.Api.Products.Creation.{product_creation}
use dairycart.Api.Products.Creation.Safe.{IsSafe, product_creation-IsSafe}
use dairycart.Api.Products.Handlers.{hook_calls, product_deletion, product_update}
use dairycart.Api.Products.Atomic.{deletion_succeeds, archived_product, product_deletion_atomic}
use dairycart.Api.Products.Update.{IsProductUpdate, product_update-id}
use dairycart.Api.Roots.{root_deletion, root_list}
use dairycart.Api.Roots.Atomic.{root_deletion_succeeds, root_deletion_atomic, IsArchived}
use dairycart.Api.Roots.Reading.{IsRootList, root_list-unattached}
use dairycart.Api.OptionValues.{option_value_creation}
use dairycart.Api.OptionValues.Creation.{IsValueCreation, option_value_creation_safe}
use dairycart.Api.Options.{option_creation, option_deletion}
use dairycart.Api.Options.Creation.{IsOptionCreation, option_creation_safe}
use dairycart.Api.Options.Leak.{
  option_deletion_succeeds, option_deletion_committed, option_deletion_leaks,
}
use dairycart.Tests.Data.{
  red, cap, cap_input, color, size, bare, hook, color_input, picture, second_page, good, store,
}

abbrev toy_imaging : Imaging ℕ
toy_imaging = record {
  to_lower = λ t. t;
  has_suffix = λ t u. true;
  decode_base64 = λ t. record { image = 1; format = "png"; err = nil };
  http_get = λ t. good (record { image = 1; format = "png"; err = nil });
  nil_image = 0;
  store_images = λ img sku i. good (some (record { thumbnail = "t"; main = "m"; original = "o" }));
}

product_creation-IsSafe_example :
    IsSafe store toy_imaging
      (λ i. false)
      300
      cap_input
      5
      (product_creation store toy_imaging (λ i. false) 300 (good cap_input) (fresh 5))
product_creation-IsSafe_example =
    product_creation-IsSafe store toy_imaging (λ i. false) 300 (good cap_input) 5

product_deletion_atomic_example :
    let w = (product_deletion store "cap" (fresh 5)).1 in
    Verdict
      (deletion_succeeds store "cap" 5)
      (IsCommitted 7 nil 200 (hook_calls (hook ∷ []) (product (archived_product store "cap" 5))) w)
      (IsRefused 5 w)
product_deletion_atomic_example = product_deletion_atomic store "cap" 5

root_deletion_atomic_example :
    let w = (root_deletion store "3" (fresh 5)).1 in
    Verdict (root_deletion_succeeds store "3" 5) (IsArchived store "3" 5 w) (IsRefused 5 w)
root_deletion_atomic_example = root_deletion_atomic store "3" 5

abbrev merge_products : Product → Product → Product
merge_products u v = record u { id = if u.id == 0 then v.id else u.id }

product_update-id_example :
    let (flow, w) = product_update store (λ p. false) merge_products "cap" (good cap) (fresh 5) in
    IsProductUpdate store merge_products "cap" cap 5 w
product_update-id_example =
    product_update-id store merge_products (record { merged_id = λ u v. refl }) (λ p. false) "cap"
      (good cap) 5

images_to_create_lem_example :
    IsDistinct (data_of (images_to_create (picture ∷ picture ∷ [])))
    × (has "abc" (data_of (images_to_create (picture ∷ picture ∷ [])))
        ≡ has "abc" (data_of (picture ∷ picture ∷ [])))
images_to_create_lem_example = images_to_create_lem (picture ∷ picture ∷ []) "abc"

build_products-product_example :
    build_products_from_options (λ t. t) cap_input (color ∷ size ∷ [])
    ≡ finished (map (variant (λ t. t) cap_input) (rows_of (option_data (color ∷ size ∷ []))))
build_products-product_example =
    build_products-product (λ t. t) cap_input color (size ∷ []) (omega arith, tt)

build_products_panics_example :
    build_products_from_options (λ t. t) cap_input (color ∷ bare ∷ []) ≡ panicked
build_products_panics_example =
    build_products_panics (λ t. t) cap_input color (bare ∷ []) (omega arith)
      (λ h. let (p, _) = h in omega arith)

abbrev variants : List Product
variants = map (variant (λ t. t) cap_input) (rows_of (option_data (color ∷ size ∷ [])))

root_list-unattached_example :
    let (flow, w) = root_list store second_page (fresh 5) in IsRootList store second_page 5 w
root_list-unattached_example = root_list-unattached store second_page 5

option_creation_safe_example :
    let (flow, w) = option_creation store (λ i. false) "3" (good color_input) (fresh 5) in
    IsOptionCreation store "3" color_input 5 w
option_creation_safe_example = option_creation_safe store (λ i. false) "3" (good color_input) 5

option_deletion_committed_example :
    let w = (option_deletion store "5" (fresh 5)).1 in
    Verdict
      (option_deletion_succeeds store "5" 5)
      ((w.db ≡ 7) × (w.tx ≡ none) × (w.status ≡ some 200))
      ((w.db ≡ 5) × (w.status ≡ some 500))
option_deletion_committed_example = option_deletion_committed store "5" 5

abbrev optional_store : Storer ℕ
optional_store = let s = store in record s { product_option_exists = λ id d. good true }

option_value_creation_safe_example :
    let (flow, w) =
      option_value_creation optional_store (λ v. false) (λ v. v.value) "5" (good red) (fresh 5) in
    IsValueCreation optional_store "5" red 5 w
option_value_creation_safe_example =
    option_value_creation_safe optional_store (λ v. false) (λ v. v.value) "5" (good red) 5

-- A store whose archiving of option values fails.
abbrev broken_store : Storer ℕ
broken_store =
    let s = store in
    record s {
      archive_product_option_values_for_option =
          λ id d. (record { value = 0; err = failed "connection lost" }, d);
    }

option_deletion_leaks_example :
    let w = (option_deletion broken_store "5" (fresh 5)).1 in (w.status ≡ some 500) × (w.tx ≢ none)
option_deletion_leaks_example = option_deletion_leaks broken_store "5" 5 refl refl refl
