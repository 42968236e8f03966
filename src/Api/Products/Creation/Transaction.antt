-- ===== src/Api/Products/Creation/Transaction.antt =====
-- Creating the rows of a product changes only the transaction, or rolls it back.
use dairycart.Prelude.{ℕ, String, List, [], ◌∷◌, Option, none, some}
use dairycart.Models.Options.{ProductOption, ProductOptionCreationInput}
use dairycart.Models.Products.{Product, ProductImage, ProductCreationInput}
use dairycart.Models.Roots.{ProductRoot}
use dairycart.Storage.Storer.{Storer}
use dairycart.Api.Variants.Odometer.{Run, out_of_fuel, panicked, finished}
use dairycart.Api.Transactions.{
  TxOnly, TxOnly-succeed, TxOnly-panic, TxOnly-exec_tx, TxOnly-or_fail, TxOnly-bind, TxOrStop,
  TxOrStop-of_TxOnly, TxOrStop-bind, TxOrStop-pure, TxOrStop-check_tx,
}
use dairycart.Api.Options.Transaction.{create_option-TxOnly}
use dairycart.Api.Products.Creation.{
  create_products, create_built, create_products_in_db_from_options, create_options, set_primary,
  create_single, create_variants, create_rows,
}

module _ {D : Type 0} (s : Storer D) where
  create_products-TxOnly :
      (root_id : ℕ) (ps out : List Product) → TxOnly (create_products s root_id ps out)
  unfolding create_products
  create_products-TxOnly root_id [] out = TxOnly-succeed out
  create_products-TxOnly root_id (p ∷ ps) out = TxOnly-bind _ _ (TxOnly-exec_tx _) λ c.
      TxOnly-or_fail _ _ _ (
        TxOnly-bind _ _ (TxOnly-exec_tx _)
          λ b. TxOnly-or_fail _ _ _ (create_products-TxOnly root_id ps _))

  create_built-TxOnly : (root_id : ℕ) (r : Run (List Product)) → TxOnly (create_built s root_id r)
  unfolding create_built
  create_built-TxOnly root_id (finished ps) = create_products-TxOnly root_id ps []
  create_built-TxOnly root_id panicked = TxOnly-panic
  create_built-TxOnly root_id out_of_fuel = TxOnly-panic

  create_from_options-TxOnly :
      (to_lower : String → String) (root_id : ℕ) (input : ProductCreationInput)
      (options : List ProductOption)
      → TxOnly (create_products_in_db_from_options s to_lower root_id input options)
  unfolding create_products_in_db_from_options
  create_from_options-TxOnly to_lower root_id input options = create_built-TxOnly root_id _

  create_options-TxOrStop :
      (root_id : ℕ) (os : List ProductOptionCreationInput) (out : List ProductOption)
      → TxOrStop (create_options s root_id os out)
  unfolding create_options
  create_options-TxOrStop root_id [] out = TxOrStop-pure out
  create_options-TxOrStop root_id (o ∷ os) out =
      TxOrStop-bind _ _ (TxOrStop-of_TxOnly _ (create_option-TxOnly s o root_id))
        λ c. TxOrStop-bind _ _ (TxOrStop-check_tx c.err) λ _. create_options-TxOrStop root_id os _

  set_primary-TxOrStop :
      (product_id : ℕ) (images : List ProductImage) (primary : Option ℕ)
      → TxOrStop (set_primary s product_id images primary)
  unfolding set_primary
  set_primary-TxOrStop product_id [] primary = TxOrStop-pure tt
  set_primary-TxOrStop product_id (img ∷ images) none = TxOrStop-of_TxOnly _ TxOnly-panic
  set_primary-TxOrStop product_id (img ∷ images) (some id) =
      TxOrStop-bind _ _ (TxOrStop-of_TxOnly _ (TxOnly-exec_tx _)) λ r. TxOrStop-check_tx r.err

  create_single-TxOrStop :
      (new : Product) (root : ProductRoot) → TxOrStop (create_single s new root)
  unfolding create_single
  create_single-TxOrStop new root = TxOrStop-bind _ _ (TxOrStop-of_TxOnly _ (TxOnly-exec_tx _)) λ c.
      TxOrStop-bind _ _ (TxOrStop-check_tx c.err)
        λ _. TxOrStop-bind _ _ (set_primary-TxOrStop _ root.images _) λ _. TxOrStop-pure _

  create_variants-TxOrStop :
      (to_lower : String → String) (input : ProductCreationInput) (root : ProductRoot)
      → TxOrStop (create_variants s to_lower input root)
  unfolding create_variants
  create_variants-TxOrStop to_lower input root =
      TxOrStop-bind _ _ (create_options-TxOrStop root.id input.options []) λ os.
        TxOrStop-bind _ _
          (TxOrStop-of_TxOnly _ (create_from_options-TxOnly to_lower root.id input os))
          λ ps. TxOrStop-bind _ _ (TxOrStop-check_tx ps.err) λ _. TxOrStop-pure _

  pub create_rows-TxOrStop :
      (to_lower : String → String) (input : ProductCreationInput)
      (os : List ProductOptionCreationInput) (new : Product) (root : ProductRoot)
      → TxOrStop (create_rows s to_lower input os new root)
  unfolding create_rows
  create_rows-TxOrStop to_lower input [] new root = create_single-TxOrStop new root
  create_rows-TxOrStop to_lower input (o ∷ os) new root =
      create_variants-TxOrStop to_lower input root
