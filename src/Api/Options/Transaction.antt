-- ===== src/Api/Options/Transaction.antt =====
-- Creating an option with its values changes only the transaction.
use dairycart.Prelude.{ℕ, String, List, [], ◌∷◌}
use dairycart.Models.Options.{ProductOptionValue, ProductOptionCreationInput}
use dairycart.Storage.Storer.{Storer}
use dairycart.Api.Transactions.{TxOnly, TxOnly-succeed, TxOnly-exec_tx, TxOnly-or_fail, TxOnly-bind}
use dairycart.Api.Options.{create_values, create_product_option_and_values_in_db_from_input}

module _ {D : Type 0} (s : Storer D) where
  create_values-TxOnly :
      (option_id : ℕ) (vs : List String) (out : List ProductOptionValue)
      → TxOnly (create_values s option_id vs out)
  unfolding create_values
  create_values-TxOnly option_id [] out = TxOnly-succeed out
  create_values-TxOnly option_id (v ∷ vs) out =
      TxOnly-bind _ _ (TxOnly-exec_tx _)
        λ c. TxOnly-or_fail _ _ _ (create_values-TxOnly option_id vs _)

  pub create_option-TxOnly :
      (input : ProductOptionCreationInput) (root_id : ℕ)
      → TxOnly (create_product_option_and_values_in_db_from_input s input root_id)
  unfolding create_product_option_and_values_in_db_from_input
  create_option-TxOnly input root_id = TxOnly-bind _ _ (TxOnly-exec_tx _) λ c.
      TxOnly-or_fail _ _ _ (
        TxOnly-bind _ _ (create_values-TxOnly c.value.id input.values [])
          λ v. TxOnly-or_fail _ _ _ (TxOnly-succeed _))
