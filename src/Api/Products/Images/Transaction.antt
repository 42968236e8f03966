-- ===== src/Api/Products/Images/Transaction.antt =====
-- Creating the images of a product changes only the transaction.
use dairycart.Prelude.{ℕ, ◌+◌, String, List, [], ◌∷◌, Option, none, some}
use dairycart.Models.Products.{ProductImage, ProductImageCreationInput}
use dairycart.Storage.Answers.{Answer}
use dairycart.Storage.Storer.{Storer}
use dairycart.Http.Handler.{Handler}
use dairycart.Api.Transactions.{TxOnly, TxOnly-succeed, TxOnly-exec_tx, TxOnly-or_fail, TxOnly-bind}
use dairycart.Images.{ProductImageLocations}
use dairycart.Api.Products.Images.{
  Imaging, CreatedImages, with_locations, create_images, handle_product_creation_images,
  images_to_create, no_images,
}

module _ {I D : Type 0} (s : Storer D) (imaging : Imaging I) (sku : String) (root_id : ℕ) where
  with_locations-TxOnly :
      (at : Option ProductImageLocations) (input : ProductImageCreationInput)
      (rest : ProductImage → Handler D (Answer CreatedImages))
      → ((img : ProductImage) → TxOnly (rest img))
      → TxOnly (with_locations s imaging sku root_id at input rest)
  unfolding with_locations
  with_locations-TxOnly none input rest h = TxOnly-succeed _
  with_locations-TxOnly (some at) input rest h =
      TxOnly-bind _ _ (TxOnly-exec_tx _) λ c. TxOnly-or_fail _ _ _ (h _)

  create_images-TxOnly :
      (i : ℕ) (inputs : List ProductImageCreationInput) (out : CreatedImages)
      → TxOnly (create_images s imaging sku root_id i inputs out)
  unfolding create_images
  create_images-TxOnly i [] out = TxOnly-succeed out
  create_images-TxOnly i (input ∷ inputs) out = TxOnly-or_fail _ _ _ (
      TxOnly-or_fail _ _ _
        (with_locations-TxOnly _ input _ λ img. create_images-TxOnly (i + 1) inputs _))

  pub handle_images-TxOnly :
      (images : List ProductImageCreationInput)
      → TxOnly (handle_product_creation_images s imaging sku root_id images)
  unfolding handle_product_creation_images
  handle_images-TxOnly images = create_images-TxOnly 0 (images_to_create images) no_images
