-- ===== src/Api/Products/Images.antt =====
-- api/v1/product_images.go: the images of a new product.
pub mod Transaction
pub mod Dedupe
use dairycart.Prelude.{
  ℕ, ◌+◌, String, Bool, true, false, not, ◌&&◌, List, [], ◌∷◌, ◌++◌, Option, none, some, str_eq,
  if◌then◌else◌,
}
use dairycart.Models.Products.{ProductImage, ProductImageCreationInput}
use dairycart.Storage.Answers.{Err, nil, failed, is_err, Answer, Created}
use dairycart.Storage.Storer.{Storer}
use dairycart.Images.{ProductImageLocations}
use dairycart.Http.Handler.{Handler, pure, ◌>>=◌, exec_tx, or_fail, succeed}

-- `image.Decode` of a byte stream: the image, its format and the error.
pub record Decoded (I : Type 0) : Type 0 where
  pub image : I
  pub format : String
  pub err : Err

-- What the handler calls outside of this file: the decoders, the HTTP client, `strings`, and the image
-- storer (`CreateThumbnails`, then `StoreImages` with the sku and the index). `nil_image` is the nil
-- interface of type `image.Image`.
pub record Imaging (I : Type 0) : Type 0 where
  pub to_lower : String → String
  pub has_suffix : String → String → Bool
  pub decode_base64 : String → Decoded I
  pub http_get : String → Answer (Decoded I)
  pub nil_image : I
  pub store_images : I → String → ℕ → Answer (Option ProductImageLocations)

-- createdImages: the first image of each `Data` is kept.
abbrev pub has : String → List String → Bool
has d [] = false
has d (e ∷ es) = if str_eq e d then true else has d es

unfoldable pub dedupe :
    List String → List ProductImageCreationInput → List ProductImageCreationInput
dedupe seen [] = []
dedupe seen (img ∷ imgs) =
    let skipped = dedupe seen imgs in
    let kept = img ∷ dedupe (img.image_data ∷ seen) imgs in
    if has img.image_data seen then skipped else kept

-- imagesToCreate
unfoldable pub images_to_create : List ProductImageCreationInput → List ProductImageCreationInput
unfolding dedupe
images_to_create = dedupe []

unfoldable pub load_image : {I : Type 0} → I → Decoded I → Answer I
load_image nil_image d =
    if is_err d.err
    then record { value = nil_image; err = failed "error decoding image" }
    else if not (str_eq d.format "png")
    then record { value = nil_image; err = failed "only pngs are accepted" }
    else record { value = d.image; err = nil }

module _ {I : Type 0} (imaging : Imaging I) where
  load_fetched : Answer (Decoded I) → Answer I
  unfolding load_image
  load_fetched got =
      if is_err got.err
      then record { value = imaging.nil_image; err = got.err }
      else load_image imaging.nil_image got.value

  -- The `switch imageType`. An image of another type stays nil.
  unfoldable pub read_image : ProductImageCreationInput → Answer I
  unfolding load_image load_fetched
  read_image input =
      let image_type = imaging.to_lower input.image_type in
      if str_eq image_type "base64"
      then load_image imaging.nil_image (imaging.decode_base64 input.image_data)
      else if str_eq image_type "url"
      then (if not (imaging.has_suffix input.image_data "png")
          then record { value = imaging.nil_image; err = failed "only PNG images are supported" }
          else load_fetched (imaging.http_get input.image_data))
      else record { value = imaging.nil_image; err = nil }

-- The images that were created and the id of the primary one.
pub record CreatedImages : Type 0 where
  pub images : List ProductImage
  pub primary : Option ℕ

abbrev pub no_images : CreatedImages
no_images = record { images = []; primary = none }

-- if imageInput.IsPrimary && primaryImageID == nil
abbrev choose_primary : Bool → Option ℕ → ℕ → Option ℕ
choose_primary true none id = some id
choose_primary true (some j) id = some j
choose_primary false primary id = primary

module _ {I D : Type 0} (s : Storer D) (imaging : Imaging I) (sku : String) (root_id : ℕ) where
  new_image : ProductImageCreationInput → ProductImageLocations → ProductImage
  new_image input at = record {
    id = 0;
    product_root_id = root_id;
    thumbnail_url = at.thumbnail;
    main_url = at.main;
    original_url = at.original;
    source_url = if str_eq (imaging.to_lower input.image_type) "url" then input.image_data else "";
    created_on = 0;
    updated_on = none;
    archived_on = none;
  }

  -- One image in the database, and then the rest of the loop; with no locations and no error the
  -- function returns at once, with no images and no error.
  with_locations :
      Option ProductImageLocations
      → ProductImageCreationInput
      → (ProductImage → Handler D (Answer CreatedImages))
      → Handler D (Answer CreatedImages)
  unfolding new_image
  with_locations none input rest = succeed no_images
  with_locations (some at) input rest = do
    let img = new_image input at
    created ← exec_tx (s.create_product_image img)
    or_fail created.err no_images
        (rest (record img { id = created.value.id; created_on = created.value.created_on }))

  create_images :
      ℕ → List ProductImageCreationInput → CreatedImages → Handler D (Answer CreatedImages)
  unfolding with_locations
  create_images i [] out = succeed out
  create_images i (input ∷ inputs) out =
      let loaded = read_image imaging input in
      let stored = imaging.store_images loaded.value sku i in
      or_fail loaded.err no_images (
        or_fail stored.err no_images (
          with_locations stored.value input λ img. create_images (i + 1) inputs (record {
            images = out.images ++ img ∷ [];
            primary = choose_primary input.is_primary out.primary img.id;
          })))

  unfoldable pub handle_product_creation_images :
      List ProductImageCreationInput → Handler D (Answer CreatedImages)
  unfolding create_images
  handle_product_creation_images images = create_images 0 (images_to_create images) no_images
