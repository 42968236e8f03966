-- ===== src/Api/Products/Images/Dedupe.antt =====
-- Which of the images of a new product are created.
use dairycart.Prelude.{
  String, Bool, Bool-cases, inl, inr, true, false, not, ◌&&◌, ◌≡◌, ◌∙◌, refl, sym, ap, List, [],
  ◌∷◌, map, str_eq, str_eq_iff, str_eq-refl, if◌then◌else◌,
}
use dairycart.Models.Products.{ProductImageCreationInput}
use dairycart.Api.Products.Images.{has, dedupe, images_to_create}

abbrev pub data_of : List ProductImageCreationInput → List String
data_of = map (λ img. img.image_data)

-- No text of the list stands in the rest of it.
abbrev pub IsDistinct : List String → Type 0
IsDistinct [] = Unit
IsDistinct (d ∷ ds) = (has d ds ≡ false) × IsDistinct ds

abbrev Splits : String → List String → List ProductImageCreationInput → Type 0
Splits d seen imgs = has d (data_of (dedupe seen imgs)) ≡ not (has d seen) && has d (data_of imgs)

and-false : (b : Bool) → false ≡ b && false
and-false true = refl
and-false false = refl

skip_lem :
    (e d : String) (seen rest : List String)
    → has e seen ≡ true
    → not (has d seen) && has d rest ≡ not (has d seen) && has d (e ∷ rest)
skip_lem e d seen rest h = by_test (str_eq e d) refl
  where
    by_test :
        (b : Bool)
        → str_eq e d ≡ b
        → not (has d seen) && has d rest ≡ not (has d seen) && has d (e ∷ rest)
    by_test false p = rw p refl
    by_test true p = rw (p, sym ((str_eq_iff e d).0 p), h) refl

keep_lem :
    (e d : String) (seen rest : List String)
    → has e seen ≡ false
    → (if str_eq e d then true else not (has d (e ∷ seen)) && has d rest)
      ≡ not (has d seen) && has d (e ∷ rest)
keep_lem e d seen rest h = by_test (str_eq e d) refl
  where
    by_test :
        (b : Bool)
        → str_eq e d ≡ b
        → (if str_eq e d then true else not (has d (e ∷ seen)) && has d rest)
          ≡ not (has d seen) && has d (e ∷ rest)
    by_test false p = rw p refl
    by_test true p = rw (p, sym ((str_eq_iff e d).0 p), h) refl

dedupe-Splits :
    (d : String) (seen : List String) (imgs : List ProductImageCreationInput) → Splits d seen imgs
unfolding dedupe
dedupe-Splits d seen [] = and-false _
dedupe-Splits d seen (img ∷ imgs) = elim (Bool-cases (has img.image_data seen)) [
  | inl h ↦ rw h (dedupe-Splits d seen imgs ∙ skip_lem img.image_data d seen (data_of imgs) h)
  | inr h ↦ rw h (
      ap (λ c. if str_eq img.image_data d then true else c)
        (dedupe-Splits d (img.image_data ∷ seen) imgs)
      ∙ keep_lem img.image_data d seen (data_of imgs) h)
]

dedupe-IsDistinct :
    (seen : List String) (imgs : List ProductImageCreationInput)
    → IsDistinct (data_of (dedupe seen imgs))
unfolding dedupe
dedupe-IsDistinct seen [] = tt
dedupe-IsDistinct seen (img ∷ imgs) = elim (Bool-cases (has img.image_data seen)) [
  | inl h ↦ rw h (dedupe-IsDistinct seen imgs)
  | inr h ↦ rw h (
    dedupe-Splits img.image_data (img.image_data ∷ seen) imgs
        ∙ rw (str_eq-refl img.image_data) refl,
    dedupe-IsDistinct (img.image_data ∷ seen) imgs,
  )
]

-- Of the images of a new product one is created for each image data that the input has, and no two
-- are created with the same data.
pub images_to_create_lem :
    (images : List ProductImageCreationInput) (d : String)
    → IsDistinct (data_of (images_to_create images))
      × (has d (data_of (images_to_create images)) ≡ has d (data_of images))
unfolding images_to_create
images_to_create_lem images d = (dedupe-IsDistinct [] images, dedupe-Splits d [] images)
