-- ===== src/Images/Local/Stored.antt =====
-- Where the images of a product are after `StoreImages`.
use text.Mathlib.TextLemmas.{append_cancel_left}
use dairycart.Prelude.{
  ℕ, String, ◌≡◌, ◌≢◌, refl, ◌∙◌, Bool, true, false, Bool-cases, ◌⊎◌, inl, inr, Option, some,
  if◌then◌else◌,
}
use dairycart.Storage.Answers.{Err, nil, no_rows, failed, is_err}
use dairycart.Api.Rules.{is_err-false}
use dairycart.Images.{ProductImageSet, ProductImageLocations}
use dairycart.Images.Local.{
  LocalImageStorer, Disk, save_image, photo_dir, thumbnail_path, main_path, original_path, location,
  Locations, keep_original, keep_main, keep_thumbnail, in_photo_dir, store_images,
}

-- What the code relies on: `read` is what is at a path of the disk. An image that is encoded without an
-- error is at its path, and neither creating nor encoding a file changes another one.
pub record IsDisk {I F : Type 0} (d : Disk I F) (read : String → F → Option I) : Type 0 where
  pub encodes :
      (img : I) (path : String) (f : F)
      → (d.encode img path f).0 ≡ nil
      → read path (d.encode img path f).1 ≡ some img
  pub encodes_only :
      (img : I) (path other : String) (f : F)
      → path ≢ other
      → read other (d.encode img path f).1 ≡ read other f
  pub creates_only :
      (path other : String) (f : F) → path ≢ other → read other (d.create path f).1 ≡ read other f

module _ {I F : Type 0} (d : Disk I F) (read : String → F → Option I) (law : IsDisk d read) where
  -- The file at `path` is saved, and the others are as they were.
  abbrev pub IsSaved : I → String → F → Err × F → Type 0
  IsSaved img path f r =
      (is_err r.0 ≡ true)
      ⊎ (r.0 ≡ nil)
        × (read path r.1 ≡ some img)
        × ((other : String) → path ≢ other → read other r.1 ≡ read other f)

  save_image-IsSaved :
      (img : I) (path : String) (f : F) → IsSaved img path f (save_image d img path f)
  unfolding save_image
  save_image-IsSaved img path f = elim (Bool-cases (is_err (d.create path f).0)) [
    | inl bad ↦ rw bad (inl refl)
    | inr good ↦ elim (Bool-cases (is_err (d.encode img path (d.create path f).1).0)) [
      | inl worse ↦ rw good (inl worse)
      | inr fine ↦ rw good (
          inr (
            is_err-false _ fine,
            law.encodes img path _ (is_err-false _ fine),
            λ other differs.
                law.encodes_only img path other _ differs ∙ law.creates_only path other f differs,
          ))
    ]
  ]

thumbnail_apart : (dir : String) → main_path dir ≢ thumbnail_path dir
thumbnail_apart dir e = let ends = append_cancel_left dir "/main.png" "/thumbnail.png" e in cc

original_thumbnail : (dir : String) → original_path dir ≢ thumbnail_path dir
original_thumbnail dir e =
    let ends = append_cancel_left dir "/original.png" "/thumbnail.png" e in cc

original_main : (dir : String) → original_path dir ≢ main_path dir
original_main dir e = let ends = append_cancel_left dir "/original.png" "/main.png" e in cc

module _ {I F : Type 0} (d : Disk I F) where
  -- No call of the disk answers an error.
  abbrev pub NeverFails : Type 0
  NeverFails =
      ((path : String) (f : F) → (d.mkdir_all path f).0 ≡ nil)
      × ((path : String) (f : F) → (d.create path f).0 ≡ nil)
      × ((img : I) (path : String) (f : F) → (d.encode img path f).0 ≡ nil)

  module _ (never : NeverFails) (s : LocalImageStorer) where
    saves : (img : I) (path : String) (f : F) → (save_image d img path f).0 ≡ nil
    unfolding save_image
    saves img path f = rw (never.1 path f) (never.2 img path _)

    keeps_main :
        (dir : String) (set : ProductImageSet I) (out : ProductImageLocations) (r : Err × F)
        → r.0 ≡ nil
        → (keep_main d s dir set out r).0.err ≡ nil
    keeps_main dir set out (e, f) ok = rw ok (saves set.original (original_path dir) f)

    keeps_thumbnail :
        (dir : String) (set : ProductImageSet I) (r : Err × F)
        → r.0 ≡ nil
        → (keep_thumbnail d s dir set r).0.err ≡ nil
    keeps_thumbnail dir set (e, f) ok = rw ok (
        keeps_main dir set
          (record { thumbnail = location s (thumbnail_path dir); main = ""; original = "" })
          (save_image d set.main (main_path dir) f) (saves set.main (main_path dir) f))

    keeps_all :
        (dir : String) (set : ProductImageSet I) (r : Err × F)
        → r.0 ≡ nil
        → (in_photo_dir d s dir set r).0.err ≡ nil
    keeps_all dir set (e, f) ok = rw ok (
        keeps_thumbnail dir set (save_image d set.thumbnail (thumbnail_path dir) f)
          (saves set.thumbnail (thumbnail_path dir) f))

    stores :
        (set : ProductImageSet I) (sku : String) (id : ℕ) (f : F)
        → (store_images d s set sku id f).0.err ≡ nil
    unfolding store_images
    stores set sku id f =
        keeps_all dir set (made (d.is_missing dir f)) (is_made (d.is_missing dir f))
      where
        dir : String
        dir = photo_dir s sku id

        made : Bool → Err × F
        made missing = if missing then d.mkdir_all dir f else (nil, f)

        is_made : (missing : Bool) → (made missing).0 ≡ nil
        is_made true = never.0 dir f
        is_made false = refl

module _ {I F : Type 0} (d : Disk I F) (read : String → F → Option I) (law : IsDisk d read)
    (s : LocalImageStorer) where
  -- Each image is in a file of its own, and its location is the base URL with the path of the file.
  abbrev pub AreFiles : String → ProductImageSet I → Locations F → Type 0
  AreFiles dir set (a, f) =
      (a.err ≡ nil)
      × (a.value
          ≡ some (record {
            thumbnail = location s (thumbnail_path dir);
            main = location s (main_path dir);
            original = location s (original_path dir);
          }))
      × (read (thumbnail_path dir) f ≡ some set.thumbnail)
      × (read (main_path dir) f ≡ some set.main)
      × (read (original_path dir) f ≡ some set.original)

  abbrev AreStored : String → ProductImageSet I → Locations F → Type 0
  AreStored dir set r = (is_err r.0.err ≡ true) ⊎ AreFiles dir set r

  keep_original-AreStored :
      (dir : String) (set : ProductImageSet I) (f : F) (r : Err × F)
      → read (thumbnail_path dir) f ≡ some set.thumbnail
      → read (main_path dir) f ≡ some set.main
      → IsSaved d read law set.original (original_path dir) f r
      → AreStored dir set (
          keep_original d s dir
            (record {
              thumbnail = location s (thumbnail_path dir);
              main = location s (main_path dir);
              original = "";
            })
            r)
  keep_original-AreStored dir set f (e, g) small middle (inl bad) = inl bad
  keep_original-AreStored dir set f (e, g) small middle (inr (ok, at, rest)) = rw ok (
      inr (
        refl,
        refl,
        rest (thumbnail_path dir) (original_thumbnail dir) ∙ small,
        rest (main_path dir) (original_main dir) ∙ middle,
        at,
      ))

  keep_main-AreStored :
      (dir : String) (set : ProductImageSet I) (f : F) (r : Err × F)
      → read (thumbnail_path dir) f ≡ some set.thumbnail
      → IsSaved d read law set.main (main_path dir) f r
      → AreStored dir set (
          keep_main d s dir set
            (record { thumbnail = location s (thumbnail_path dir); main = ""; original = "" })
            r)
  keep_main-AreStored dir set f (e, g) small (inl bad) = rw bad (inl bad)
  keep_main-AreStored dir set f (e, g) small (inr (ok, at, rest)) = rw ok (
      keep_original-AreStored dir set g (save_image d set.original (original_path dir) g)
        (rest (thumbnail_path dir) (thumbnail_apart dir) ∙ small) at
        (save_image-IsSaved d read law set.original (original_path dir) g))

  keep_thumbnail-AreStored :
      (dir : String) (set : ProductImageSet I) (f : F) (r : Err × F)
      → IsSaved d read law set.thumbnail (thumbnail_path dir) f r
      → AreStored dir set (keep_thumbnail d s dir set r)
  keep_thumbnail-AreStored dir set f (e, g) (inl bad) = rw bad (inl bad)
  keep_thumbnail-AreStored dir set f (e, g) (inr (ok, at, rest)) = rw ok (
      keep_main-AreStored dir set g (save_image d set.main (main_path dir) g) at
        (save_image-IsSaved d read law set.main (main_path dir) g))

  store_images-AreFiles :
      (set : ProductImageSet I) (sku : String) (id : ℕ) (f : F)
      → AreStored (photo_dir s sku id) set (store_images d s set sku id f)
  unfolding store_images
  store_images-AreFiles set sku id f = by_directory _
    where
      dir : String
      dir = photo_dir s sku id

      by_directory : (r : Err × F) → AreStored dir set (in_photo_dir d s dir set r)
      by_directory (e, g) = elim (Bool-cases (is_err e)) [
        | inl bad ↦ rw bad (inl refl)
        | inr good ↦ rw good (
            keep_thumbnail-AreStored dir set g (save_image d set.thumbnail (thumbnail_path dir) g)
              (save_image-IsSaved d read law set.thumbnail (thumbnail_path dir) g))
      ]

  abbrev pub IsStored : String → ProductImageSet I → Locations F → Type 0
  IsStored dir set r = (is_err r.0.err ≡ true) × (¬ NeverFails d) ⊎ AreFiles dir set r

  -- Storing the images of a product on the disk answers an error, which it does only if a call of the disk can
  -- fail; or each of the three locations that it answers is the base URL with the path of a file that holds the
  -- image of that size, if encoding puts an image at its path and writing a file changes no other.
  pub store_images-IsStored :
      (set : ProductImageSet I) (sku : String) (id : ℕ) (f : F)
      → IsStored (photo_dir s sku id) set (store_images d s set sku id f)
  store_images-IsStored set sku id f = elim (store_images-AreFiles set sku id f) [
    | inl bad ↦ inl (bad, λ never. no_error-is_err _ (stores d never s set sku id f) bad)
    | inr kept ↦ inr kept
  ]
    where
      no_error-is_err : (e : Err) → e ≡ nil → is_err e ≡ true → ⊥
      no_error-is_err nil ok bad = cc
      no_error-is_err no_rows ok bad = cc
      no_error-is_err (failed t) ok bad = cc
