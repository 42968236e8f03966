-- ===== src/Api/Products/Creation/Safe.antt =====
-- Creating a product is all or nothing.
use dairycart.Prelude.{Bool, true, false, ◌≡◌, refl, inl, inr, ◌⊎◌, List, [], ◌∷◌, some, none}
use dairycart.Models.Basics.{Time}
use dairycart.Models.Products.{ProductCreationInput}
use dairycart.Models.Roots.{ProductRoot}
use dairycart.Models.Webhooks.{Webhook}
use dairycart.Storage.Answers.{Answer, Created, nil, is_err, is_failure}
use dairycart.Storage.Storer.{Storer}
use dairycart.Http.Messages.{product_root}
use dairycart.Http.Handler.{World, Flow, next, panicked, fresh, ◌>>=◌}
use dairycart.Api.Inputs.{create_product_root_from_product, restricted_string_is_valid}
use dairycart.Api.Rules.{
  Ends, IsRefused, notify_of_invalid_request_body_lem, not-false, right_false, Ends-query_db,
  Ends-exec_tx, Ends-when_return, Ends-check_body, Ends-check_tx, Ends-check_internal_rows,
  Ends-begin, Ends-commit,
}
use dairycart.Api.Transactions.{working, Ends-TxOrStop, TxOrStop-of_TxOnly}
use dairycart.Api.Products.Handlers.{hook_calls}
use dairycart.Api.Products.Images.{Imaging, CreatedImages, handle_product_creation_images}
use dairycart.Api.Products.Images.Transaction.{handle_images-TxOnly}
use dairycart.Api.Products.Creation.{new_product, create_rows, product_creation}
use dairycart.Api.Products.Creation.Transaction.{create_rows-TxOrStop}

module _ {I D : Type 0} (s : Storer D) (imaging : Imaging I) (is_zero : ProductCreationInput → Bool)
    (now : Time) where
  abbrev hooks : World D → Answer (List Webhook)
  hooks w = s.get_webhooks_by_event_type "product_created" w.db

  -- The root before its images.
  abbrev plain_root : ProductCreationInput → ProductRoot
  plain_root input = create_product_root_from_product (new_product s imaging is_zero now input)

  -- Its INSERT.
  abbrev pub stored_root : ProductCreationInput → D → Answer Created × D
  stored_root input d = s.create_product_root (plain_root input) d

  -- The root with its id and its images.
  abbrev pub pictured : ProductCreationInput → Created → CreatedImages → ProductRoot
  pictured input c pictures =
      let plain = plain_root input in
      record plain {
        id = c.id;
        created_on = c.created_on;
        images = pictures.images;
        primary_image_id = pictures.primary;
      }

  -- `stored` is the working copy of a transaction that began at `d` after the INSERT of the root, those of its
  -- images, and those of its options, products and bridges, all without an error; `root` is what they made.
  abbrev pub IsWork : ProductCreationInput → D → ProductRoot → D → Type 0
  IsWork input d root stored =
      let (c, d₀) = stored_root input d in
      (c.err ≡ nil)
      × (pictures : Answer CreatedImages) × (d₁ : D) × (handle_product_creation_images s imaging
            input.sku c.value.id input.images (working d₀ (fresh d))
          ≡ (next pictures, working d₁ (fresh d)))
      × (pictures.err ≡ nil)
      × (create_rows s imaging.to_lower input input.options
            (new_product s imaging is_zero now input) (pictured input c.value pictures.value)
            (working d₁ (fresh d))
          ≡ (next root, working stored (fresh d)))

  -- The sku is valid and was not taken, and what is committed is the work of the transaction. Either the answer is
  -- 201 with the root, and every webhook of the event `product_created` is called with it, or the webhooks could not
  -- be read and the answer is 500.
  abbrev pub IsCreated : ProductCreationInput → D → World D → Type 0
  IsCreated input d w =
      (restricted_string_is_valid input.sku ≡ true)
      × ((s.product_root_with_sku_prefix_exists input.sku d).value ≡ false)
      × (w.tx ≡ none)
      × (root : ProductRoot) × IsWork input d root w.db
      × ((w.status ≡ some 201)
            × (w.body ≡ product_root root ∷ [])
            × (w.hooks ≡ hook_calls (hooks w).value (product_root root))
          ⊎ (is_failure (hooks w).err ≡ true) × (w.status ≡ some 500) × (w.hooks ≡ []))

  -- How the handler may end: on a panic what is committed is as before.
  abbrev pub IsSafe : ProductCreationInput → D → Flow (Unit {0}) × World D → Type 0
  IsSafe input d (panicked, w) = (w.db ≡ d) × (w.status ≡ none) × (w.hooks ≡ [])
  IsSafe input d (_, w) = IsRefused d w ⊎ IsCreated input d w

  -- Whatever the request and however the store, the decoder and the image storer answer, the creation
  -- of a product writes nothing and answers an error; or it panics with nothing written; or the sku of
  -- the input is valid and was taken by no root, what is committed is the working copy that the INSERT of the root and
  -- the functions for its images and its other rows make without an error, and it answers 201 with the root that they
  -- make and that it announces to the webhooks, or 500 if the webhooks cannot be read. No transaction stays open but after a panic.
  pub product_creation-IsSafe :
      (body : Answer ProductCreationInput) (d : D)
      → IsSafe body.value d (product_creation s imaging is_zero now body (fresh d))
  unfolding product_creation
  product_creation-IsSafe body d = run.ends
    where
      run : Ends (IsSafe body.value d) (product_creation s imaging is_zero now body) (fresh d)
      run =
          Ends-check_body _ _ _ (λ _. inl (refl, refl, refl, inl refl))
            λ _.
              Ends-when_return _ _ _ _ _ (notify_of_invalid_request_body_lem _ _)
                (λ _. inl (refl, refl, refl, inl refl))
                λ valid. Ends-query_db _ _ _ (
                  Ends-when_return _ _ _ _ _ (notify_of_invalid_request_body_lem _ _)
                    (λ _. inl (refl, refl, refl, inl refl))
                    λ unused.
                      Ends-begin s _ _ (λ _. inl (refl, refl, refl, inr (inr refl)))
                        λ _. Ends-exec_tx _ _ _ refl (
                          Ends-check_tx _ _ _ (λ _. inl (refl, refl, refl, inr (inr refl)))
                            λ stored.
                              Ends-TxOrStop _ _ _
                                (TxOrStop-of_TxOnly _ (handle_images-TxOnly s imaging _ _ _)) refl
                                (λ d'. (refl, refl, refl)) (inl (refl, refl, refl, inr (inr refl)))
                                λ pictures d₁ drawn.
                                  Ends-check_tx _ _ _ (λ _. inl (refl, refl, refl, inr (inr refl)))
                                    λ kept.
                                      Ends-TxOrStop _ _ _ (create_rows-TxOrStop s _ _ _ _ _) refl
                                        (λ d'. (refl, refl, refl))
                                        (inl (refl, refl, refl, inr (inr refl)))
                                        λ root d₂ made.
                                          Ends-commit s _ _ refl
                                            (λ _. inl (refl, refl, refl, inr (inr refl)))
                                            λ _. Ends-query_db _ _ _ (
                                              Ends-check_internal_rows _ _ _
                                                (λ h. inr (
                                                  not-false _ valid,
                                                  right_false
                                                      (is_err
                                                        (s.product_root_with_sku_prefix_exists
                                                          (body.value).sku d).err)
                                                      _ unused,
                                                  refl,
                                                  root,
                                                  (stored, pictures, d₁, drawn, kept, made),
                                                  inr (h, refl, refl),
                                                ))
                                                λ _. record {
                                                  ends =
                                                      unfold ◌>>=◌ in
                                                      inr (
                                                        not-false
                                                            (restricted_string_is_valid
                                                            (body.value).sku)
                                                            valid,
                                                        right_false
                                                            (is_err
                                                            (s.product_root_with_sku_prefix_exists
                                                            (body.value).sku d).err)
                                                            (s.product_root_with_sku_prefix_exists
                                                            (body.value).sku d).value
                                                            unused,
                                                        refl,
                                                        root,
                                                        (stored, pictures, d₁, drawn, kept, made),
                                                        inl (refl, refl, refl),
                                                      );
                                                })))
