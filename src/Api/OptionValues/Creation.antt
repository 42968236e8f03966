-- ===== src/Api/OptionValues/Creation.antt =====
-- What creating a value of a product option writes and answers.
use dairycart.Prelude.{String, Bool, true, false, ◌≡◌, ◌⊎◌, inl, inr, refl, some, none, [], ◌∷◌}
use dairycart.Models.Options.{ProductOptionValue}
use dairycart.Storage.Answers.{Answer, is_no_rows}
use dairycart.Storage.Storer.{Storer}
use dairycart.Http.Messages.{product_option_value}
use dairycart.Http.Handler.{World, Flow, fresh, ◌>>=◌}
use dairycart.Api.Numbers.{path_id}
use dairycart.Api.Rules.{
  Ends, IsRefused, Ends-query_db, Ends-exec_tx, Ends-check_body, Ends-check_internal, Ends-check_tx,
  Ends-begin, Ends-commit, Ends-when_return, notify_of_invalid_request_body_lem,
  respond_that_row_does_not_exist_lem, not-false, right_false,
}
use dairycart.Api.OptionValues.{option_value_creation}

module _ {D : Type 0} (s : Storer D) where
  -- The value of the input under the option of the path, and the same with the id and the date that the store gave it.
  abbrev pub value_of : String → ProductOptionValue → ProductOptionValue
  value_of id_str input = record input { product_option_id = path_id id_str }

  abbrev pub stored_value : ProductOptionValue → D → ProductOptionValue
  stored_value new d =
      let c = (s.create_product_option_value new d).0.value in
      record new { id = c.id; created_on = c.created_on }

  abbrev pub IsValueCreation : String → ProductOptionValue → D → World D → Type 0
  IsValueCreation id_str input d w =
      let new = value_of id_str input in
      IsRefused d w
      ⊎ ((s.product_option_exists (path_id id_str) d).value ≡ true)
        × ((s.product_option_value_for_option_id_exists (path_id id_str) input.value d).value
            ≡ false)
        × (w.db ≡ (s.create_product_option_value new d).1)
        × (w.tx ≡ none)
        × (w.status ≡ some 201)
        × (w.body ≡ product_option_value (stored_value new d) ∷ [])

  -- Creating an option value is refused with nothing written; or the option of the path exists and had no
  -- such value, the value is written under that option, whatever option the body names, its transaction
  -- is committed, and the answer shows it with its new id.
  pub option_value_creation_safe :
      (is_zero : ProductOptionValue → Bool) (duplicate : ProductOptionValue → String)
      (id_str : String) (body : Answer ProductOptionValue) (d : D)
      → let (flow, w) = option_value_creation s is_zero duplicate id_str body (fresh d) in
        IsValueCreation id_str body.value d w
  unfolding option_value_creation
  option_value_creation_safe is_zero duplicate id_str body d = run.ends
    where
      G : Flow (Unit {0}) × World D → Type 0
      G (flow, w) = IsValueCreation id_str body.value d w

      run : Ends G (option_value_creation s is_zero duplicate id_str body) (fresh d)
      run =
          Ends-check_body _ _ _ (λ _. inl (refl, refl, refl, inl refl))
            λ _. Ends-query_db _ _ _ (
              Ends-when_return _ _ _ _ _ (respond_that_row_does_not_exist_lem _ _ _)
                (λ _. inl (refl, refl, refl, inr (inl refl)))
                λ there.
                  Ends-check_internal _ _ _ (λ _. inl (refl, refl, refl, inr (inr refl)))
                    λ _. Ends-query_db _ _ _ (
                      Ends-when_return _ _ _ _ _ (notify_of_invalid_request_body_lem _ _)
                        (λ _. inl (refl, refl, refl, inl refl))
                        λ unused.
                          Ends-check_internal _ _ _ (λ _. inl (refl, refl, refl, inr (inr refl)))
                            λ _.
                              Ends-begin s _ _ (λ _. inl (refl, refl, refl, inr (inr refl)))
                                λ _. Ends-exec_tx _ _ _ refl (
                                  Ends-check_tx _ _ _ (λ _. inl (refl, refl, refl, inr (inr refl)))
                                    λ _.
                                      Ends-commit s _ _ refl
                                        (λ _. inl (refl, refl, refl, inr (inr refl)))
                                        λ _. record {
                                          ends =
                                              unfold ◌>>=◌ in
                                              inr (
                                                not-false
                                                    (s.product_option_exists (path_id id_str)
                                                      d).value
                                                    (right_false
                                                      (is_no_rows
                                                        (s.product_option_exists (path_id id_str)
                                                          d).err)
                                                      _ there),
                                                unused,
                                                refl,
                                                refl,
                                                refl,
                                                refl,
                                              );
                                        })))
