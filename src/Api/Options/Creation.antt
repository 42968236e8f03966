-- ===== src/Api/Options/Creation.antt =====
-- What creating a product option writes and answers.
use dairycart.Prelude.{
  ℕ, String, Bool, true, false, ◌≡◌, ◌⊎◌, refl, sym, subst, ap, inl, inr, some, none, List, [], ◌∷◌,
  ◌++◌, map, append-nil,
}
use dairycart.Models.Options.{ProductOption, ProductOptionValue, ProductOptionCreationInput}
use dairycart.Storage.Answers.{Answer, nil, is_no_rows}
use dairycart.Storage.Storer.{Storer}
use dairycart.Http.Messages.{product_option}
use dairycart.Http.Handler.{World, Handler, Flow, next, fresh, ◌>>=◌}
use dairycart.Api.Numbers.{path_id}
use dairycart.Api.Rules.{
  Ends, IsRefused, Ends-after, Ends-or_fail, Ends-succeed, Ends-query_db, Ends-exec_tx,
  Ends-check_body, Ends-check_internal, Ends-check_tx, Ends-begin, Ends-commit, Ends-when_return,
  notify_of_invalid_request_body_lem, respond_that_row_does_not_exist_lem, not-false, right_false,
}
use dairycart.Api.Transactions.{working}
use dairycart.Api.Options.{
  new_value, no_option, create_values, create_product_option_and_values_in_db_from_input,
  option_creation,
}

module _ {D : Type 0} (s : Storer D) where
  abbrev texts : List ProductOptionValue → List String
  texts = map (λ v. v.value)

  -- The state after one INSERT for each value.
  abbrev pub values_stored : ℕ → List String → D → D
  values_stored option_id [] d = d
  values_stored option_id (v ∷ vs) d =
      values_stored option_id vs (s.create_product_option_value (new_value option_id v) d).1

  -- The state after the INSERT of the option and those of its values.
  abbrev pub option_stored : ProductOptionCreationInput → ℕ → D → D
  option_stored input root_id d =
      let zero_option = no_option in
      let (c, d') =
        s.create_product_option
          (record zero_option { name = input.name; product_root_id = root_id }) d in
      values_stored c.value.id input.values d'

  abbrev IsListed :
      World D → D → List String → Flow (Answer (List ProductOptionValue)) × World D → Type 0
  IsListed w₀ stored wanted (next a, w) =
      ((d : D) × (w ≡ working d w₀) × (a.err ≡ nil → d ≡ stored))
      × (a.err ≡ nil → texts a.value ≡ wanted)
  IsListed w₀ stored wanted (_, w) = true ≡ false

  texts-append :
      (out : List ProductOptionValue) (v : ProductOptionValue) (vs : List String)
      → texts (out ++ v ∷ []) ++ vs ≡ texts out ++ v.value ∷ vs
  texts-append [] v vs = refl
  texts-append (o ∷ out) v vs = ap (λ l. o.value ∷ l) (texts-append out v vs)

  relist :
      (m : Handler D (Answer (List ProductOptionValue))) (w₀ w : World D) (stored : D)
      (l l' : List String)
      → Ends (IsListed w₀ stored l) m w
      → l ≡ l'
      → Ends (IsListed w₀ stored l') m w
  relist m w₀ w stored l l' h p = subst (λ k. Ends (IsListed w₀ stored k) m w) p h

  create_values-IsListed :
      (option_id : ℕ) (vs : List String) (out : List ProductOptionValue) (w : World D) {d : D}
      → w.tx ≡ some d
      → Ends
          (IsListed w (values_stored option_id vs d) (texts out ++ vs))
          (create_values s option_id vs out)
          w
  unfolding create_values
  create_values-IsListed option_id [] out w {d} e =
      Ends-succeed _ _
        ((d, (λ i. record w { tx = e i }), λ _. refl), λ _. sym (append-nil (texts out)))
  create_values-IsListed option_id (v ∷ vs) out w e = Ends-exec_tx _ _ _ e (
      Ends-or_fail _ _ _ _ (λ p. ((_, refl, λ q. cc), λ q. cc))
        λ p.
          relist _ w _ _ _ _ (create_values-IsListed option_id vs _ (working _ w) refl)
            (texts-append out _ vs))

  abbrev pub IsOptionOf : ProductOptionCreationInput → ℕ → ProductOption → Type 0
  IsOptionOf input root_id o =
      (o.name ≡ input.name) × (o.product_root_id ≡ root_id) × (texts o.values ≡ input.values)

  abbrev IsMade :
      World D → D → ProductOptionCreationInput → ℕ → Flow (Answer ProductOption) × World D → Type 0
  IsMade w₀ d₀ input root_id (next a, w) =
      ((d : D) × (w ≡ working d w₀) × (a.err ≡ nil → d ≡ option_stored input root_id d₀))
      × (a.err ≡ nil → IsOptionOf input root_id a.value)
  IsMade w₀ d₀ input root_id (_, w) = true ≡ false

  create_option-IsMade :
      (input : ProductOptionCreationInput) (root_id : ℕ) (w : World D) {d : D}
      → w.tx ≡ some d
      → Ends
          (IsMade w d input root_id)
          (create_product_option_and_values_in_db_from_input s input root_id)
          w
  unfolding create_product_option_and_values_in_db_from_input
  create_option-IsMade input root_id w e = Ends-exec_tx _ _ _ e (
      Ends-or_fail _ _ _ _ (λ p. ((_, refl, λ q. cc), λ q. cc))
        λ p.
          Ends-after _ _ _ (create_values-IsListed _ input.values [] (working _ w) refl) (λ _ h. cc)
            (λ _ h. cc)
            λ a w' ((d, q, stored), listed).
              Ends-or_fail _ _ _ _ (λ p. ((d, q, λ q. cc), λ q. cc))
                λ p. Ends-succeed _ _ ((d, q, λ _. stored p), λ _. (refl, refl, listed p)))

  abbrev pub IsOptionCreation : String → ProductOptionCreationInput → D → World D → Type 0
  IsOptionCreation id_str input d w =
      IsRefused d w
      ⊎ ((s.product_root_exists (path_id id_str) d).value ≡ true)
        × ((s.product_option_with_name_exists_for_product_root input.name (path_id id_str) d).value
            ≡ false)
        × (w.db ≡ option_stored input (path_id id_str) d)
        × (w.tx ≡ none)
        × (w.status ≡ some 201)
        × ((o : ProductOption) × (w.body ≡ product_option o ∷ [])
            × IsOptionOf input (path_id id_str) o)

  -- Creating an option is refused with nothing written; or the product root of the path exists, it had no
  -- option of that name, what is committed is the state after the INSERT of the option and one of each value of the
  -- input in their order, with no transaction open, and the answer is 201 with an option of that root with
  -- the name of the input and one value for each of the input's values, in their order.
  pub option_creation_safe :
      (is_zero : ProductOptionCreationInput → Bool) (id_str : String)
      (body : Answer ProductOptionCreationInput) (d : D)
      → let (flow, w) = option_creation s is_zero id_str body (fresh d) in
        IsOptionCreation id_str body.value d w
  unfolding option_creation
  option_creation_safe is_zero id_str body d = run.ends
    where
      G : Flow (Unit {0}) × World D → Type 0
      G (flow, w) = IsOptionCreation id_str body.value d w

      run : Ends G (option_creation s is_zero id_str body) (fresh d)
      run =
          Ends-check_body _ _ _ (λ _. inl (refl, refl, refl, inl refl))
            λ _. Ends-query_db _ _ _ (
              Ends-when_return _ _ _ _ _ (respond_that_row_does_not_exist_lem _ _ _)
                (λ _. inl (refl, refl, refl, inr (inl refl)))
                λ there.
                  Ends-check_internal _ _ _ (λ _. inl (refl, refl, refl, inr (inr refl)))
                    λ _. Ends-query_db _ _ _ (
                      Ends-when_return _ _ _ _ _ (notify_of_invalid_request_body_lem _ _)
                        (λ _. inl (refl, refl, refl, inl refl))
                        λ unused.
                          Ends-check_internal _ _ _ (λ _. inl (refl, refl, refl, inr (inr refl)))
                            λ _.
                              Ends-begin s _ _ (λ _. inl (refl, refl, refl, inr (inr refl)))
                                λ _.
                                  Ends-after _ _ _ (create_option-IsMade _ _ _ refl) (λ _ h. cc)
                                    (λ _ h. cc)
                                    λ a w' ((d', q, stored), made). rw q (
                                      Ends-check_tx _ _ _
                                        (λ _. inl (refl, refl, refl, inr (inr refl)))
                                        λ ok.
                                          Ends-commit s _ _ refl
                                            (λ _. inl (refl, refl, refl, inr (inr refl)))
                                            λ _. record {
                                              ends =
                                                  unfold ◌>>=◌ in
                                                  inr (
                                                    not-false
                                                        (s.product_root_exists (path_id id_str)
                                                          d).value
                                                        (right_false
                                                          (is_no_rows
                                                            (s.product_root_exists (path_id id_str)
                                                            d).err)
                                                          _ there),
                                                    unused,
                                                    stored ok,
                                                    refl,
                                                    refl,
                                                    (a.value, refl, made ok),
                                                  );
                                            })))
