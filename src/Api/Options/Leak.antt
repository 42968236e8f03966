-- ===== src/Api/Options/Leak.antt =====
-- Deleting a product option: what is written, and the transaction that stays open on an error.
use dairycart.Prelude.{
  ℕ, String, Bool, true, if◌then◌else◌, ◌≢◌, ◌&&◌, ◌||◌, ◌≡◌, refl, some, none, arith,
}
use dairycart.Storage.Answers.{is_err, is_no_rows, is_ok, nil}
use dairycart.Storage.Storer.{Storer}
use dairycart.Http.Handler.{fresh, ◌>>=◌}
use dairycart.Api.Numbers.{path_id}
use dairycart.Api.Rules.{
  Ends, Verdict, accept, refuse, Ends-query_db, Ends-exec_tx, Ends-check_row, Ends-check_internal,
  Ends-begin, Ends-commit,
}
use dairycart.Api.Options.{option_deletion}

module _ {D : Type 0} (s : Storer D) (id_str : String) (d : D) where
  abbrev option_id : ℕ
  option_id = path_id id_str

  abbrev pub values_archived : D
  values_archived = (s.archive_product_option_values_for_option option_id d).1

  abbrev pub option_archived : D
  option_archived = (s.delete_product_option option_id values_archived).1

  abbrev pub option_deletion_succeeds : Bool
  option_deletion_succeeds =
      is_ok (s.get_product_option option_id d).err
      && is_ok (s.begin_err d)
      && is_ok (s.archive_product_option_values_for_option option_id d).0.err
      && is_ok (s.delete_product_option option_id values_archived).0.err
      && is_ok (s.commit_err option_archived)

  -- Deleting a product option commits both archiving statements if every statement succeeds, and
  -- otherwise leaves what is committed as it was and answers an error.
  pub option_deletion_committed :
      let w = (option_deletion s id_str (fresh d)).1 in
      Verdict option_deletion_succeeds
        ((w.db ≡ option_archived) × (w.tx ≡ none) × (w.status ≡ some 200))
        ((w.db ≡ d)
          × (w.status
              ≡ (if is_no_rows (s.get_product_option option_id d).err then some 404 else some 500)))
  unfolding option_deletion
  option_deletion_committed = run.ends
    where
      run :
          Ends
            (λ r.
              Verdict option_deletion_succeeds
                ((r.1.db ≡ option_archived) × (r.1.tx ≡ none) × (r.1.status ≡ some 200))
                ((r.1.db ≡ d)
                  × (r.1.status ≡ (
                      if is_no_rows (s.get_product_option option_id d).err
                      then some 404
                      else some 500))))
            (option_deletion s id_str)
            (fresh d)
      run = Ends-query_db _ _ _ (
          Ends-check_row _ _ _ _ _ (λ e. refuse (ground arith) (refl, ground arith))
            (λ e. refuse (ground arith) (refl, ground arith))
            λ e.
              Ends-begin s _ _ (λ e₁. refuse (ground arith) (refl, ground arith))
                λ e₁. Ends-exec_tx _ _ _ refl (
                  Ends-check_internal _ _ _ (λ e₂. refuse (ground arith) (refl, ground arith))
                    λ e₂. Ends-exec_tx _ _ _ refl (
                      Ends-check_internal _ _ _ (λ e₃. refuse (ground arith) (refl, ground arith))
                        λ e₃.
                          Ends-commit s _ _ refl (λ e₄. refuse (ground arith) (refl, ground arith))
                            λ e₄. record {
                              ends = unfold ◌>>=◌ in accept (ground arith) (refl, refl, refl);
                            })))

  -- If one of the two archiving statements fails, the handler answers 500 and returns with its
  -- transaction still open: it neither commits nor rolls back.
  pub option_deletion_leaks :
      (s.get_product_option option_id d).err ≡ nil
      → s.begin_err d ≡ nil
      → (is_err (s.archive_product_option_values_for_option option_id d).0.err
          || is_err (s.delete_product_option option_id values_archived).0.err)
        ≡ true
      → let w = (option_deletion s id_str (fresh d)).1 in (w.status ≡ some 500) × (w.tx ≢ none)
  unfolding option_deletion
  option_deletion_leaks ok ok₁ bad = run.ends
    where
      run :
          Ends (λ r. (r.1.status ≡ some 500) × (r.1.tx ≢ none)) (option_deletion s id_str) (fresh d)
      run = Ends-query_db _ _ _ (
          Ends-check_row _ _ _ _ _ (λ e. absurd (cc (ok, e))) (λ e. absurd (ground arith))
            λ e.
              Ends-begin s _ _ (λ e₁. absurd (ground arith))
                λ e₁. Ends-exec_tx _ _ _ refl (
                  Ends-check_internal _ _ _ (λ e₂. (refl, λ p. cc))
                    λ e₂. Ends-exec_tx _ _ _ refl (
                      Ends-check_internal _ _ _ (λ e₃. (refl, λ p. cc))
                        λ e₃. absurd (ground arith))))
