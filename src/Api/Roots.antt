-- ===== src/Api/Roots.antt =====
-- api/v1/product_roots.go
pub mod Atomic
pub mod Reading
use dairycart.Prelude.{String, List, [], ◌∷◌, ◌++◌, some}
use dairycart.Models.Basics.{QueryFilter}
use dairycart.Models.Roots.{ProductRoot}
use dairycart.Storage.Answers.{Answer}
use dairycart.Storage.Storer.{Storer}
use dairycart.Http.Messages.{product_root, product_roots, list_response}
use dairycart.Http.Handler.{Handler, pure, ◌>>=◌, ◌>>◌, query_db, exec_tx, begin, commit, encode}
use dairycart.Api.Respond.{check_internal, check_row, check_tx, check_tx_rows}
use dairycart.Api.Numbers.{path_id}

module _ {D : Type 0} (s : Storer D) where
  -- The loop over the roots. It assigns to `r.Products` of a copy, so the list does not change.
  unfoldable pub read_products : List ProductRoot → Handler D (Unit {0})
  read_products [] = pure tt
  read_products (r ∷ rs) = do
    found ← query_db (s.get_products_by_product_root_id r.id)
    check_internal found.err
    read_products rs

  unfoldable pub root_list : QueryFilter → Handler D (Unit {0})
  unfolding read_products
  root_list qf = do
    count ← query_db (s.get_product_root_count qf)
    check_internal count.err
    found ← query_db (s.get_product_root_list qf)
    check_internal found.err
    read_products found.value
    encode (product_roots (list_response qf count.value found.value))

  unfoldable pub single_root : String → Handler D (Unit {0})
  single_root id_str = do
    found ← query_db (s.get_product_root (path_id id_str))
    check_row found.err "product_root" id_str
    let root = found.value
    products ← query_db (s.get_products_by_product_root_id root.id)
    check_internal products.err
    options ← query_db (s.get_product_options_by_product_root_id root.id)
    check_internal options.err
    encode (product_root (record root { products = products.value; options = options.value }))

  unfoldable pub root_deletion : String → Handler D (Unit {0})
  root_deletion id_str = do
    found ← query_db (s.get_product_root (path_id id_str))
    check_row found.err "product_root" id_str
    let root = found.value
    started ← begin s
    check_internal started
    bridges ← exec_tx (s.archive_product_variant_bridges_with_product_root_id root.id)
    check_tx_rows bridges.err
    values ← exec_tx (s.archive_product_option_values_with_product_root_id root.id)
    check_tx_rows values.err
    options ← exec_tx (s.archive_product_options_with_product_root_id root.id)
    check_tx_rows options.err
    products ← exec_tx (s.archive_products_with_product_root_id root.id)
    check_tx_rows products.err
    archived ← exec_tx (s.delete_product_root root.id)
    check_tx archived.err
    done ← commit s
    check_internal done
    encode (product_root (record root { archived_on = some archived.value }))
