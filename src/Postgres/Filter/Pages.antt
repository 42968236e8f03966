-- ===== src/Postgres/Filter/Pages.antt =====
-- What the filtered list query asks for: the rows that it keeps, and the page of them.
use dairycart.Prelude.{
  ℕ, zero, suc, lt→ltb, ◌+◌, ◌-◌, ◌*◌, ◌%◌, ◌^◌, ◌<◌, String, Bool, true, false, ◌&&◌, ◌||◌, Option,
  some, ◌≡◌, ◌∙◌, refl, sym, arith,
}
use dairycart.Models.Basics.{Time, is_zero_time, QueryFilter}
use dairycart.Postgres.Filter.{SelectBuilder, apply_query_filter_to_query_builder}
use dairycart.Postgres.Filter.Reading.{Reading, after, before, is_null}
use dairycart.Postgres.Filter.Steps.{
  effective_limit, effective_offset, limit-limit, limit-offset, limit-keeps, offset-limit,
  offset-offset, offset-keeps, gt-limit, gt-offset, gt-keeps, lt-limit, lt-offset, lt-keeps,
  archived-limit, archived-offset, archived-keeps,
}

and_assoc : (k a c d e f : Bool) → k && a && c && d && e && f ≡ k && (a && c && d && e && f)
and_assoc true a c d e f = refl
and_assoc false a c d e f = refl

mod_small : (m : ℕ) → m < 2 ^ 64 → m % 2 ^ 64 ≡ m
mod_small m h = omega arith

suc_sub : (n : ℕ) → suc n - 1 ≡ n
suc_sub n = omega arith

suc_mul : (n l : ℕ) → n * l + l ≡ suc n * l
suc_mul n l = omega arith

zero_mul : (l : ℕ) → 0 ≡ zero * l
zero_mul l = omega arith

mul_le : (n l : ℕ) → suc n * l < 2 ^ 64 → n * l < 2 ^ 64
mul_le n l h = let e = suc_mul n l in omega arith

module _ {Q R : Type 0} (b : SelectBuilder Q) (column : String → R → Option Time)
    (reading : Reading b column) where
  -- A bound that is not set admits everything.
  abbrev pub admitted_after : Time → Option Time → Bool
  admitted_after t v = is_zero_time t || after v t

  abbrev pub admitted_before : Time → Option Time → Bool
  admitted_before t v = is_zero_time t || before v t

  -- What a filter asks of a row.
  abbrev pub matches : QueryFilter → R → Bool
  matches qf r =
      admitted_after qf.created_after (column "created_on" r)
      && admitted_before qf.created_before (column "created_on" r)
      && admitted_after qf.updated_after (column "updated_on" r)
      && admitted_before qf.updated_before (column "updated_on" r)
      && (qf.include_archived || is_null (column "archived_on" r))

  limit_lem :
      (q : Q) (qf : QueryFilter) (o : Bool)
      → reading.limit_of (apply_query_filter_to_query_builder b q (some qf) o)
        ≡ some (effective_limit qf.limit)
  unfolding apply_query_filter_to_query_builder
  limit_lem q qf o =
      rw
        (
          archived-limit b column reading,
          lt-limit b column reading,
          gt-limit b column reading,
          lt-limit b column reading,
          gt-limit b column reading,
          offset-limit b column reading,
        )
        (limit-limit b column reading _ _)

  offset_lem :
      (q : Q) (qf : QueryFilter) (o : Bool)
      → reading.offset_of q ≡ 0
      → reading.offset_of (apply_query_filter_to_query_builder b q (some qf) o)
        ≡ effective_offset qf o
  unfolding apply_query_filter_to_query_builder
  offset_lem q qf o e =
      rw
        (
          archived-offset b column reading,
          lt-offset b column reading,
          gt-offset b column reading,
          lt-offset b column reading,
          gt-offset b column reading,
        )
        (offset-offset b column reading qf o _ (limit-offset b column reading qf.limit q ∙ e))

  -- The query that a filter makes of `q` keeps the rows that `q` keeps and that match the filter: those
  -- that are later than each lower bound and earlier than each upper bound that is set, and that are not
  -- archived unless the filter includes them.
  pub query_filter-keeps :
      (q : Q) (qf : QueryFilter) (o : Bool) (r : R)
      → reading.keeps (apply_query_filter_to_query_builder b q (some qf) o) r
        ≡ reading.keeps q r && matches qf r
  unfolding apply_query_filter_to_query_builder
  query_filter-keeps q qf o r =
      rw
        (
          archived-keeps b column reading,
          lt-keeps b column reading,
          gt-keeps b column reading,
          lt-keeps b column reading,
          gt-keeps b column reading,
          offset-keeps b column reading,
          limit-keeps b column reading,
        )
        (and_assoc (reading.keeps q r) _ _ _ _ _)

  abbrev pub at_page : QueryFilter → ℕ → QueryFilter
  at_page qf page = record qf { page = page }

  -- The query of a page of a list.
  abbrev pub page_query : Q → QueryFilter → ℕ → Q
  page_query q qf page = apply_query_filter_to_query_builder b q (some (at_page qf page)) true

  offset_of_page :
      (qf : QueryFilter) (n : ℕ)
      → n * qf.limit < 2 ^ 64
      → effective_offset (at_page qf (suc n)) true ≡ n * qf.limit
  offset_of_page qf zero h = zero_mul qf.limit
  offset_of_page qf (suc n) h =
      rw (lt→ltb 1 (suc (suc n)) (omega arith), suc_sub (suc n)) (mod_small _ h)

  -- Page 1 skips no row, every page asks for as many rows as the limit, and page n + 1 skips those that page n
  -- skips and asks for.
  abbrev pub IsTiling : Q → QueryFilter → ℕ → Type 0
  IsTiling q qf n =
      (reading.offset_of (page_query q qf 1) ≡ 0)
      × (reading.limit_of (page_query q qf n) ≡ some qf.limit)
      × (reading.offset_of (page_query q qf (suc n))
          ≡ reading.offset_of (page_query q qf n) + qf.limit)

  -- The pages of a list tile it without a gap or an overlap, as far as their queries say: with a limit above zero
  -- page 1 skips no row, page n asks for as many rows as the limit, and page n + 1 skips as many as page n skips and
  -- asks for together, as long as n times the limit is below 2^64. (In what order the rows come is not said: the
  -- queries have no ORDER BY.)
  pub page_query-IsTiling :
      (q : Q)
      → reading.offset_of q ≡ 0
      → (qf : QueryFilter) → 0 < qf.limit
      → (n : ℕ) → 0 < n
      → n * qf.limit < 2 ^ 64
      → IsTiling q qf n
  page_query-IsTiling q plain qf positive zero above h = absurd (omega arith)
  page_query-IsTiling q plain qf positive (suc n) above h =
      rw
        (
          offset_lem q (at_page qf 1) true plain,
          limit_lem q (at_page qf (suc n)) true,
          offset_lem q (at_page qf (suc n)) true plain,
          offset_lem q (at_page qf (suc (suc n))) true plain,
          offset_of_page qf n (mul_le n qf.limit h),
          offset_of_page qf (suc n) h,
          lt→ltb 0 qf.limit positive,
        )
        (refl, refl, sym (suc_mul n qf.limit))
