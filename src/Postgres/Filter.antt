-- ===== src/Postgres/Filter.antt =====
-- `applyQueryFilterToQueryBuilder` of storage/v1/database/postgres/main.go.
pub mod Reading
pub mod Steps
pub mod Pages
use dairycart.Prelude.{
  ℕ, ◌-◌, ◌*◌, ◌%◌, ◌^◌, String, Bool, not, ◌&&◌, Option, none, some, ltb, if◌then◌else◌,
}
use dairycart.Models.Basics.{Time, is_zero_time, QueryFilter}

-- The methods of squirrel's `SelectBuilder` that the function calls; `Where` with `Gt`, `Lt` and
-- `Eq{column: nil}` is three fields.
pub record SelectBuilder (Q : Type 0) : Type 0 where
  pub limit : ℕ → Q → Q
  pub offset : ℕ → Q → Q
  pub where_gt : String → Time → Q → Q
  pub where_lt : String → Time → Q → Q
  pub where_null : String → Q → Q

module _ {Q : Type 0} (b : SelectBuilder Q) where
  unfoldable pub with_limit : ℕ → Q → Q
  with_limit limit q = if ltb 0 limit then b.limit limit q else b.limit 25 q

  -- The product wraps as a uint64.
  unfoldable pub with_offset : QueryFilter → Bool → Q → Q
  with_offset qf include_offset q =
      if ltb 1 qf.page && include_offset
      then b.offset (((qf.page - 1) * qf.limit) % 2 ^ 64) q
      else q

  unfoldable pub with_gt : String → Time → Q → Q
  with_gt column t q = if not (is_zero_time t) then b.where_gt column t q else q

  unfoldable pub with_lt : String → Time → Q → Q
  with_lt column t q = if not (is_zero_time t) then b.where_lt column t q else q

  unfoldable pub with_archived : Bool → Q → Q
  with_archived include_archived q =
      if not include_archived then b.where_null "archived_on" q else q

  unfoldable pub apply_query_filter_to_query_builder : Q → Option QueryFilter → Bool → Q
  unfolding with_limit with_offset with_gt with_lt with_archived
  apply_query_filter_to_query_builder q none include_offset = q
  apply_query_filter_to_query_builder q (some qf) include_offset =
      let q₁ = with_limit qf.limit q in
      let q₂ = with_offset qf include_offset q₁ in
      let q₃ = with_gt "created_on" qf.created_after q₂ in
      let q₄ = with_lt "created_on" qf.created_before q₃ in
      let q₅ = with_gt "updated_on" qf.updated_after q₄ in
      let q₆ = with_lt "updated_on" qf.updated_before q₅ in with_archived qf.include_archived q₆
