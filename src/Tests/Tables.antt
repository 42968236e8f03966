-- ===== src/Tests/Tables.antt =====
-- The queries that a filter builds.
use dairycart.Prelude.{
  ℕ, ◌&&◌, String, Bool, true, ◌≡◌, refl, Option, some, none, str_eq, if◌then◌else◌, arith,
}
use dairycart.Models.Basics.{Time}
use dairycart.Postgres.Filter.{SelectBuilder, apply_query_filter_to_query_builder}
use dairycart.Postgres.Filter.Reading.{Reading, after, before, is_null}
use dairycart.Postgres.Filter.Pages.{matches, query_filter-keeps, IsTiling, page_query-IsTiling}
use dairycart.Tests.Data.{second_page}

-- A query on rows that are their date of creation.
record Select : Type 0 where
  limit : Option ℕ
  offset : ℕ
  keep : ℕ → Bool

abbrev created : String → ℕ → Option Time
created c r = if str_eq c "created_on" then some r else none

abbrev builder : SelectBuilder Select
builder = record {
  limit = λ n q. record q { limit = some n };
  offset = λ n q. record q { offset = n };
  where_gt = λ c t q. record q { keep = λ r. q.keep r && after (created c r) t };
  where_lt = λ c t q. record q { keep = λ r. q.keep r && before (created c r) t };
  where_null = λ c q. record q { keep = λ r. q.keep r && is_null (created c r) };
}

abbrev reading : Reading builder created
reading = record {
  limit_of = λ q. q.limit;
  offset_of = λ q. q.offset;
  keeps = λ q r. q.keep r;
  limit_sets = λ n q. refl;
  limit_offset = λ n q. refl;
  limit_keeps = λ n q r. refl;
  offset_sets = λ n q. refl;
  offset_limit = λ n q. refl;
  offset_keeps = λ n q r. refl;
  gt_limit = λ c t q. refl;
  gt_offset = λ c t q. refl;
  gt_keeps = λ c t q r. refl;
  lt_limit = λ c t q. refl;
  lt_offset = λ c t q. refl;
  lt_keeps = λ c t q r. refl;
  null_limit = λ c q. refl;
  null_offset = λ c q. refl;
  null_keeps = λ c q r. refl;
}

abbrev everything : Select
everything = record { limit = none; offset = 0; keep = λ r. true }

query_filter-keeps_example :
    reading.keeps
      (apply_query_filter_to_query_builder builder everything (some second_page) true)
      40
    ≡ matches builder created reading second_page 40
query_filter-keeps_example =
    query_filter-keeps builder created reading everything second_page true 40

page_query-IsTiling_example : IsTiling builder created reading everything second_page 2
page_query-IsTiling_example =
    page_query-IsTiling builder created reading everything refl second_page (omega arith) 2
      (omega arith) (omega arith)
