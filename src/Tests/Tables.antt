-- ===== src/Tests/Tables.antt =====
-- A MySQL server that behaves as documented, and the theorems about the shop's tables.
use try_it_now.Base.{
  ◌≡◌, refl, ◌∙◌, ap, sym, String, Bool, true, false, not, ◌&&◌, Option, some, List, [], ◌∷◌, arith,
  eq_iff, if◌then◌else◌, contains, map,
}
use try_it_now.Base.Text.{◌<>◌}
use try_it_now.Database.{
  Mysql, Statement, update_shop_url, update_configuration, truncate_table, drop_if_exists, Rows,
  rows, query_failed, Tables, scanned, drop_prefixed_tables, is_valid_prefix,
}
use try_it_now.Database.Like.{like, begins_hex, generate_db_prefix_valid}
use try_it_now.Database.Isolation.{has_table, IsDocumented, drop_prefixed_tables_keeps}
use try_it_now.Provision.{generate_db_prefix}

those_that : (String → Bool) → List String → List String
those_that f [] = []
those_that f (t ∷ ts) = let rest = those_that f ts in if f t then t ∷ rest else rest

has_table-those_that :
    (f : String → Bool) (t : String) (ts : List String)
    → has_table t (those_that f ts) ≡ (f t && has_table t ts)
unfolding contains those_that
has_table-those_that f t [] = ground arith
has_table-those_that f t (r ∷ ts) =
    ground (arith, has_table-those_that f t ts, eq_iff r t, eq_iff t r)

abbrev executed : Statement → Tables → Tables
executed (drop_if_exists names) ts = those_that (λ t. not (has_table t names)) ts
executed (update_shop_url table domain) ts = ts
executed (update_configuration table domain) ts = ts
executed (truncate_table table) ts = ts

abbrev sample_mysql : Mysql
sample_mysql = record {
  exec = λ s ts. (true, executed s ts);
  table_names = λ schema pattern ts. rows (map some (those_that (like pattern) ts)) false;
}

scanned-some : (names : List String) → scanned (map some names) ≡ names
scanned-some [] = refl
scanned-some (name ∷ names) = ap (λ rest. name ∷ rest) (scanned-some names)

abbrev answered_rows : Rows → List (Option String)
answered_rows query_failed = []
answered_rows (rows names failed) = names

names_lem :
    (pattern : String) (ts : Tables) (answered : List (Option String)) (failed : Bool)
    → rows (map some (those_that (like pattern) ts)) false ≡ rows answered failed
    → scanned answered ≡ those_that (like pattern) ts
names_lem pattern ts answered failed e =
    ap (λ r. scanned (answered_rows r)) (sym e) ∙ scanned-some (those_that (like pattern) ts)

sample_mysql-IsDocumented : IsDocumented sample_mysql
sample_mysql-IsDocumented = record {
  rows_match = λ schema pattern ts answered failed t e h. ground (
    arith,
    ap (has_table t) (names_lem pattern ts answered failed e),
    has_table-those_that (like pattern) t ts,
    h,
  );
  matches_answered = λ schema pattern ts answered t e s h. ground (
    arith,
    ap (has_table t) (names_lem pattern ts answered false e),
    has_table-those_that (like pattern) t ts,
    h,
  );
  drop_keeps =
      λ names ts t h. ground (arith, has_table-those_that (λ u. not (has_table u names)) t ts, h);
  drop_removes =
      λ names ts t _ h. ground (arith, has_table-those_that (λ u. not (has_table u names)) t ts, h);
}

-- The tables of two demos.
abbrev sample_tables : Tables
sample_tables = "d01234567_cart" ∷ "d89abcdef_cart" ∷ []

drop_keeps_example :
    has_table
      ("d89abcdef_" <> "cart")
      (drop_prefixed_tables sample_mysql "demos" "d01234567_" sample_tables).1
    ≡ has_table ("d89abcdef_" <> "cart") sample_tables
unfolding is_valid_prefix
drop_keeps_example =
    drop_prefixed_tables_keeps sample_mysql "demos" "d01234567_" "d89abcdef_" "cart" sample_tables
      sample_mysql-IsDocumented refl refl

prefix_valid_example : is_valid_prefix (generate_db_prefix "0123abcd-89ab") ≡ true
unfolding begins_hex
prefix_valid_example = generate_db_prefix_valid "0123abcd-89ab" refl
