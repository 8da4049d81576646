-- ===== src/Database/Isolation.antt =====
-- Which tables DropPrefixedTables drops, of one instance and of others (prestashop.go).
use try_it_now.Base.{
  ◌≡◌, refl, ◌∙◌, sym, String, Bool, true, false, Option, none, some, List, [], ◌∷◌, arith,
  contains, str_eq, eq_iff, Bool-cases, inl, inr,
}
use try_it_now.Base.Text.{◌<>◌}
use try_it_now.Database.{
  Mysql, drop_if_exists, Rows, query_failed, rows, Tables, scanned, drop_listed, drop_rows,
  drop_prefixed_tables, is_valid_prefix,
}
use try_it_now.Database.Like.{like, like_begins, prefix_of_like}

abbrev pub has_table : String → Tables → Bool
has_table = contains str_eq

-- Every row scans.
abbrev pub all_scan : List (Option String) → Bool
all_scan [] = true
all_scan (none ∷ rest) = false
all_scan (some name ∷ rest) = all_scan rest

-- What the code relies on: a query answers with the names that match the pattern, and DROP TABLE IF
-- EXISTS removes the tables that it names, all of them where it succeeds, and no other.
pub record IsDocumented (m : Mysql) : Type 0 where
  pub rows_match :
      (schema pattern : String) (ts : Tables) (answered : List (Option String)) (failed : Bool)
      (t : String)
      → m.table_names schema pattern ts ≡ rows answered failed
      → has_table t (scanned answered) ≡ true
      → like pattern t ≡ true
  pub matches_answered :
      (schema pattern : String) (ts : Tables) (answered : List (Option String)) (t : String)
      → m.table_names schema pattern ts ≡ rows answered false
      → all_scan answered ≡ true
      → like pattern t ≡ true
      → has_table t (scanned answered) ≡ has_table t ts
  pub drop_keeps :
      (names : List String) (ts : Tables) (t : String)
      → has_table t names ≡ false
      → has_table t (m.exec (drop_if_exists names) ts).1 ≡ has_table t ts
  pub drop_removes :
      (names : List String) (ts : Tables) (t : String)
      → (m.exec (drop_if_exists names) ts).0 ≡ true
      → has_table t names ≡ true
      → has_table t (m.exec (drop_if_exists names) ts).1 ≡ false

module _ (m : Mysql) (d : IsDocumented m) where
  drop_listed_keeps :
      (names : List String) (ts : Tables) (t : String)
      → has_table t names ≡ false
      → has_table t (drop_listed m names ts).1 ≡ has_table t ts
  drop_listed_keeps [] ts t h = refl
  drop_listed_keeps (name ∷ names) ts t h = d.drop_keeps (name ∷ names) ts t h

  drop_rows_keeps :
      (schema pattern : String) (ts : Tables) (t : String) (answer : Rows)
      → m.table_names schema pattern ts ≡ answer
      → like pattern t ≡ false
      → has_table t (drop_rows m answer ts).1 ≡ has_table t ts
  drop_rows_keeps schema pattern ts t query_failed e h = refl
  drop_rows_keeps schema pattern ts t (rows answered true) e h = refl
  drop_rows_keeps schema pattern ts t (rows answered false) e h =
      drop_listed_keeps (scanned answered) ts t
        (ground (arith, d.rows_match schema pattern ts answered false t e, h))

-- Dropping the tables with one prefix, valid or not, succeeding or not, removes no table that begins
-- with another valid prefix, though `_` is a wildcard in the pattern that finds the tables.
pub drop_prefixed_tables_keeps :
    (m : Mysql) (schema prefix other name : String) (ts : Tables)
    → IsDocumented m
    → is_valid_prefix other ≡ true
    → str_eq prefix other ≡ false
    → has_table (other <> name) (drop_prefixed_tables m schema prefix ts).1
      ≡ has_table (other <> name) ts
unfolding drop_prefixed_tables
drop_prefixed_tables_keeps m schema prefix other name ts d valid differ =
    elim (Bool-cases (is_valid_prefix prefix)) [
      | inl good ↦
          let unlike : like (prefix <> "%") (other <> name) ≡ false =
            ground (arith, prefix_of_like prefix other name good valid, eq_iff prefix other) in
          rw (good, drop_prefixed_tables)
            (drop_rows_keeps m d schema (prefix <> "%") ts (other <> name)
              (m.table_names schema (prefix <> "%") ts) refl unlike)
      | inr bad ↦ rw (bad, drop_prefixed_tables) refl
    ]

drop_rows_removes :
    (m : Mysql) (d : IsDocumented m) (schema pattern : String) (ts : Tables) (t : String)
    (answered : List (Option String)) (failed : Bool)
    → m.table_names schema pattern ts ≡ rows answered failed
    → all_scan answered ≡ true
    → (drop_rows m (rows answered failed) ts).0 ≡ true
    → like pattern t ≡ true
    → has_table t (drop_rows m (rows answered failed) ts).1 ≡ false
unfolding contains
drop_rows_removes m d schema pattern ts t answered true e scans done h = ground arith
drop_rows_removes m d schema pattern ts t answered false e scans done h =
    go (scanned answered) (d.matches_answered schema pattern ts answered t e scans h) done
  where
    go :
        (names : List String)
        → has_table t names ≡ has_table t ts
        → (drop_listed m names ts).0 ≡ true
        → has_table t (drop_listed m names ts).1 ≡ false
    go [] same done = sym same
    go (name ∷ names) same done = elim (Bool-cases (has_table t (name ∷ names))) [
      | inl there ↦ d.drop_removes (name ∷ names) ts t done there
      | inr not_there ↦ d.drop_keeps (name ∷ names) ts t not_there ∙ (sym same ∙ not_there)
    ]

-- Where every name that is found can be read, a drop that reports success has removed all the tables
-- that begin with the prefix.
pub drop_prefixed_tables_removes :
    (m : Mysql) (schema prefix name : String) (ts : Tables) (answered : List (Option String))
    (failed : Bool)
    → IsDocumented m
    → m.table_names schema (prefix <> "%") ts ≡ rows answered failed
    → all_scan answered ≡ true
    → (drop_prefixed_tables m schema prefix ts).0 ≡ true
    → has_table (prefix <> name) (drop_prefixed_tables m schema prefix ts).1 ≡ false
unfolding drop_prefixed_tables
drop_prefixed_tables_removes m schema prefix name ts answered failed d e scans done =
    elim (Bool-cases (is_valid_prefix prefix)) [
      | inl good ↦
          rw (good, e, drop_prefixed_tables)
            (drop_rows_removes m d schema (prefix <> "%") ts (prefix <> name) answered failed e
              scans (rw (good, e, drop_prefixed_tables) at done) (like_begins prefix name))
      | inr bad ↦ ground (arith, bad, done)
    ]
