-- ===== src/Database.antt =====
-- internal/database/prestashop.go: the shop's tables. The MySQL server is a parameter: the statements
-- that the code sends, and the names of the tables that the server has. The columns that an UPDATE
-- sets are in the statement alone.
pub mod Like
pub mod Isolation
use try_it_now.Base.{
  ℕ, zero, suc, ◌≡◌, ◌↔◌, String, Bool, true, false, Option, none, some, List, [], ◌∷◌, ◌&&◌, ◌||◌,
  leb, ◌==◌, str_eq, contains, if◌then◌else◌,
}
use Prim.Native.Char.{code}
use Prim.Native.String
use try_it_now.Base.Text.{◌<>◌}

abbrev pub is_hex : ℕ → Bool
is_hex k = (leb b'0' k && leb k b'9') || (leb b'a' k && leb k b'f')

-- `[0-9a-f]{n}_$`
unfoldable pub is_hex_tail : ℕ → String → Bool
is_hex_tail zero s = str_eq s "_"
is_hex_tail (suc n) String.[] = false
is_hex_tail (suc n) (String.◌∷◌ c s) = is_hex (code c) && is_hex_tail n s

-- ValidPrefixPattern, `^d[0-9a-f]{8}_$`.
unfoldable pub is_valid_prefix : String → Bool
unfolding is_hex_tail
is_valid_prefix String.[] = false
is_valid_prefix (String.◌∷◌ c s) = code c == b'd' && is_hex_tail 8 s

-- What is executed; each carries the texts that the code puts into it.
pub data Statement : Type 0 where
  update_shop_url : String → String → Statement
  update_configuration : String → String → Statement
  truncate_table : String → Statement
  drop_if_exists : List String → Statement

-- What a query for table names comes to: an error, or rows that each scan or do not, and then whether
-- the iteration met an error.
pub data Rows : Type 0 where
  query_failed : Rows
  rows : List (Option String) → Bool → Rows

-- The tables of the schema, by their names.
abbrev pub Tables : Type 0
Tables = List String

pub record Mysql : Type 0 where
  -- Whether the statement succeeded.
  pub exec : Statement → Tables → Bool × Tables
  -- The names in the schema (first) that match a LIKE pattern (second).
  pub table_names : String → String → Tables → Rows

unfoldable pub update_domain : Mysql → String → String → Tables → Bool × Tables
update_domain m prefix domain ts =
    let (updated, ts₁) = m.exec (update_shop_url (prefix <> "shop_url") domain) ts in
    let configured = m.exec (update_configuration (prefix <> "configuration") domain) ts₁ in
    if is_valid_prefix prefix then (if updated then configured else (false, ts₁)) else (false, ts)

-- A cache table that cannot be truncated is passed over.
unfoldable pub clear_caches : Mysql → String → Tables → Bool × Tables
clear_caches m prefix ts =
    let ts₁ = (m.exec (truncate_table (prefix <> "smarty_cache")) ts).1 in
    let ts₂ = (m.exec (truncate_table (prefix <> "smarty_lazy_cache")) ts₁).1 in
    if is_valid_prefix prefix then (true, ts₂) else (false, ts)

-- The rows that scan.
abbrev pub scanned : List (Option String) → List String
scanned [] = []
scanned (none ∷ rest) = scanned rest
scanned (some name ∷ rest) = name ∷ scanned rest

-- DropPrefixedTables, from the names on; the backquotes around each are left to the statement.
abbrev pub drop_listed : Mysql → List String → Tables → Bool × Tables
drop_listed m [] ts = (true, ts)
drop_listed m (name ∷ names) ts = m.exec (drop_if_exists (name ∷ names)) ts

abbrev pub drop_rows : Mysql → Rows → Tables → Bool × Tables
drop_rows m query_failed ts = (false, ts)
drop_rows m (rows answered failed) ts =
    if failed then (false, ts) else drop_listed m (scanned answered) ts

unfoldable pub drop_prefixed_tables : Mysql → String → String → Tables → Bool × Tables
drop_prefixed_tables m schema prefix ts =
    let dropped = drop_rows m (m.table_names schema (prefix <> "%") ts) ts in
    if is_valid_prefix prefix then dropped else (false, ts)
