-- ===== src/DbConf/DbName.antt =====
-- `DBNameType` of persistence/dbconf.h: the databases, their names and their cache sizes.
use inery_persistent_memory.Base.{ℕ, ◌*◌, ◌^◌, Option, none, some}
use Prim.Native.String.{String}

pub data DbName : Type 0 where
  sysparam account asset block contract delegate cdp closedcdp dex log receipt : DbName
  utxo sysgovern pricefeed axc db_name_count : DbName

-- DB_NAME_NONE
abbrev pub db_name_none : DbName
db_name_none = db_name_count

-- kDbNames
pub db_names : DbName → String
db_names sysparam = "params"
db_names account = "accounts"
db_names asset = "assets"
db_names block = "blocks"
db_names contract = "contracts"
db_names delegate = "delegates"
db_names cdp = "cdps"
db_names closedcdp = "closedcdps"
db_names dex = "dexes"
db_names log = "logs"
db_names receipt = "receipts"
db_names utxo = "utxo"
db_names sysgovern = "governs"
db_names pricefeed = "pricefeed"
db_names axc = "axc"
db_names db_name_count = ""

-- kDBCacheSizeMap
pub db_cache_size : DbName → ℕ
db_cache_size sysparam = 50 * 2 ^ 10
db_cache_size account = 50 * 2 ^ 20
db_cache_size asset = 100 * 2 ^ 10
db_cache_size block = 500 * 2 ^ 10
db_cache_size contract = 50 * 2 ^ 20
db_cache_size delegate = 100 * 2 ^ 10
db_cache_size cdp = 50 * 2 ^ 20
db_cache_size closedcdp = 1 * 2 ^ 20
db_cache_size dex = 50 * 2 ^ 20
db_cache_size log = 100 * 2 ^ 10
db_cache_size receipt = 100 * 2 ^ 10
db_cache_size utxo = 50 * 2 ^ 20
db_cache_size sysgovern = 100 * 2 ^ 10
db_cache_size pricefeed = 50 * 2 ^ 10
db_cache_size axc = 50 * 2 ^ 10
db_cache_size db_name_count = 0

-- GetDbName, whose assertion refuses the count; `none` is a failed assertion.
pub get_db_name : DbName → Option String
unfolding db_names
get_db_name db_name_count = none
get_db_name n = some (db_names n)
