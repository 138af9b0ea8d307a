-- ===== src/Lib.antt =====
-- Verification of the persistence layer of the Inery blockchain (persistence/*.h, persistence/*.cpp).
--
-- The parts and how they interact. A node keeps its state in LevelDB databases. Above a database
-- stand caches, one for each prefix of keys, and above a cache further caches (of a block, of a
-- transaction), each with the one below as its base. A read looks in the map of its cache, then
-- in the bases, then in the database, and keeps a copy of what it found in every cache it came
-- through; a write changes the map of its own cache only, and first logs the old value; an erasure
-- is a write of an empty value. A flush moves the map of a cache into its base or, as one batch,
-- into the database. The logs of the transactions of a block undo the block.
--
-- Files and the code they are about:
--   Base, StdMap, Serialize: numbers, bytes, std::map as the caches use it (a list of entries in
--     the order of operator<), and the interface to basics/serialize.h.
--   DbConf: persistence/dbconf.h, the databases (DbName), the prefixes (PrefixType, prefix_names)
--     and the keys (GenDbKey is gen_db_key, ParseDbKey is parse_db_key).
--   LevelDb: persistence/leveldbwrapper.h and .cpp, and CDBAccess of persistence/dbaccess.h. A
--     database is any type with a read and a batched write.
--   OpLog: CDbOpLog and CDBOpLogMap of persistence/leveldbwrapper.h.
--   Composite: IneryCompositeKVCache of persistence/dbaccess.h. A Cache is a layer over nothing,
--     over a database or over a cache; a Session is a cache with its log map. Its operations have
--     the names of the source (GetDataIt is get_data_it, SetDataToSelf is set_data_to_self), where
--     GetData and HasData are cache_get_data and cache_has_data. View says what a cache shows.
--   Simple: InerySimpleKVCache of persistence/dbaccess.h, with the same names after simple_.
--   DbIterator: persistence/dbiterator.h. The virtual functions are a record (Iterator);
--     CDBAccessIterator is db_iterator, CDBCacheIteratorImpl with its CCacheMapIterator is
--     merge_iterator, and Create is create. Prefix is CDBPrefixIterator.
--   BlockUndo: persistence/blockundo.h and .cpp, the logger around a transaction and the executor.
--   PriceFeed: IneryConsecutiveBlockPrice and IneryPricePointMemCache of persistence/pricefeeddb.h
--     and .cpp. The caches above each other are a list of their maps, the first on top. Median is
--     the computation of the median prices, Blocks the blocks that enter and leave the window,
--     where a chain of block indexes is a list with the tip first. Cache is IneryPriceFeedCache.
--   DbUtil: db_util of persistence/dbaccess.h. A tuple is a pair nested to the right.
--   TxCache: IneryTxMemCache of persistence/txdb.h and .cpp, with its bases as a list of maps.
--   Delegates: IneryDelegateDBCache of persistence/delegatedb.h and .cpp. An operation takes the
--     cache that it calls.
--   Cdp: IneryCdpDBCache of persistence/cdpdb.h and .cpp as a record of its caches (CdpDb), and
--     CClosedCdpDBCache in Cdp/Inr. Calls in sequence are and_then and and_also.
--   Accounts: IneryAccountDBCache of persistence/accountdb.h and .cpp. The overloads by the kind of
--     id have names with of_key and of_reg.
--   SysParam: InerySysParamDBCache of persistence/sysparamdb.h; Changes says which interest is in
--     force at which height. The tables of defaults are parameters.
--   Governance: InerySysGovernDBCache of persistence/sysgoverndb.h.
--   Tests: sample databases and caches, and the theorems at them.
--
-- How the state is passed: an operation takes a cache and returns its result with the cache. A
-- result is a Lookup (found, absent, or an exception) or an Outcome (a value or an exception);
-- assertions that fail are exceptions. A cache owns the model of its base, so a base with two
-- caches above it, both in use, is not modelled.
-- The caches of one object share a map of logs, in which each prefix has its own list; here each
-- cache carries the map.
--
-- Bounds and fuel: the size counter is a number below 2 ^ 32 with the wrap-around written out. The
-- loop of ProcessData over empty values runs on fuel; a step of it takes an entry from the map or
-- from the iterator below, so a fuel above the number of all entries is enough, and it is enough
-- for the loops over an iterator in Delegates and Accounts too. The loop of GetTopVoteDelegates
-- counts down the delegates that are still wanted, the loop of ComputeBlockMedianPrice the height.
-- All other loops are structural. Amounts, prices and totals are numbers below 2 ^ 64 with the
-- wrap-around written out, a difference as the sum with 2 ^ 64 less the subtrahend.
--
-- Parameters: LevelDB (a write that succeeds has applied its batch in order; NewIterator lists the
-- entries in the order of the bytes of their keys), the serialization of a type (what was written
-- is read back), and for each key type its order and for each value type its empty value; the
-- objects of objects/*.h (regids, accounts, assets) by the fields and functions that the caches
-- use; the arithmetic of the collateral ratio of a position (RatioOps), whose type is there too; the constants of the configuration; the blocks that are read from the disk. The
-- theorem on iterators asks that the entries of a prefix stand in the order of their keys, since
-- the byte order of serialized keys is not in the repository.
--
-- Not modelled: log lines and error texts; the build option DB_OP_LOG_NEW_VALUE, which is off; the
-- copy assignments; file I/O; GetCdpListByCollateralRatio, which computes with floating-point
-- numbers; iterators over a prefix of several components or over part of a text; the calls of an
-- object that go through to each of its caches (Flush, GetCacheSize, SetBaseViewPtr and the like),
-- and CCacheWrapper, which holds all of them; the caches of the other kinds of records (assets,
-- contracts, orders and the others), which are built from the caches here. LevelDB itself is a third-party library.
pub mod Base
pub mod StdMap
pub mod Serialize
pub mod DbConf
pub mod LevelDb
pub mod OpLog
pub mod DbUtil
pub mod Composite
pub mod DbIterator
pub mod Simple
pub mod BlockUndo
pub mod Delegates
pub mod Cdp
pub mod Accounts
pub mod PriceFeed
pub mod TxCache
pub mod SysParam
pub mod Governance
mod Tests
