-- ===== src/DbConf.antt =====
-- persistence/dbconf.h: databases, key prefixes, and the encoding of database keys.
pub mod DbName
pub mod Prefix
pub mod Keys
