-- ===== src/Tests/KeyTests.antt =====
-- The theorems on database keys at sample keys.
use inery_persistent_memory.Base.{ℕ, ◌≡◌, ◌≢◌, refl, bytes_eq}
use inery_persistent_memory.DbConf.Prefix.{vote, cdp, prefix_names, prefix_count}
use inery_persistent_memory.DbConf.Keys.{
  is_key_prefix, parse_key_prefix_type, parse_key_prefix_type-prefix_names, gen_db_key,
  parse_db_key, parsed, gen_db_key_lem,
}
use inery_persistent_memory.Tests.Samples.{nat_codec}

vote≢count : vote ≢ prefix_count
vote≢count e = cc

parse_key_prefix_type-prefix_names_example : parse_key_prefix_type (prefix_names vote) ≡ vote
parse_key_prefix_type-prefix_names_example = parse_key_prefix_type-prefix_names vote vote≢count

vote≢cdp_names : vote ≢ cdp
vote≢cdp_names e = cc

gen_db_key_lem_example :
    (parse_db_key {K = ℕ} vote (gen_db_key {K = ℕ} vote 7) ≡ parsed 7)
    × (gen_db_key {K = ℕ} vote 7 ≢ gen_db_key {K = ℕ} cdp 7)
unfolding is_key_prefix bytes_eq
gen_db_key_lem_example = gen_db_key_lem vote cdp 7 7 refl refl vote≢cdp_names
