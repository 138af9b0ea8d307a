-- ===== src/DbConf/Prefix.antt =====
-- `PrefixType` of persistence/dbconf.h: the key prefixes, their texts and their databases.
use Prim.Native.Char.{code}
use Prim.Native.String.{String}
use inery_persistent_memory.Base.{ℕ, List, [], ◌∷◌}
use inery_persistent_memory.DbConf.DbName.{DbName}

-- The bytes of a text.
abbrev pub codes : String → List ℕ
codes String.[] = []
codes (String.◌∷◌ c s) = code c ∷ codes s

pub data PrefixType : Type 0 where
  empty sys_param producer_fee cdp_param cdp_interest_params total_bps_size : PrefixType
  new_total_bps_size sys_govern govn_prop govn_approval_list : PrefixType
  axcout_proposal_txuid asset axc_coin_peertoself axc_coin_selftopeer : PrefixType
  block_index blockfile_num_info last_blockfile reindex finality_block flag : PrefixType
  best_blockhash txid_diskindex block_inflated_reward regid_keyid keyid_account : PrefixType
  contract_def contract_data contract_account contract_traces vote : PrefixType
  last_vote_height pending_delegates active_delegates regid_vote cdp cdp_inr : PrefixType
  user_cdp cdp_ratio_index cdp_height_index cdp_global_data closed_cdp_tx : PrefixType
  closed_tx_cdp dex_active_order dex_block_orders dex_operator_last_id : PrefixType
  dex_operator_detail dex_operator_owner_map dex_operator_trade_pair : PrefixType
  dex_quote_coin_symbol tx_execute_fail tx_receipt block_receipt tx_utxo : PrefixType
  utxo_pwsdprf median_prices price_feed_coin_pairs price_feeders axc_swap_in : PrefixType
  prefix_count : PrefixType

-- kPrefixNames, as bytes
unfoldable pub prefix_names : PrefixType → List ℕ
prefix_names empty = codes ""
prefix_names sys_param = codes "sysp"
prefix_names producer_fee = codes "minf"
prefix_names cdp_param = codes "cdpp"
prefix_names cdp_interest_params = codes "cips"
prefix_names total_bps_size = codes "bpsi"
prefix_names new_total_bps_size = codes "nbps"
prefix_names sys_govern = codes "govn"
prefix_names govn_prop = codes "pgvn"
prefix_names govn_approval_list = codes "galt"
prefix_names axcout_proposal_txuid = codes "aptu"
prefix_names asset = codes "asst"
prefix_names axc_coin_peertoself = codes "acps"
prefix_names axc_coin_selftopeer = codes "acsp"
prefix_names block_index = codes "bidx"
prefix_names blockfile_num_info = codes "bfni"
prefix_names last_blockfile = codes "ltbf"
prefix_names reindex = codes "ridx"
prefix_names finality_block = codes "finb"
prefix_names flag = codes "flag"
prefix_names best_blockhash = codes "bbkh"
prefix_names txid_diskindex = codes "tidx"
prefix_names block_inflated_reward = codes "bird"
prefix_names regid_keyid = codes "rkey"
prefix_names keyid_account = codes "idac"
prefix_names contract_def = codes "ucon"
prefix_names contract_data = codes "cdat"
prefix_names contract_account = codes "cacc"
prefix_names contract_traces = codes "ctrs"
prefix_names vote = codes "vote"
prefix_names last_vote_height = codes "lvht"
prefix_names pending_delegates = codes "pdds"
prefix_names active_delegates = codes "atds"
prefix_names regid_vote = codes "ridv"
prefix_names cdp = codes "cid"
prefix_names cdp_inr = codes "cbcn"
prefix_names user_cdp = codes "ucdp"
prefix_names cdp_ratio_index = codes "crid"
prefix_names cdp_height_index = codes "chid"
prefix_names cdp_global_data = codes "cgdt"
prefix_names closed_cdp_tx = codes "ctx"
prefix_names closed_tx_cdp = codes "txc"
prefix_names dex_active_order = codes "dato"
prefix_names dex_block_orders = codes "dbos"
prefix_names dex_operator_last_id = codes "doli"
prefix_names dex_operator_detail = codes "dode"
prefix_names dex_operator_owner_map = codes "doom"
prefix_names dex_operator_trade_pair = codes "dotp"
prefix_names dex_quote_coin_symbol = codes "dqcs"
prefix_names tx_execute_fail = codes "txef"
prefix_names tx_receipt = codes "txrc"
prefix_names block_receipt = codes "bkrc"
prefix_names tx_utxo = codes "utxo"
prefix_names utxo_pwsdprf = codes "pwdp"
prefix_names median_prices = codes "mdps"
prefix_names price_feed_coin_pairs = codes "pfcp"
prefix_names price_feeders = codes "pfdr"
prefix_names axc_swap_in = codes "axci"
prefix_names prefix_count = codes ""

-- kDbPrefix2DbName
unfoldable pub db_of_prefix : PrefixType → DbName
db_of_prefix empty = DbName.db_name_count
db_of_prefix sys_param = DbName.sysparam
db_of_prefix producer_fee = DbName.sysparam
db_of_prefix cdp_param = DbName.sysparam
db_of_prefix cdp_interest_params = DbName.sysparam
db_of_prefix total_bps_size = DbName.sysparam
db_of_prefix new_total_bps_size = DbName.sysparam
db_of_prefix sys_govern = DbName.sysgovern
db_of_prefix govn_prop = DbName.sysgovern
db_of_prefix govn_approval_list = DbName.sysgovern
db_of_prefix axcout_proposal_txuid = DbName.sysgovern
db_of_prefix asset = DbName.asset
db_of_prefix axc_coin_peertoself = DbName.asset
db_of_prefix axc_coin_selftopeer = DbName.asset
db_of_prefix block_index = DbName.block
db_of_prefix blockfile_num_info = DbName.block
db_of_prefix last_blockfile = DbName.block
db_of_prefix reindex = DbName.block
db_of_prefix finality_block = DbName.block
db_of_prefix flag = DbName.block
db_of_prefix best_blockhash = DbName.block
db_of_prefix txid_diskindex = DbName.block
db_of_prefix block_inflated_reward = DbName.block
db_of_prefix regid_keyid = DbName.account
db_of_prefix keyid_account = DbName.account
db_of_prefix contract_def = DbName.contract
db_of_prefix contract_data = DbName.contract
db_of_prefix contract_account = DbName.contract
db_of_prefix contract_traces = DbName.contract
db_of_prefix vote = DbName.delegate
db_of_prefix last_vote_height = DbName.delegate
db_of_prefix pending_delegates = DbName.delegate
db_of_prefix active_delegates = DbName.delegate
db_of_prefix regid_vote = DbName.delegate
db_of_prefix cdp = DbName.cdp
db_of_prefix cdp_inr = DbName.cdp
db_of_prefix user_cdp = DbName.cdp
db_of_prefix cdp_ratio_index = DbName.cdp
db_of_prefix cdp_height_index = DbName.cdp
db_of_prefix cdp_global_data = DbName.cdp
db_of_prefix closed_cdp_tx = DbName.closedcdp
db_of_prefix closed_tx_cdp = DbName.closedcdp
db_of_prefix dex_active_order = DbName.dex
db_of_prefix dex_block_orders = DbName.dex
db_of_prefix dex_operator_last_id = DbName.dex
db_of_prefix dex_operator_detail = DbName.dex
db_of_prefix dex_operator_owner_map = DbName.dex
db_of_prefix dex_operator_trade_pair = DbName.dex
db_of_prefix dex_quote_coin_symbol = DbName.dex
db_of_prefix tx_execute_fail = DbName.log
db_of_prefix tx_receipt = DbName.receipt
db_of_prefix block_receipt = DbName.receipt
db_of_prefix tx_utxo = DbName.utxo
db_of_prefix utxo_pwsdprf = DbName.utxo
db_of_prefix median_prices = DbName.pricefeed
db_of_prefix price_feed_coin_pairs = DbName.pricefeed
db_of_prefix price_feeders = DbName.pricefeed
db_of_prefix axc_swap_in = DbName.axc
db_of_prefix prefix_count = DbName.db_name_count

-- The place of an enumerator in the list.
unfoldable pub index : PrefixType → ℕ
index empty = 0
index sys_param = 1
index producer_fee = 2
index cdp_param = 3
index cdp_interest_params = 4
index total_bps_size = 5
index new_total_bps_size = 6
index sys_govern = 7
index govn_prop = 8
index govn_approval_list = 9
index axcout_proposal_txuid = 10
index asset = 11
index axc_coin_peertoself = 12
index axc_coin_selftopeer = 13
index block_index = 14
index blockfile_num_info = 15
index last_blockfile = 16
index reindex = 17
index finality_block = 18
index flag = 19
index best_blockhash = 20
index txid_diskindex = 21
index block_inflated_reward = 22
index regid_keyid = 23
index keyid_account = 24
index contract_def = 25
index contract_data = 26
index contract_account = 27
index contract_traces = 28
index vote = 29
index last_vote_height = 30
index pending_delegates = 31
index active_delegates = 32
index regid_vote = 33
index cdp = 34
index cdp_inr = 35
index user_cdp = 36
index cdp_ratio_index = 37
index cdp_height_index = 38
index cdp_global_data = 39
index closed_cdp_tx = 40
index closed_tx_cdp = 41
index dex_active_order = 42
index dex_block_orders = 43
index dex_operator_last_id = 44
index dex_operator_detail = 45
index dex_operator_owner_map = 46
index dex_operator_trade_pair = 47
index dex_quote_coin_symbol = 48
index tx_execute_fail = 49
index tx_receipt = 50
index block_receipt = 51
index tx_utxo = 52
index utxo_pwsdprf = 53
index median_prices = 54
index price_feed_coin_pairs = 55
index price_feeders = 56
index axc_swap_in = 57
index prefix_count = 58

-- The enumerators in the order of the list.
abbrev pub prefix_list : List PrefixType
prefix_list =
    empty ∷ sys_param ∷ producer_fee ∷ cdp_param ∷ cdp_interest_params ∷ total_bps_size
    ∷ new_total_bps_size ∷ sys_govern ∷ govn_prop ∷ govn_approval_list ∷ axcout_proposal_txuid
    ∷ asset ∷ axc_coin_peertoself ∷ axc_coin_selftopeer ∷ block_index ∷ blockfile_num_info
    ∷ last_blockfile ∷ reindex ∷ finality_block ∷ flag ∷ best_blockhash ∷ txid_diskindex
    ∷ block_inflated_reward ∷ regid_keyid ∷ keyid_account ∷ contract_def ∷ contract_data
    ∷ contract_account ∷ contract_traces ∷ vote ∷ last_vote_height ∷ pending_delegates
    ∷ active_delegates ∷ regid_vote ∷ cdp ∷ cdp_inr ∷ user_cdp ∷ cdp_ratio_index ∷ cdp_height_index
    ∷ cdp_global_data ∷ closed_cdp_tx ∷ closed_tx_cdp ∷ dex_active_order ∷ dex_block_orders
    ∷ dex_operator_last_id ∷ dex_operator_detail ∷ dex_operator_owner_map ∷ dex_operator_trade_pair
    ∷ dex_quote_coin_symbol ∷ tx_execute_fail ∷ tx_receipt ∷ block_receipt ∷ tx_utxo ∷ utxo_pwsdprf
    ∷ median_prices ∷ price_feed_coin_pairs ∷ price_feeders ∷ axc_swap_in ∷ prefix_count ∷ []
