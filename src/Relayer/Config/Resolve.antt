-- ===== src/Relayer/Config/Resolve.antt =====
-- `resolve_config_from_cli_config` of crates/shielder-relayer/src/config/mod.rs. `none` is a panic. The
-- environment, and the parsers of U256, of addresses and of the JSON of the tokens, are parameters.
use zk_os_monorepo.Base.{ℕ, Option, none, some, List, [], ◌∷◌, ◌==◌, if◌then◌else◌}
use zk_os_monorepo.Base.Options.{◌>>=◌, first}
use zk_os_monorepo.Relayer.TokenKind.{TokenInfo}
use zk_os_monorepo.Relayer.Config.{
  Text, logging_format_from_str, nonce_policy_from_str, dry_running_from_str, parse_uint,
  parse_seconds, CliConfig, EnvVar, logging_format_env, relayer_host_env, relayer_port_env,
  relayer_metrics_port_env, balance_monitor_interval_env, rpc_health_cache_validity_env,
  fee_destination_key_env, relayer_signing_keys_env, node_rpc_url_env,
  shielder_contract_address_env, nonce_policy_env, dry_running_env, recharge_threshold_env,
  recharge_amount_env, relay_gas_env, price_feed_validity_env, price_feed_refresh_interval_env,
  token_config_env, service_fee_percent_env, quote_validity_env, max_pocket_money_env,
  NetworkConfig, ChainConfig, OperationalConfig, KeyConfig, ServerConfig, default_host,
  default_port, default_metrics_port, default_balance_monitor_interval,
  default_rpc_health_cache_validity, default_relay_gas, default_price_feed_validity,
  default_price_feed_refresh_interval, default_service_fee_percent, default_quote_validity,
  default_recharge_threshold, default_recharge_amount, default_max_pocket_money,
  default_logging_format, default_nonce_policy, default_dry_running,
}

-- `split(',')`: the pieces before, between and after the commas.
unfoldable pub split_commas : Text → List Text
split_commas [] = [] ∷ []
split_commas (c ∷ s) = elim (split_commas s) [
  | [] ↦ (c ∷ []) ∷ []
  | piece ∷ pieces ↦ if c == 44 then [] ∷ piece ∷ pieces else (c ∷ piece) ∷ pieces
]

-- `from_str` of String.
abbrev pub string_from_str : Text → Option Text
string_from_str s = some s

module _ (env : EnvVar → Option Text) where
  unfoldable pub resolve_value_map :
      {T : Type 0} → Option T → EnvVar → (Text → Option T) → Option T → Option T
  resolve_value_map value env_var parse default =
      first value (first (env env_var >>= parse) default)

  -- `resolve_value` passes `from_str` on.
  unfoldable pub resolve_key_config : CliConfig → Option KeyConfig
  unfolding resolve_value_map
  resolve_key_config cli = do
    signing_keys ←
        first cli.signing_keys (env relayer_signing_keys_env >>= λ keys. some (split_commas keys))
    fee_destination_key ←
        resolve_value_map cli.fee_destination_key fee_destination_key_env string_from_str none
    some (record { fee_destination_key = fee_destination_key; signing_keys = signing_keys })

  unfoldable pub resolve_network_config : CliConfig → Option NetworkConfig
  unfolding resolve_value_map
  resolve_network_config cli = do
    host ← resolve_value_map cli.host relayer_host_env string_from_str (some default_host)
    port ← resolve_value_map cli.port relayer_port_env (parse_uint 16) (some default_port)
    metrics_port ←
        resolve_value_map cli.metrics_port relayer_metrics_port_env (parse_uint 16)
          (some default_metrics_port)
    some (record { host = host; port = port; metrics_port = metrics_port })

  module _ (address_from_str : Text → Option ℕ) where
    unfoldable pub resolve_chain_config : CliConfig → Option ChainConfig
    unfolding resolve_value_map
    resolve_chain_config cli = do
      node_rpc_url ← resolve_value_map cli.node_rpc_url node_rpc_url_env string_from_str none
      contract ←
          resolve_value_map cli.shielder_contract_address shielder_contract_address_env
            string_from_str none
      shielder_contract_address ← address_from_str contract
      relay_gas ←
          resolve_value_map cli.relay_gas relay_gas_env (parse_uint 64) (some default_relay_gas)
      some (record {
        node_rpc_url = node_rpc_url;
        shielder_contract_address = shielder_contract_address;
        relay_gas = relay_gas;
      })

  module _ (parse_u256 : Text → Option ℕ) {Decimal : Type 0}
      (tokens_from_str : Text → Option (List (TokenInfo Decimal))) where
    unfoldable pub resolve_operational_config : CliConfig → Option (OperationalConfig Decimal)
    unfolding resolve_value_map
    resolve_operational_config cli = do
      config ← first cli.token_config (env token_config_env)
      token_config ← tokens_from_str config
      balance_monitor_interval ←
          resolve_value_map cli.balance_monitor_interval balance_monitor_interval_env parse_seconds
            (some default_balance_monitor_interval)
      rpc_health_cache_validity ←
          resolve_value_map none rpc_health_cache_validity_env parse_seconds
            (some default_rpc_health_cache_validity)
      nonce_policy ←
          resolve_value_map cli.nonce_policy nonce_policy_env nonce_policy_from_str
            (some default_nonce_policy)
      dry_running ←
          resolve_value_map cli.dry_running dry_running_env dry_running_from_str
            (some default_dry_running)
      threshold ← parse_u256 default_recharge_threshold
      recharge_threshold ←
          resolve_value_map cli.recharge_threshold recharge_threshold_env parse_u256
            (some threshold)
      amount ← parse_u256 default_recharge_amount
      recharge_amount ←
          resolve_value_map cli.recharge_amount recharge_amount_env parse_u256 (some amount)
      price_feed_validity ←
          resolve_value_map cli.price_feed_validity price_feed_validity_env parse_seconds
            (some default_price_feed_validity)
      price_feed_refresh_interval ←
          resolve_value_map cli.price_feed_refresh_interval price_feed_refresh_interval_env
            parse_seconds (some default_price_feed_refresh_interval)
      service_fee_percent ←
          resolve_value_map cli.service_fee_percent service_fee_percent_env (parse_uint 32)
            (some default_service_fee_percent)
      quote_validity ←
          resolve_value_map cli.quote_validity quote_validity_env parse_seconds
            (some default_quote_validity)
      pocket_money ← parse_u256 default_max_pocket_money
      max_pocket_money ←
          resolve_value_map cli.max_pocket_money max_pocket_money_env parse_u256 (some pocket_money)
      some (record {
        balance_monitor_interval = balance_monitor_interval;
        rpc_health_cache_validity = rpc_health_cache_validity;
        nonce_policy = nonce_policy;
        dry_running = dry_running;
        recharge_threshold = recharge_threshold;
        recharge_amount = recharge_amount;
        token_config = token_config;
        price_feed_validity = price_feed_validity;
        price_feed_refresh_interval = price_feed_refresh_interval;
        service_fee_percent = service_fee_percent;
        quote_validity = quote_validity;
        max_pocket_money = max_pocket_money;
      })

    module _ (address_from_str : Text → Option ℕ) where
      unfoldable pub resolve_config_from_cli_config : CliConfig → Option (ServerConfig Decimal)
      unfolding resolve_value_map
      resolve_config_from_cli_config cli = do
        keys ← resolve_key_config cli
        network ← resolve_network_config cli
        chain ← resolve_chain_config address_from_str cli
        operations ← resolve_operational_config cli
        logging_format ←
            resolve_value_map cli.logging_format logging_format_env logging_format_from_str
              (some default_logging_format)
        some (record {
          logging_format = logging_format;
          network = network;
          chain = chain;
          operations = operations;
          keys = keys;
        })
