-- ===== src/Relayer/Config/Precedence.antt =====
-- The precedence that the documentation of ServerConfig in
-- crates/shielder-relayer/src/config/mod.rs names.
use zk_os_monorepo.Base.{ℕ, ◌≡◌, refl, Option, none, some, List}
use zk_os_monorepo.Base.Options.{◌>>=◌, first}
use zk_os_monorepo.Relayer.TokenKind.{TokenInfo}
use zk_os_monorepo.Relayer.Config.{
  Text, logging_format_from_str, nonce_policy_from_str, dry_running_from_str, parse_uint,
  parse_seconds, CliConfig, EnvVar, logging_format_env, relayer_host_env, relayer_port_env,
  relayer_metrics_port_env, balance_monitor_interval_env, rpc_health_cache_validity_env,
  fee_destination_key_env, relayer_signing_keys_env, node_rpc_url_env,
  shielder_contract_address_env, nonce_policy_env, dry_running_env, recharge_threshold_env,
  recharge_amount_env, relay_gas_env, price_feed_validity_env, price_feed_refresh_interval_env,
  token_config_env, service_fee_percent_env, quote_validity_env, max_pocket_money_env,
}
use zk_os_monorepo.Relayer.Config.Resolve.{
  split_commas, string_from_str, resolve_key_config, resolve_network_config, resolve_chain_config,
  resolve_operational_config, resolve_config_from_cli_config,
}

first_assoc : {A : Type 0} (a b c : Option A) → first (first a b) c ≡ first a (first b c)
first_assoc none b c = refl
first_assoc (some x) b c = refl

first-none : {A : Type 0} (a : Option A) → first a none ≡ a
first-none none = refl
first-none (some x) = refl

module _ (env : EnvVar → Option Text) where
  -- The environment without what has a flag.
  abbrev pub unflagged : EnvVar → Option Text
  unflagged rpc_health_cache_validity_env = env rpc_health_cache_validity_env
  unflagged _ = none

  -- The flags, with what the environment has for those that are missing.
  abbrev pub filled : (Text → Option ℕ) → CliConfig → CliConfig
  filled parse_u256 cli = record {
    logging_format = first cli.logging_format (env logging_format_env >>= logging_format_from_str);
    host = first cli.host (env relayer_host_env >>= string_from_str);
    port = first cli.port (env relayer_port_env >>= parse_uint 16);
    metrics_port = first cli.metrics_port (env relayer_metrics_port_env >>= parse_uint 16);
    balance_monitor_interval =
        first cli.balance_monitor_interval (env balance_monitor_interval_env >>= parse_seconds);
    node_rpc_url = first cli.node_rpc_url (env node_rpc_url_env >>= string_from_str);
    shielder_contract_address =
        first cli.shielder_contract_address (env shielder_contract_address_env >>= string_from_str);
    fee_destination_key =
        first cli.fee_destination_key (env fee_destination_key_env >>= string_from_str);
    signing_keys =
        first cli.signing_keys (env relayer_signing_keys_env >>= λ keys. some (split_commas keys));
    nonce_policy = first cli.nonce_policy (env nonce_policy_env >>= nonce_policy_from_str);
    dry_running = first cli.dry_running (env dry_running_env >>= dry_running_from_str);
    recharge_threshold = first cli.recharge_threshold (env recharge_threshold_env >>= parse_u256);
    recharge_amount = first cli.recharge_amount (env recharge_amount_env >>= parse_u256);
    relay_gas = first cli.relay_gas (env relay_gas_env >>= parse_uint 64);
    token_config = first cli.token_config (env token_config_env);
    price_feed_refresh_interval =
        first cli.price_feed_refresh_interval
          (env price_feed_refresh_interval_env >>= parse_seconds);
    price_feed_validity =
        first cli.price_feed_validity (env price_feed_validity_env >>= parse_seconds);
    service_fee_percent =
        first cli.service_fee_percent (env service_fee_percent_env >>= parse_uint 32);
    quote_validity = first cli.quote_validity (env quote_validity_env >>= parse_seconds);
    max_pocket_money = first cli.max_pocket_money (env max_pocket_money_env >>= parse_u256);
  }

  key_config_lem :
      (parse_u256 : Text → Option ℕ) (cli : CliConfig)
      → resolve_key_config unflagged (filled parse_u256 cli) ≡ resolve_key_config env cli
  unfolding resolve_key_config
  key_config_lem parse_u256 cli = simp (first_assoc, first-none)

  network_config_lem :
      (parse_u256 : Text → Option ℕ) (cli : CliConfig)
      → resolve_network_config unflagged (filled parse_u256 cli) ≡ resolve_network_config env cli
  unfolding resolve_network_config
  network_config_lem parse_u256 cli = simp first_assoc

  chain_config_lem :
      (address_from_str parse_u256 : Text → Option ℕ) (cli : CliConfig)
      → resolve_chain_config unflagged address_from_str (filled parse_u256 cli)
        ≡ resolve_chain_config env address_from_str cli
  unfolding resolve_chain_config
  chain_config_lem address_from_str parse_u256 cli = simp (first_assoc, first-none)

  module _ (parse_u256 : Text → Option ℕ) {Decimal : Type 0}
      (tokens_from_str : Text → Option (List (TokenInfo Decimal))) where
    operational_config_lem :
        (cli : CliConfig)
        → resolve_operational_config unflagged parse_u256 tokens_from_str (filled parse_u256 cli)
          ≡ resolve_operational_config env parse_u256 tokens_from_str cli
    unfolding resolve_operational_config
    operational_config_lem cli = simp (first_assoc, first-none)

    -- An environment variable counts exactly as the flag that it stands for: the relayer resolves the
    -- same configuration, or panics the same, when the values that the environment has for the missing
    -- flags, as far as they parse, are given as flags, and all variables that have a flag are unset.
    pub resolve_config_from_cli_config-filled :
        (address_from_str : Text → Option ℕ) (cli : CliConfig)
        → resolve_config_from_cli_config unflagged parse_u256 tokens_from_str address_from_str
            (filled parse_u256 cli)
          ≡ resolve_config_from_cli_config env parse_u256 tokens_from_str address_from_str cli
    unfolding resolve_config_from_cli_config
    resolve_config_from_cli_config-filled address_from_str cli =
        rw (key_config_lem parse_u256 cli) (
          rw (network_config_lem parse_u256 cli) (
            rw (chain_config_lem address_from_str parse_u256 cli)
              (rw (operational_config_lem cli) (simp first_assoc))))
