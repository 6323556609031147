-- ===== src/Tests/Config.antt =====
-- A configuration with some flags and some variables, one of which is no number.
use zk_os_monorepo.Base.{ℕ, ◌≡◌, refl, Option, none, some, List, [], ◌∷◌}
use zk_os_monorepo.Base.Bytes.{bytes_eq}
use zk_os_monorepo.Relayer.DryRun.{optimistic}
use zk_os_monorepo.Relayer.TokenKind.{TokenInfo}
use zk_os_monorepo.Relayer.Config.{
  Text, json, stateless, CliConfig, EnvVar, relayer_port_env, relayer_metrics_port_env,
  relayer_signing_keys_env, nonce_policy_env, quote_validity_env, ServerConfig, default_host,
  to_lowercase, parse_uint, parse_digits, parse_seconds, nonce_policy_from_str,
  logging_format_from_str, dry_running_from_str,
}
use zk_os_monorepo.Relayer.Config.Resolve.{
  split_commas, resolve_value_map, resolve_key_config, resolve_network_config, resolve_chain_config,
  resolve_operational_config, resolve_config_from_cli_config,
}
use zk_os_monorepo.Relayer.Config.Precedence.{
  unflagged, filled, resolve_config_from_cli_config-filled,
}

-- The port +80, a port for the metrics that is no number, the keys a and bc, and the rest.
abbrev env : EnvVar → Option Text
env relayer_port_env = some (43 ∷ 56 ∷ 48 ∷ [])
env relayer_metrics_port_env = some (57 ∷ 120 ∷ [])
env relayer_signing_keys_env = some (97 ∷ 44 ∷ 98 ∷ 99 ∷ [])
env nonce_policy_env = some (83 ∷ 116 ∷ 97 ∷ 116 ∷ 101 ∷ 76 ∷ 101 ∷ 115 ∷ 115 ∷ [])
env quote_validity_env = some (49 ∷ 49 ∷ [])
env _ = none

abbrev parse_u256 : Text → Option ℕ
parse_u256 s = some 7

abbrev tokens_from_str : Text → Option (List (TokenInfo ℕ))
tokens_from_str s = some []

abbrev address_from_str : Text → Option ℕ
address_from_str s = some 99

abbrev cli : CliConfig
cli = record {
  logging_format = some json;
  host = none;
  port = none;
  metrics_port = none;
  balance_monitor_interval = some 60;
  node_rpc_url = some (117 ∷ []);
  shielder_contract_address = some (99 ∷ []);
  fee_destination_key = some (107 ∷ []);
  signing_keys = none;
  nonce_policy = none;
  dry_running = some optimistic;
  recharge_threshold = none;
  recharge_amount = some 5;
  relay_gas = none;
  token_config = some (91 ∷ 93 ∷ []);
  price_feed_refresh_interval = none;
  price_feed_validity = some 15;
  service_fee_percent = none;
  quote_validity = none;
  max_pocket_money = some 12;
}

-- What the flags and the variables give; the port of the metrics is the default.
abbrev resolved : ServerConfig ℕ
resolved = record {
  logging_format = json;
  network = record { host = default_host; port = 80; metrics_port = 9615 };
  chain = record { node_rpc_url = 117 ∷ []; shielder_contract_address = 99; relay_gas = 2000000 };
  operations = record {
    balance_monitor_interval = 60;
    rpc_health_cache_validity = 10;
    nonce_policy = stateless;
    dry_running = optimistic;
    recharge_threshold = 7;
    recharge_amount = 5;
    token_config = [];
    price_feed_validity = 15;
    price_feed_refresh_interval = 60;
    service_fee_percent = 15;
    quote_validity = 11;
    max_pocket_money = 12;
  };
  keys = record { fee_destination_key = 107 ∷ []; signing_keys = (97 ∷ []) ∷ (98 ∷ 99 ∷ []) ∷ [] };
}

env_resolves :
    resolve_config_from_cli_config env parse_u256 tokens_from_str address_from_str cli
    ≡ some resolved
unfolding resolve_config_from_cli_config resolve_key_config resolve_network_config
    resolve_chain_config resolve_operational_config resolve_value_map split_commas to_lowercase
    parse_uint parse_digits parse_seconds nonce_policy_from_str logging_format_from_str
    dry_running_from_str bytes_eq
env_resolves = refl

resolve_config_from_cli_config-filled_example :
    resolve_config_from_cli_config
      (unflagged env)
      parse_u256
      tokens_from_str
      address_from_str
      (filled env parse_u256 cli)
    ≡ resolve_config_from_cli_config env parse_u256 tokens_from_str address_from_str cli
resolve_config_from_cli_config-filled_example =
    resolve_config_from_cli_config-filled env parse_u256 tokens_from_str address_from_str cli
