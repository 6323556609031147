-- ===== src/Relayer/Config.antt =====
-- crates/shielder-relayer/src/config: enums.rs, defaults.rs, cli.rs and the records of mod.rs, and the
-- names of src/environment_variables.rs. A text is a list of code points, and a duration its seconds.
-- A letter outside ASCII never has one of the words below as its lower case, so that only A to Z are
-- lowered.
pub mod Resolve
pub mod Precedence
use zk_os_monorepo.Base.{
  ℕ, ◌+◌, ◌-◌, ◌*◌, ◌^◌, ◌&&◌, Option, none, some, List, [], ◌∷◌, map, leb, ltb, ◌==◌,
  if◌then◌else◌,
}
use zk_os_monorepo.Base.Options.{◌>>=◌}
use zk_os_monorepo.Base.Bytes.{bytes_eq}
use zk_os_monorepo.Relayer.DryRun.{DryRunning, always, optimistic}
use zk_os_monorepo.Relayer.TokenKind.{TokenInfo}

abbrev pub Text : Type 0
Text = List ℕ

pub data LoggingFormat : Type 0 where
  text json : LoggingFormat

pub data NoncePolicy : Type 0 where
  caching stateless : NoncePolicy

unfoldable pub to_lowercase : Text → Text
to_lowercase s = map (λ c. if leb 65 c && leb c 90 then c + 32 else c) s

abbrev pub text_word : Text
text_word = 116 ∷ 101 ∷ 120 ∷ 116 ∷ []

abbrev pub json_word : Text
json_word = 106 ∷ 115 ∷ 111 ∷ 110 ∷ []

abbrev pub caching_word : Text
caching_word = 99 ∷ 97 ∷ 99 ∷ 104 ∷ 105 ∷ 110 ∷ 103 ∷ []

abbrev pub stateless_word : Text
stateless_word = 115 ∷ 116 ∷ 97 ∷ 116 ∷ 101 ∷ 108 ∷ 101 ∷ 115 ∷ 115 ∷ []

abbrev pub always_word : Text
always_word = 97 ∷ 108 ∷ 119 ∷ 97 ∷ 121 ∷ 115 ∷ []

abbrev pub optimistic_word : Text
optimistic_word = 111 ∷ 112 ∷ 116 ∷ 105 ∷ 109 ∷ 105 ∷ 115 ∷ 116 ∷ 105 ∷ 99 ∷ []

unfoldable pub logging_format_from_str : Text → Option LoggingFormat
unfolding to_lowercase
logging_format_from_str s =
    let lower = to_lowercase s in
    if bytes_eq lower text_word
    then some text
    else if bytes_eq lower json_word
    then some json
    else none

unfoldable pub nonce_policy_from_str : Text → Option NoncePolicy
unfolding to_lowercase
nonce_policy_from_str s =
    let lower = to_lowercase s in
    if bytes_eq lower caching_word
    then some caching
    else if bytes_eq lower stateless_word
    then some stateless
    else none

unfoldable pub dry_running_from_str : Text → Option DryRunning
unfolding to_lowercase
dry_running_from_str s =
    let lower = to_lowercase s in
    if bytes_eq lower always_word
    then some always
    else if bytes_eq lower optimistic_word
    then some optimistic
    else none

-- The digits after some number, as long as it is below a bound.
unfoldable pub parse_digits : ℕ → ℕ → Text → Option ℕ
parse_digits bound value [] = some value
parse_digits bound value (c ∷ s) =
    let next = value * 10 + (c - 48) in
    let rest = parse_digits bound next s in
    if leb 48 c && leb c 57 && ltb next bound then rest else none

-- `from_str` of u16, u32 and u64: digits, one at least, after a plus sign or not.
unfoldable pub parse_uint : ℕ → Text → Option ℕ
unfolding parse_digits
parse_uint bits [] = none
parse_uint bits (c ∷ []) = parse_digits (2 ^ bits) 0 (c ∷ [])
parse_uint bits (c ∷ d ∷ s) =
    if c == 43 then parse_digits (2 ^ bits) 0 (d ∷ s) else parse_digits (2 ^ bits) 0 (c ∷ d ∷ s)

unfoldable pub parse_seconds : Text → Option ℕ
unfolding parse_uint
parse_seconds s = parse_uint 64 s

-- What clap parsed.
pub record CliConfig : Type 0 where
  pub logging_format : Option LoggingFormat
  pub host : Option Text
  pub port : Option ℕ
  pub metrics_port : Option ℕ
  pub balance_monitor_interval : Option ℕ
  pub node_rpc_url : Option Text
  pub shielder_contract_address : Option Text
  pub fee_destination_key : Option Text
  pub signing_keys : Option (List Text)
  pub nonce_policy : Option NoncePolicy
  pub dry_running : Option DryRunning
  pub recharge_threshold : Option ℕ
  pub recharge_amount : Option ℕ
  pub relay_gas : Option ℕ
  pub token_config : Option Text
  pub price_feed_refresh_interval : Option ℕ
  pub price_feed_validity : Option ℕ
  pub service_fee_percent : Option ℕ
  pub quote_validity : Option ℕ
  pub max_pocket_money : Option ℕ

pub data EnvVar : Type 0 where
  logging_format_env relayer_host_env relayer_port_env relayer_metrics_port_env : EnvVar
  balance_monitor_interval_env rpc_health_cache_validity_env fee_destination_key_env : EnvVar
  relayer_signing_keys_env node_rpc_url_env shielder_contract_address_env : EnvVar
  nonce_policy_env dry_running_env recharge_threshold_env recharge_amount_env : EnvVar
  relay_gas_env price_feed_validity_env price_feed_refresh_interval_env : EnvVar
  token_config_env service_fee_percent_env quote_validity_env max_pocket_money_env : EnvVar

pub record NetworkConfig : Type 0 where
  pub host : Text
  pub port : ℕ
  pub metrics_port : ℕ

pub record ChainConfig : Type 0 where
  pub node_rpc_url : Text
  pub shielder_contract_address : ℕ
  pub relay_gas : ℕ

pub record OperationalConfig (Decimal : Type 0) : Type 0 where
  pub balance_monitor_interval : ℕ
  pub rpc_health_cache_validity : ℕ
  pub nonce_policy : NoncePolicy
  pub dry_running : DryRunning
  pub recharge_threshold : ℕ
  pub recharge_amount : ℕ
  pub token_config : List (TokenInfo Decimal)
  pub price_feed_validity : ℕ
  pub price_feed_refresh_interval : ℕ
  pub service_fee_percent : ℕ
  pub quote_validity : ℕ
  pub max_pocket_money : ℕ

pub record KeyConfig : Type 0 where
  pub fee_destination_key : Text
  pub signing_keys : List Text

pub record ServerConfig (Decimal : Type 0) : Type 0 where
  pub logging_format : LoggingFormat
  pub network : NetworkConfig
  pub chain : ChainConfig
  pub operations : OperationalConfig Decimal
  pub keys : KeyConfig

-- 0.0.0.0
abbrev pub default_host : Text
default_host = 48 ∷ 46 ∷ 48 ∷ 46 ∷ 48 ∷ 46 ∷ 48 ∷ []

-- 2_000_000_000_000_000_000
abbrev pub default_recharge_threshold : Text
default_recharge_threshold =
    50 ∷ 95 ∷ 48 ∷ 48 ∷ 48 ∷ 95 ∷ 48 ∷ 48 ∷ 48 ∷ 95 ∷ 48 ∷ 48 ∷ 48 ∷ 95 ∷ 48 ∷ 48 ∷ 48 ∷ 95 ∷ 48
    ∷ 48 ∷ 48 ∷ 95 ∷ 48 ∷ 48 ∷ 48 ∷ []

-- 20_000_000_000_000_000_000
abbrev pub default_recharge_amount : Text
default_recharge_amount =
    50 ∷ 48 ∷ 95 ∷ 48 ∷ 48 ∷ 48 ∷ 95 ∷ 48 ∷ 48 ∷ 48 ∷ 95 ∷ 48 ∷ 48 ∷ 48 ∷ 95 ∷ 48 ∷ 48 ∷ 48 ∷ 95
    ∷ 48 ∷ 48 ∷ 48 ∷ 95 ∷ 48 ∷ 48 ∷ 48 ∷ []

-- 100_000_000_000_000_000
abbrev pub default_max_pocket_money : Text
default_max_pocket_money =
    49 ∷ 48 ∷ 48 ∷ 95 ∷ 48 ∷ 48 ∷ 48 ∷ 95 ∷ 48 ∷ 48 ∷ 48 ∷ 95 ∷ 48 ∷ 48 ∷ 48 ∷ 95 ∷ 48 ∷ 48 ∷ 48
    ∷ 95 ∷ 48 ∷ 48 ∷ 48 ∷ []

abbrev pub default_port : ℕ
default_port = 4141

abbrev pub default_metrics_port : ℕ
default_metrics_port = 9615

abbrev pub default_balance_monitor_interval : ℕ
default_balance_monitor_interval = 15

abbrev pub default_rpc_health_cache_validity : ℕ
default_rpc_health_cache_validity = 10

abbrev pub default_relay_gas : ℕ
default_relay_gas = 2000000

abbrev pub default_price_feed_validity : ℕ
default_price_feed_validity = 600

abbrev pub default_price_feed_refresh_interval : ℕ
default_price_feed_refresh_interval = 60

abbrev pub default_service_fee_percent : ℕ
default_service_fee_percent = 15

abbrev pub default_quote_validity : ℕ
default_quote_validity = 15

abbrev pub default_logging_format : LoggingFormat
default_logging_format = text

abbrev pub default_nonce_policy : NoncePolicy
default_nonce_policy = caching

abbrev pub default_dry_running : DryRunning
default_dry_running = always
