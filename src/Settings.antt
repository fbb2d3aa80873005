-- ===== src/Settings.antt =====
-- Settings of the network: backend/internal/download/settings.go.
pub mod Kept
pub mod Tests
pub mod Restricted
use downpeed_fluter.Base.{
  ℕ, ◌+◌, Bool, true, false, not, ◌&&◌, ◌||◌, ◌==◌, ltb, any, [], ◌∷◌, ℤ, pos, ltb_ℤ, eqb_ℤ,
  if◌then◌else◌, Text, Outcome, ok, err,
}
use downpeed_fluter.Errors.{DownloadError, invalid_proxy_settings, invalid_bt_policy}
use downpeed_fluter.Task.{BtPolicySettings}
use downpeed_fluter.Strings.{is_empty, trim_space}

pub data ProxyMode : Type 0 where
  direct system http_proxy socks5 : ProxyMode
  other_mode : Text → ProxyMode

pub record ProxySettings : Type 0 where
  pub mode : ProxyMode
  pub host : Text
  pub port : ℤ
  pub username : Text
  pub connect_timeout_seconds : ℤ
  pub response_header_timeout_seconds : ℤ

abbrev pub default_proxy_settings : ProxySettings
default_proxy_settings = record {
  mode = direct;
  host = [];
  port = pos 0;
  username = [];
  connect_timeout_seconds = pos 10;
  response_header_timeout_seconds = pos 30;
}

abbrev pub is_no_mode : ProxyMode → Bool
is_no_mode (other_mode name) = is_empty name
is_no_mode _ = false

-- input == ProxySettings{}
abbrev pub is_zero_proxy : ProxySettings → Bool
is_zero_proxy p =
    is_no_mode p.mode
    && is_empty p.host
    && eqb_ℤ p.port (pos 0)
    && is_empty p.username
    && eqb_ℤ p.connect_timeout_seconds (pos 0)
    && eqb_ℤ p.response_header_timeout_seconds (pos 0)

abbrev pub is_known_mode : ProxyMode → Bool
is_known_mode (other_mode name) = false
is_known_mode _ = true

abbrev pub needs_host : ProxyMode → Bool
needs_host http_proxy = true
needs_host socks5 = true
needs_host _ = false

-- The bytes of a code point in UTF-8, and those of a text, which is what len counts.
abbrev pub byte_width : ℕ → ℕ
byte_width c = if ltb c 0x80 then 1 else if ltb c 0x800 then 2 else if ltb c 0x10000 then 3 else 4

unfoldable pub byte_length : Text → ℕ
byte_length [] = 0
byte_length (c ∷ s) = byte_width c + byte_length s

abbrev pub is_control_character : ℕ → Bool
is_control_character c = ltb c 0x20 || c == 0x7f

-- One of /?#@, the first of which is in every "://" too.
abbrev pub is_url_character : ℕ → Bool
is_url_character c = c == b'/' || c == b'?' || c == b'#' || c == b'@'

abbrev pub between : ℤ → ℤ → ℤ → Bool
between low high value = not (ltb_ℤ value low) && not (ltb_ℤ high value)

-- The checks, for trimmed texts.
abbrev pub checked_proxy : ProxySettings → Outcome DownloadError ProxySettings
checked_proxy p =
    if not (is_known_mode p.mode)
    then err invalid_proxy_settings
    else if ltb 253 (byte_length p.host)
        || any is_url_character p.host
        || any is_control_character p.host
    then err invalid_proxy_settings
    else if ltb 256 (byte_length p.username) || any is_control_character p.username
    then err invalid_proxy_settings
    else if needs_host p.mode && (is_empty p.host || not (between (pos 1) (pos 65535) p.port))
    then err invalid_proxy_settings
    else if not (needs_host p.mode) && not (between (pos 0) (pos 65535) p.port)
    then err invalid_proxy_settings
    else if not (between (pos 1) (pos 120) p.connect_timeout_seconds)
    then err invalid_proxy_settings
    else if not (between (pos 1) (pos 120) p.response_header_timeout_seconds)
    then err invalid_proxy_settings
    else ok p

unfoldable pub validate_proxy_settings : ProxySettings → Outcome DownloadError ProxySettings
unfolding byte_length trim_space
validate_proxy_settings input =
    if is_zero_proxy input
    then ok default_proxy_settings
    else checked_proxy
        (record input { host = trim_space input.host; username = trim_space input.username })

abbrev pub default_bt_policy_settings : BtPolicySettings
default_bt_policy_settings = record {
  max_peer_connections = pos 80;
  explicit_peers_only = true;
  trackers_enabled = false;
  dht_enabled = false;
  pex_enabled = false;
  web_seeds_enabled = false;
  inbound_enabled = false;
  ipv6_enabled = false;
  upload_enabled = false;
  seeding_enabled = false;
}

abbrev pub enables_restricted : BtPolicySettings → Bool
enables_restricted p =
    p.trackers_enabled || p.dht_enabled || p.pex_enabled || p.web_seeds_enabled || p.inbound_enabled
    || p.ipv6_enabled || p.upload_enabled || p.seeding_enabled

-- input == BTPolicySettings{}
abbrev pub is_zero_policy : BtPolicySettings → Bool
is_zero_policy p =
    eqb_ℤ p.max_peer_connections (pos 0) && not p.explicit_peers_only && not (enables_restricted p)

unfoldable pub normalize_bt_policy_settings :
    BtPolicySettings → Outcome DownloadError BtPolicySettings
normalize_bt_policy_settings input =
    if is_zero_policy input
    then ok default_bt_policy_settings
    else if not (between (pos 1) (pos 80) input.max_peer_connections)
    then err invalid_bt_policy
    else if not input.explicit_peers_only || enables_restricted input
    then err invalid_bt_policy
    else ok input
