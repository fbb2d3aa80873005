-- ===== src/Settings/Tests.antt =====
-- Proxy settings and policies.
use downpeed_fluter.Base.{◌≡◌, refl, pos, true, false, text, ok, err}
use downpeed_fluter.Errors.{invalid_proxy_settings, invalid_bt_policy}
use downpeed_fluter.Strings.{trim, trim_left, trim_right, trim_space, is_space, is_empty}
use downpeed_fluter.Settings.{
  ProxySettings, http_proxy, validate_proxy_settings, default_proxy_settings, byte_length,
  needs_host, normalize_bt_policy_settings, default_bt_policy_settings,
}
use downpeed_fluter.Settings.Kept.{proxy_settings_kept}

abbrev spaced : ProxySettings
spaced = record default_proxy_settings { mode = http_proxy; host = text " proxy "; port = pos 8080 }

abbrev local : ProxySettings
local = record spaced { host = text "proxy" }

spaced_read : validate_proxy_settings spaced ≡ ok local
unfolding validate_proxy_settings byte_length trim_space trim trim_left trim_right is_space
spaced_read = refl

proxy_settings_kept_example :
    (validate_proxy_settings local ≡ ok local)
    × (needs_host local.mode ≡ true → is_empty local.host ≡ false)
proxy_settings_kept_example = proxy_settings_kept spaced local spaced_read

no_port : validate_proxy_settings (record spaced { port = pos 0 }) ≡ err invalid_proxy_settings
unfolding validate_proxy_settings byte_length trim_space trim trim_left trim_right is_space
no_port = refl

uploads_refused :
    normalize_bt_policy_settings (record default_bt_policy_settings { upload_enabled = true })
    ≡ err invalid_bt_policy
unfolding normalize_bt_policy_settings
uploads_refused = refl
