-- ===== src/Settings/Kept.antt =====
-- Settings that were accepted are accepted again as they are (validateProxySettings of
-- backend/internal/download/settings.go).
use downpeed_fluter.Base.{
  ◌≡◌, refl, arith, Bool, true, false, Text, Outcome, ok, err, ap, ◌∙◌, on_test, subst, sym,
  if◌then◌else◌,
}
use downpeed_fluter.Errors.{DownloadError}
use downpeed_fluter.Strings.{trim_space, trim_left, trim_right, trim, is_space, is_empty}
use downpeed_fluter.Strings.Trim.{trim_kept, first-trim_right, first-trim_left, last-trim_right}
use downpeed_fluter.Settings.{
  ProxySettings, is_zero_proxy, checked_proxy, validate_proxy_settings, default_proxy_settings,
  needs_host, byte_length,
}

trim_space_twice : (s : Text) → trim_space (trim_space s) ≡ trim_space s
unfolding trim_space trim
trim_space_twice s =
    trim_kept is_space (trim is_space s)
      (first-trim_right is_space (trim_left is_space s) (first-trim_left is_space s))
      (last-trim_right is_space (trim_left is_space s))

checked_inv :
    (p q : ProxySettings)
    → checked_proxy p ≡ ok q
    → (p ≡ q) × (is_zero_proxy p ≡ false) × (needs_host p.mode ≡ true → is_empty p.host ≡ false)
checked_inv p q h = (ground arith, ground arith, λ needed. ground arith)

checked_kept :
    (p q : ProxySettings)
    → trim_space p.host ≡ p.host
    → trim_space p.username ≡ p.username
    → checked_proxy p ≡ ok q
    → validate_proxy_settings q ≡ ok q
unfolding validate_proxy_settings
checked_kept p q host username h =
    let (same, filled, named) = checked_inv p q h in
    subst (λ x. validate_proxy_settings x ≡ ok x) same
      (ap
          (λ (b : Bool).
            if b
            then ok default_proxy_settings
            else checked_proxy (trimmed (trim_space p.host) (trim_space p.username)))
          filled
        ∙ ap (λ x. checked_proxy (trimmed x (trim_space p.username))) host
        ∙ ap (λ x. checked_proxy (trimmed p.host x)) username
        ∙ (h ∙ ap ok (sym same)))
  where
    trimmed : Text → Text → ProxySettings
    trimmed host username = record p { host = host; username = username }

default_kept : validate_proxy_settings default_proxy_settings ≡ ok default_proxy_settings
unfolding validate_proxy_settings byte_length trim_space trim trim_left trim_right
default_kept = refl

-- Proxy settings that are accepted, as they are then stored, are accepted again and left as they
-- are; and if their mode needs a host, they have one.
pub proxy_settings_kept :
    (input settings : ProxySettings)
    → validate_proxy_settings input ≡ ok settings
    → (validate_proxy_settings settings ≡ ok settings)
      × (needs_host settings.mode ≡ true → is_empty settings.host ≡ false)
unfolding validate_proxy_settings
proxy_settings_kept input settings =
    on_test P (is_zero_proxy input) (λ _ same. subst Q (ap (value_or input) same) default-Q)
      λ _ h.
        let p : ProxySettings = record input {
          host = trim_space input.host;
          username = trim_space input.username;
        } in
        let (same, filled, named) = checked_inv p settings h in
        (
          checked_kept p settings (trim_space_twice input.host) (trim_space_twice input.username) h,
          subst (λ (x : ProxySettings). needs_host x.mode ≡ true → is_empty x.host ≡ false) same
              named,
        )
  where
    Q : ProxySettings → Type 0
    Q x = (validate_proxy_settings x ≡ ok x) × (needs_host x.mode ≡ true → is_empty x.host ≡ false)

    P : Outcome DownloadError ProxySettings → Type 0
    P r = r ≡ ok settings → Q settings

    value_or : ProxySettings → Outcome DownloadError ProxySettings → ProxySettings
    value_or given (ok x) = x
    value_or given (err e) = given

    default-Q : Q default_proxy_settings
    default-Q = (default_kept, λ needed. absurd (ground arith))
