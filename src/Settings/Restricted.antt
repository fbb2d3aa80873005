-- ===== src/Settings/Restricted.antt =====
-- What a BT policy that is accepted allows (normalizeBTPolicySettings of
-- backend/internal/download/settings.go).
use downpeed_fluter.Base.{◌≡◌, arith, true, false, ok, pos, ◌≤ℤ◌}
use downpeed_fluter.Task.{BtPolicySettings}
use downpeed_fluter.Settings.{normalize_bt_policy_settings, is_zero_policy}

-- 1 to 80 peers, explicit ones only, and nothing else.
abbrev pub IsRestricted : BtPolicySettings → Type 0
IsRestricted p =
    (pos 1 ≤ℤ p.max_peer_connections)
    × (p.max_peer_connections ≤ℤ pos 80)
    × (p.explicit_peers_only ≡ true)
    × (p.trackers_enabled ≡ false)
    × (p.dht_enabled ≡ false)
    × (p.pex_enabled ≡ false)
    × (p.web_seeds_enabled ≡ false)
    × (p.inbound_enabled ≡ false)
    × (p.ipv6_enabled ≡ false)
    × (p.upload_enabled ≡ false)
    × (p.seeding_enabled ≡ false)

pub accepted-IsRestricted :
    (input policy : BtPolicySettings)
    → is_zero_policy input ≡ false
    → normalize_bt_policy_settings input ≡ ok policy
    → IsRestricted input
unfolding normalize_bt_policy_settings
accepted-IsRestricted input policy filled h = (
  ground arith,
  ground arith,
  ground arith,
  ground arith,
  ground arith,
  ground arith,
  ground arith,
  ground arith,
  ground arith,
  ground arith,
  ground arith,
)
