-- ===== src/Session/Options.antt =====
-- session_options.go: the options of a session, as NewSession applies them to its defaults and then
-- resolves those of the heartbeat. Durations are nanoseconds; the fields that no option sets to a
-- number below zero are naturals. Callbacks, the logger, addresses and credentials are left out.
pub mod Laws
use go_ads.Common.{
  ℕ, ◌+◌, ◌*◌, ◌-◌, ◌/◌, ◌≤◌, ◌≡◌, refl, Bool, true, false, List, [], ◌∷◌, ltb, leb, ◌==◌,
  if◌then◌else◌, arith,
}
use go_ads.Common.Decimal.{ℤ, pos, negsuc}
use go_ads.Common.Int64.{lez}
use go_ads.Session.Backoff.{BackoffConfig, validate, with_backoff}
use go_ads.Session.Recovery.{heartbeat_cycle, normalize_heartbeat_options}

pub record Options : Type 0 where
  pub request_timeout : ℕ
  pub target_check : ℤ
  pub activation_timeout : ℕ
  pub peer_listen_port : ℤ
  pub peer_fallback_disabled : Bool
  pub force_route_registration : Bool
  pub skip_registration : Bool
  pub is_local : Bool
  pub strict_reconnect : Bool
  pub strict_reconnect_max_attempts : ℤ
  pub auto_reconnect : Bool
  pub max_reconnect_attempts : ℤ
  pub backoff_config : BackoffConfig
  pub version_strategy : ℕ
  pub max_reload_attempts : ℕ
  pub reload_window : ℕ
  pub heartbeat_interval : ℕ
  pub heartbeat_missed : ℕ
  pub heartbeat_silence : ℕ
  pub heartbeat_disabled : Bool
  pub heartbeat_recovery : ℕ
  pub state_watch_interval : ℕ
  pub state_watch_disabled : Bool

pub data SessionOption : Type 0 where
  with_local_mode with_skip_route_registration without_ams_peer_fallback : SessionOption
  with_force_route_registration without_runtime_state_watch : SessionOption
  without_notification_heartbeat : SessionOption
  with_backoff_config : BackoffConfig → SessionOption
  with_max_reconnect_attempts with_request_timeout with_target_check : ℤ → SessionOption
  with_route_activation_timeout with_ams_peer_listen with_strict_reconnect : ℤ → SessionOption
  with_auto_reconnect : Bool → SessionOption
  with_symbol_version_strategy : ℕ → SessionOption
  with_max_symbol_version_reload_attempts with_symbol_version_reload_window : ℤ → SessionOption
  with_notification_heartbeat : ℤ → ℤ → SessionOption
  with_notification_silence_timeout with_heartbeat_recovery : ℤ → SessionOption
  with_runtime_state_watch : ℤ → SessionOption

abbrev pub max_ads_cycle_time : ℕ
max_ads_cycle_time = 400000000000

-- The new value where it is above zero, else the old one.
unfoldable pub if_positive : ℤ → ℕ → ℕ
if_positive (negsuc _) old = old
if_positive (pos n) old = if n == 0 then old else n

unfoldable pub at_least_two : ℤ → ℕ
at_least_two (negsuc _) = 2
at_least_two (pos n) = if ltb n 2 then 2 else n

unfoldable pub clamped : ℕ → ℕ
clamped interval = if ltb max_ads_cycle_time interval then max_ads_cycle_time else interval

unfoldable pub recovery_mode : ℤ → ℕ → ℕ
recovery_mode (negsuc _) old = old
recovery_mode (pos n) old = if n == 1 then n else if n == 2 then n else if n == 3 then n else old

abbrev pub is_positive : ℤ → Bool
is_positive d = lez (pos 1) d

unfoldable pub apply_option : SessionOption → Options → Options
apply_option with_local_mode o = record o { is_local = true }
apply_option with_skip_route_registration o = record o { skip_registration = true }
apply_option without_ams_peer_fallback o = record o { peer_fallback_disabled = true }
apply_option with_force_route_registration o = record o { force_route_registration = true }
apply_option without_runtime_state_watch o = record o { state_watch_disabled = true }
apply_option without_notification_heartbeat o = record o { heartbeat_disabled = true }
apply_option (with_backoff_config c) o = record o {
  backoff_config = with_backoff c o.backoff_config;
}
apply_option (with_max_reconnect_attempts n) o = record o { max_reconnect_attempts = n }
apply_option (with_request_timeout d) o = record o {
  request_timeout = if_positive d o.request_timeout;
}
apply_option (with_target_check (pos n)) o = record o {
  target_check = if n == 0 then o.target_check else pos n;
}
apply_option (with_target_check (negsuc n)) o = record o { target_check = negsuc n }
apply_option (with_route_activation_timeout d) o = record o {
  activation_timeout = if_positive d o.activation_timeout;
}
apply_option (with_ams_peer_listen port) o = record o { peer_listen_port = port }
apply_option (with_strict_reconnect n) o = record o {
  strict_reconnect = true;
  strict_reconnect_max_attempts = n;
}
apply_option (with_auto_reconnect enabled) o = record o { auto_reconnect = enabled }
apply_option (with_symbol_version_strategy s) o = record o {
  version_strategy = if leb s 2 then s else 0;
}
apply_option (with_max_symbol_version_reload_attempts n) o = record o {
  max_reload_attempts = if_positive n o.max_reload_attempts;
}
apply_option (with_symbol_version_reload_window d) o = record o {
  reload_window = if_positive d o.reload_window;
}
apply_option (with_notification_heartbeat interval missed) o = record o {
  heartbeat_interval =
      if is_positive interval
      then clamped (if_positive interval o.heartbeat_interval)
      else o.heartbeat_interval;
  heartbeat_missed = at_least_two missed;
  heartbeat_silence = 0;
  heartbeat_disabled = false;
}
apply_option (with_notification_silence_timeout d) o = record o {
  heartbeat_silence = if_positive d o.heartbeat_silence;
  heartbeat_disabled = if is_positive d then false else o.heartbeat_disabled;
}
apply_option (with_heartbeat_recovery mode) o = record o {
  heartbeat_recovery = recovery_mode mode o.heartbeat_recovery;
}
apply_option (with_runtime_state_watch d) o = record o {
  state_watch_interval = if_positive d o.state_watch_interval;
  state_watch_disabled = if is_positive d then false else o.state_watch_disabled;
}

-- DefaultBackoffConfig
abbrev pub default_backoff_config : BackoffConfig
default_backoff_config = record {
  initial_interval = pos 1000000000;
  initial_attempts = pos 3;
  mid_interval = pos 5000000000;
  mid_attempts = pos 3;
  slow_interval = pos 15000000000;
  slow_attempts = pos 4;
  max_interval = pos 30000000000;
}

-- The fields as NewSession makes them; TargetCheckWarn is 1.
abbrev pub defaults : Options
defaults = record {
  request_timeout = 5000000000;
  target_check = pos 1;
  activation_timeout = 0;
  peer_listen_port = pos 0;
  peer_fallback_disabled = false;
  force_route_registration = false;
  skip_registration = false;
  is_local = false;
  strict_reconnect = false;
  strict_reconnect_max_attempts = pos 0;
  auto_reconnect = true;
  max_reconnect_attempts = pos 0;
  backoff_config = default_backoff_config;
  version_strategy = 0;
  max_reload_attempts = 3;
  reload_window = 60000000000;
  heartbeat_interval = 0;
  heartbeat_missed = 0;
  heartbeat_silence = 0;
  heartbeat_disabled = false;
  heartbeat_recovery = 0;
  state_watch_interval = 0;
  state_watch_disabled = false;
}

unfoldable pub apply_options : List SessionOption → Options → Options
unfolding apply_option
apply_options [] o = o
apply_options (opt ∷ opts) o = apply_options opts (apply_option opt o)

unfoldable pub resolve_heartbeat : Options → Options
resolve_heartbeat o = record o {
  heartbeat_missed =
      normalize_heartbeat_options o.heartbeat_silence (heartbeat_cycle (pos o.heartbeat_interval))
        o.heartbeat_missed;
}

unfoldable pub configured : List SessionOption → Options
unfolding apply_options resolve_heartbeat
configured opts = resolve_heartbeat (apply_options opts defaults)
