-- ===== src/Config.antt =====
-- internal/config/config.go: the settings that the daemon's decisions read.
use local_vibe.Base.{ℕ, Bool, true, Text, Option, none, some}

-- `DaemonConfig` with its `TLSConfig`. An absent `autostart` is none.
pub record DaemonConfig : Type 0 where
  pub port : ℕ
  pub tld : Text
  pub tls_enabled : Bool
  pub tls_port : ℕ
  pub autostart : Option Bool

-- `AutoStartEnabled`.
abbrev pub auto_start_enabled : DaemonConfig → Bool
auto_start_enabled d = elim d.autostart [ none ↦ true | some b ↦ b ]
