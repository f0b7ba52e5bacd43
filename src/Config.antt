-- ===== src/Config.antt =====
-- config/mod.rs: the options, their defaults and what reads them. The parsing of the command line and of
-- the environment is the clap crate's; its defaults are the same as those of `Default`.
use zetdb.Prelude.{ℕ, Bool, true, false, Bytes, ◌==◌, if◌then◌else◌}
use zetdb.Bytes.{codes}
use zetdb.Domain.Value.{from_secs}

pub data FsyncPolicy : Type 0 where
  always everysec no_sync : FsyncPolicy

unfoldable pub is_every_write : FsyncPolicy → Bool
is_every_write always = true
is_every_write _ = false

unfoldable pub is_every_second : FsyncPolicy → Bool
is_every_second everysec = true
is_every_second _ = false

unfoldable pub is_never : FsyncPolicy → Bool
is_never no_sync = true
is_never _ = false

pub record SnapshotConfig : Type 0 where
  pub snapshot_enabled : Bool
  pub snapshot_path : Bytes
  pub snapshot_interval_secs : ℕ

pub record AofConfig : Type 0 where
  pub aof_enabled : Bool
  pub aof_path : Bytes
  pub aof_fsync : FsyncPolicy
  pub aof_rewrite_threshold_mb : ℕ

pub record Config : Type 0 where
  pub bind_addr : Bytes
  pub port : ℕ
  pub read_timeout_secs : ℕ
  pub sweep_interval_secs : ℕ
  pub max_connections : ℕ
  pub write_timeout_secs : ℕ
  pub max_keys : ℕ
  pub snapshot : SnapshotConfig
  pub aof : AofConfig
  pub metrics_enabled : Bool

abbrev pub default_snapshot : SnapshotConfig
default_snapshot = record {
  snapshot_enabled = true;
  snapshot_path = codes "dump.zdb";
  snapshot_interval_secs = 60;
}

abbrev pub default_aof : AofConfig
default_aof = record {
  aof_enabled = false;
  aof_path = codes "appendonly.zdb";
  aof_fsync = everysec;
  aof_rewrite_threshold_mb = 64;
}

abbrev pub default_config : Config
default_config = record {
  bind_addr = codes "127.0.0.1";
  port = 6379;
  read_timeout_secs = 30;
  sweep_interval_secs = 1;
  max_connections = 0;
  write_timeout_secs = 30;
  max_keys = 0;
  snapshot = default_snapshot;
  aof = default_aof;
  metrics_enabled = false;
}

unfoldable pub read_timeout : Config → ℕ
read_timeout c = from_secs c.read_timeout_secs

unfoldable pub sweep_interval : Config → ℕ
sweep_interval c = from_secs c.sweep_interval_secs

unfoldable pub write_timeout : Config → ℕ
write_timeout c = if c.write_timeout_secs == 0 then from_secs 0 else from_secs c.write_timeout_secs

unfoldable pub interval : SnapshotConfig → ℕ
interval s = from_secs s.snapshot_interval_secs
