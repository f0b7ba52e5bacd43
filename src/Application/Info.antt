-- ===== src/Application/Info.antt =====
-- The text of INFO, and the counters of observability/metrics.rs that it prints.
use zetdb.Prelude.{ℕ, Bytes, ◌++◌}
use zetdb.Bytes.{codes, crlf}
use zetdb.Bytes.Decimal.{show_nat}
use zetdb.Domain.Command.{CommandType}
use zetdb.Observability.Metrics.{Thread, command_count}

-- What INFO reads of the counters at one moment.
pub record Counters : Type 0 where
  pub uptime_secs : ℕ
  pub connections_active : ℕ
  pub connections_total : ℕ
  pub commands_total : ℕ
  pub command_count : CommandType → ℕ
  pub keyspace_hits : ℕ
  pub keyspace_misses : ℕ
  pub errors_total : ℕ

-- What INFO reads: the counters of the process, and for a type of command those of the thread too.
unfoldable pub counters_of : ℕ → Thread → Counters
unfolding command_count
counters_of uptime (g, l) = record {
  uptime_secs = uptime;
  connections_active = g.connections_active;
  connections_total = g.connections_total;
  commands_total = g.commands_total;
  command_count = λ c. command_count c (g, l);
  keyspace_hits = g.keyspace_hits;
  keyspace_misses = g.keyspace_misses;
  errors_total = g.errors_total;
}

line : Bytes → ℕ → Bytes
line label n = label ++ (show_nat n ++ crlf)

unfoldable pub info_text : Counters → ℕ → Bytes
unfolding line show_nat
info_text m keys =
    codes "# Server"
    ++ (crlf
        ++ (codes "zetdb_version:0.1.0"
            ++ (crlf
                ++ (line (codes "uptime_in_seconds:") m.uptime_secs
                    ++ (crlf
                        ++ (codes "# Clients"
                            ++ (crlf
                                ++ (line (codes "connected_clients:") m.connections_active
                                    ++ (line (codes "total_connections:") m.connections_total
                                        ++ (crlf
                                            ++ (codes "# Stats"
                                                ++ (crlf
                                                    ++ (line (codes "total_commands:")
                                                          m.commands_total
                                                        ++ (line (codes "cmd_ping:")
                                                            (m.command_count CommandType.ping)
                                                            ++ (line (codes "cmd_get:")
                                                            (m.command_count CommandType.get)
                                                            ++ (line (codes "cmd_set:")
                                                            (m.command_count CommandType.set)
                                                            ++ (line (codes "cmd_del:")
                                                            (m.command_count CommandType.del)
                                                            ++ (line (codes "cmd_incr:")
                                                            (m.command_count CommandType.incr)
                                                            ++ (line (codes "cmd_info:")
                                                            (m.command_count CommandType.info)
                                                            ++ (line (codes "cmd_dbsize:")
                                                            (m.command_count CommandType.db_size)
                                                            ++ (line (codes "keyspace_hits:")
                                                            m.keyspace_hits
                                                            ++ (line (codes "keyspace_misses:")
                                                            m.keyspace_misses
                                                            ++ (line (codes "errors_total:")
                                                            m.errors_total
                                                            ++ (crlf
                                                            ++ (codes "# Keyspace"
                                                            ++ (crlf
                                                            ++ line (codes "db0:keys=")
                                                            keys))))))))))))))))))))))))))
