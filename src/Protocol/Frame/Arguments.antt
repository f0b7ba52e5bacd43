-- ===== src/Protocol/Frame/Arguments.antt =====
-- protocol/parser.rs: reading the arguments of each verb, with more bytes behind.
use zetdb.Prelude.{ℕ, zero, suc, ◌-◌, ◌/◌, ◌%◌, ◌||◌, not, none, [], ◌∷◌, Bytes, ltb, leb, ◌==◌}
use zetdb.Bytes.{codes}
use zetdb.Bytes.Decimal.{parse_u64}
use zetdb.Domain.Command.{Command}
use zetdb.Protocol.Memchr.{Memchr}
use zetdb.Protocol.Resp.Messages.{get_usage, del_usage, incr_usage, exists_usage, ttl_usage}
use zetdb.Protocol.Scan.{unknown_command, eq_ignore_ascii_case}
use zetdb.Protocol.Resp.{read_resp_bulk}
use zetdb.Protocol.Frame.{
  lift, bulk, skip_args, bulks, bulk_pairs, one_key, ttl_option, set_args, expire_args, mget_args,
  mset_args, command_args,
}
use zetdb.Protocol.Frame.Kept.{read_resp_bulk-Kept}
use zetdb.Protocol.Frame.Steady.{
  IsSteady, pure-IsSteady, fail-IsSteady, lift-IsSteady, if-IsSteady, bind-IsSteady,
  at_position-IsSteady, number-IsSteady,
}

module _ (M : Memchr) where
  pub bulk-IsSteady : IsSteady (bulk M)
  unfolding bulk
  bulk-IsSteady = at_position-IsSteady (read_resp_bulk M) (read_resp_bulk-Kept M)

  skip_args-IsSteady : (n : ℕ) → IsSteady (skip_args M n)
  unfolding skip_args
  skip_args-IsSteady zero = pure-IsSteady tt
  skip_args-IsSteady (suc n) = bind-IsSteady (bulk M) _ bulk-IsSteady (λ k. skip_args-IsSteady n)

  bulks-IsSteady : (n : ℕ) → IsSteady (bulks M n)
  unfolding bulks
  bulks-IsSteady zero = pure-IsSteady []
  bulks-IsSteady (suc n) =
      bind-IsSteady (bulk M) _ bulk-IsSteady
        λ k. bind-IsSteady (bulks M n) _ (bulks-IsSteady n) (λ ks. pure-IsSteady (k ∷ ks))

  bulk_pairs-IsSteady : (n : ℕ) → IsSteady (bulk_pairs M n)
  unfolding bulk_pairs
  bulk_pairs-IsSteady zero = pure-IsSteady []
  bulk_pairs-IsSteady (suc n) = bind-IsSteady (bulk M) _ bulk-IsSteady λ k.
      bind-IsSteady (bulk M) _ bulk-IsSteady λ v.
        bind-IsSteady (bulk_pairs M n) _ (bulk_pairs-IsSteady n) λ ps. pure-IsSteady ((k, v) ∷ ps)

  one_key-IsSteady :
      (usage : Bytes) (make : Bytes → Command) (n : ℕ) → IsSteady (one_key M usage make n)
  unfolding one_key
  one_key-IsSteady usage make n =
      if-IsSteady (n == 1) _ _
        (bind-IsSteady (bulk M) _ bulk-IsSteady (λ k. pure-IsSteady (make k)))
        (fail-IsSteady Command _)

  set_args-IsSteady : (n : ℕ) → IsSteady (set_args M n)
  unfolding set_args
  set_args-IsSteady n = if-IsSteady (ltb n 2) _ _ (fail-IsSteady Command _) (
      bind-IsSteady (bulk M) _ bulk-IsSteady λ k. bind-IsSteady (bulk M) _ bulk-IsSteady λ v.
        if-IsSteady (leb 2 (n - 2)) _ _
          (bind-IsSteady (bulk M) _ bulk-IsSteady λ opt.
            bind-IsSteady (bulk M) _ bulk-IsSteady λ value.
              bind-IsSteady (lift (ttl_option opt value)) _ (lift-IsSteady _) λ ttl.
                bind-IsSteady (skip_args M (n - 4)) _ (skip_args-IsSteady (n - 4))
                  λ u. pure-IsSteady (Command.set k v ttl))
          (bind-IsSteady (skip_args M (n - 2)) _ (skip_args-IsSteady (n - 2))
            λ u. pure-IsSteady (Command.set k v none)))

  expire_args-IsSteady : (n : ℕ) → IsSteady (expire_args M n)
  unfolding expire_args
  expire_args-IsSteady n =
      if-IsSteady (n == 2) _ _
        (bind-IsSteady (bulk M) _ bulk-IsSteady λ k.
          bind-IsSteady (bulk M) _ bulk-IsSteady
            λ value. number-IsSteady _ (parse_u64 value) (Command.expire k))
        (fail-IsSteady Command _)

  mget_args-IsSteady : (n : ℕ) → IsSteady (mget_args M n)
  unfolding mget_args
  mget_args-IsSteady n =
      if-IsSteady (ltb n 1) _ _ (fail-IsSteady Command _)
        (bind-IsSteady (bulks M n) _ (bulks-IsSteady n) (λ ks. pure-IsSteady (Command.mget ks)))

  mset_args-IsSteady : (n : ℕ) → IsSteady (mset_args M n)
  unfolding mset_args
  mset_args-IsSteady n = if-IsSteady (ltb n 2 || not (n % 2 == 0)) _ _ (fail-IsSteady Command _) (
      bind-IsSteady (bulk_pairs M (n / 2)) _ (bulk_pairs-IsSteady (n / 2))
        λ ps. pure-IsSteady (Command.mset ps))

  pub command_args-IsSteady : (verb : Bytes) (n : ℕ) → IsSteady (command_args M verb n)
  unfolding command_args
  command_args-IsSteady verb n =
      if-IsSteady (eq_ignore_ascii_case verb (codes "PING")) _ _ (pure-IsSteady Command.ping) (
        if-IsSteady (eq_ignore_ascii_case verb (codes "INFO")) _ _ (pure-IsSteady Command.info) (
          if-IsSteady (eq_ignore_ascii_case verb (codes "DBSIZE")) _ _
            (pure-IsSteady Command.db_size)
            (if-IsSteady (eq_ignore_ascii_case verb (codes "GET")) _ _
              (one_key-IsSteady get_usage Command.get n)
              (if-IsSteady (eq_ignore_ascii_case verb (codes "SET")) _ _ (set_args-IsSteady n) (
                if-IsSteady (eq_ignore_ascii_case verb (codes "DEL")) _ _
                  (one_key-IsSteady del_usage Command.del n)
                  (if-IsSteady (eq_ignore_ascii_case verb (codes "INCR")) _ _
                    (one_key-IsSteady incr_usage Command.incr n)
                    (if-IsSteady (eq_ignore_ascii_case verb (codes "EXISTS")) _ _
                      (one_key-IsSteady exists_usage Command.exists n)
                      (if-IsSteady (eq_ignore_ascii_case verb (codes "TTL")) _ _
                        (one_key-IsSteady ttl_usage Command.ttl n)
                        (if-IsSteady (eq_ignore_ascii_case verb (codes "EXPIRE")) _ _
                          (expire_args-IsSteady n)
                          (if-IsSteady (eq_ignore_ascii_case verb (codes "FLUSHDB")) _ _
                            (pure-IsSteady Command.flush_db)
                            (if-IsSteady (eq_ignore_ascii_case verb (codes "KEYS")) _ _
                              (pure-IsSteady Command.keys)
                              (if-IsSteady (eq_ignore_ascii_case verb (codes "MGET")) _ _
                                (mget_args-IsSteady n)
                                (if-IsSteady (eq_ignore_ascii_case verb (codes "MSET")) _ _
                                  (mset_args-IsSteady n)
                                  (fail-IsSteady Command (unknown_command verb)))))))))))))))
