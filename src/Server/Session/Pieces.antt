-- ===== src/Server/Session/Pieces.antt =====
-- server/session.rs: how the network cuts the bytes of a client makes no difference.
use zetdb.Prelude.{
  ◌+◌, ◌<◌, ◌≤◌, ◌≡◌, inl, inr, Bool-cases, ltb, refl, sym, ap, ◌∙◌, Bool, true, some, List, [],
  ◌∷◌, ◌++◌, Bytes, All, length, length-append, append_assoc, append-nil, arith,
}
use zetdb.Domain.Errors.{returns, ◌>>=◌, ok}
use zetdb.Domain.Value.{ValueEntry}
use zetdb.Domain.Command.{Command}
use zetdb.Storage.DashMap.{DashMap}
use zetdb.Storage.Itoa.{Itoa}
use zetdb.Protocol.Memchr.{Memchr, Memchr2}
use zetdb.Protocol.Scan.{incomplete}
use zetdb.Protocol.Inline.{try_parse_frame}
use zetdb.Server.Session.{Env, Session, max_read_buf, max_write_buf, process_batch, run_turns}
use zetdb.Server.Session.Sent.{
  sent, flushed, flushed_small, sent_nothing, turn_too_long, sent_before, sent_after,
  served-write_buf,
}
use zetdb.Server.Session.Frames.{with_buf}
use zetdb.Server.Session.Wire.{IsSendable, wires, served, frames}
use zetdb.Server.Session.Turns.{
  concat, arriving, feed, IsSmall, IsPiece, no_frames, later-All, part_short, starts_resp-wires,
  turn-wires, next_turn, open_turn, emptied, served_both, returned_first, served-append,
}

module _ (I : Itoa) (M : Memchr) (M2 : Memchr2) {D : DashMap ValueEntry} (metrics_enabled : Bool)
    (env : Env) where
  -- A session that is open once it has read the commands, however their bytes are cut, has answered them
  -- in their order, each once, as if each had come alone: the engine, the log, the counters and the bytes
  -- that it sends are the same.
  pub feed-served :
      (chunks : List Bytes) (cs : List Command) (part : Bytes) (s s' : Session D)
      → All IsSendable cs
      → All (λ b. 0 < length b) chunks
      → try_parse_frame M part ≡ ok incomplete
      → part ++ concat chunks ≡ wires cs
      → feed I M M2 metrics_enabled env chunks (with_buf part s) ≡ some (returns (true, s'))
      → (t : Session D) × (served I metrics_enabled env cs (with_buf [] s) ≡ returns t)
        × (sent s' ≡ sent t)
  feed-served [] cs part s s' h l i e f =
      let whole = sym (append-nil part) ∙ e in
      let done = no_frames M cs part h whole i in
      let nothing : part ≡ [] = whole ∙ ap wires done in
      let same : with_buf part s ≡ s' = unfold run_turns in cc in
      (
        with_buf [] s,
        ap (λ x. served I metrics_enabled env x (with_buf [] s)) done,
        ap sent (sym same ∙ ap (λ b. with_buf b s) nothing),
      )
  feed-served (b ∷ chunks) cs part s s' h l i e f =
      let all = append_assoc part b (concat chunks) ∙ e in
      let r = frames M cs (part ++ b) (concat chunks) h all in
      let starts =
        starts_resp-wires cs (part ++ b) (concat chunks) all
          (omega (arith, length-append part b, l.0)) in
      elim (Bool-cases (ltb max_read_buf (length (part ++ b)))) [
        | inl long ↦
            let closed =
              turn_too_long (process_batch I M M2 metrics_enabled env) b (with_buf part s) l.0
                (ground (arith, long)) in
            let f' =
              sym (
                next_turn I M M2 metrics_enabled env (arriving chunks) (some b, true)
                  (with_buf part s) _ closed)
              ∙ f in
            absurd cc
        | inr short ↦
            let one =
              turn-wires I M M2 metrics_enabled env b r.2 r.0 (with_buf part s) l.0
                (ground (arith, short)) r.4 r.7 r.6 starts in
            let (t, g, f') =
              open_turn I M M2 metrics_enabled env (arriving chunks) (some b, true) r.2
                (with_buf part s) s' (served I metrics_enabled env r.0 (with_buf [] s)) one f in
            let (t1, g1, same1) = feed-served chunks r.1 r.2 (sent t) s' r.8 l.1 r.6 r.5 f' in
            let (t2, g2, same2) = sent_after I metrics_enabled env r.1 (with_buf [] t) t1 g1 in
            (
              t2,
              served_both I M M2 metrics_enabled env r.0 r.1 cs s t t2 r.3 g g2,
              same1 ∙ sym same2,
            )
      ]

  feed_each :
      (chunks : List Bytes) (cs : List Command) (part : Bytes) (s t : Session D)
      → All IsSendable cs
      → All IsSmall cs
      → All IsPiece chunks
      → try_parse_frame M part ≡ ok incomplete
      → part ++ concat chunks ≡ wires cs
      → s.write_buf ≡ []
      → served I metrics_enabled env cs (with_buf [] s) ≡ returns t
      → length t.output + length t.write_buf ≤ length s.output + max_write_buf
      → feed I M M2 metrics_enabled env chunks (with_buf part s) ≡ some (returns (true, sent t))
  feed_each [] cs part s t h small pieces i e new g fits =
      let whole = sym (append-nil part) ∙ e in
      let done = no_frames M cs part h whole i in
      let nothing : part ≡ [] = whole ∙ ap wires done in
      let served_nothing =
        ap (λ x. served I metrics_enabled env x (with_buf [] s)) (sym done) ∙ g in
      let same : with_buf [] s ≡ t = cc in
      unfold run_turns in
      (ap (λ b. some (returns (true, with_buf b s))) nothing
        ∙ ap (λ x. some (returns (true, x))) (sent_nothing (with_buf [] s) new ∙ ap sent same))
  feed_each (b ∷ chunks) cs part s t h small pieces i e new g fits =
      let all = append_assoc part b (concat chunks) ∙ e in
      let r = frames M cs (part ++ b) (concat chunks) h all in
      let starts =
        starts_resp-wires cs (part ++ b) (concat chunks) all
          (omega (arith, length-append part b, pieces.0.0)) in
      let room : length (part ++ b) ≤ max_read_buf = omega (
        arith,
        length-append part b,
        pieces.0.1,
        part_short M cs part (b ++ concat chunks) h small e i,
      ) in
      let (t1, g1, g2) =
        returned_first I M M2 metrics_enabled env (served I metrics_enabled env r.0 (with_buf [] s))
          (served I metrics_enabled env r.1) t
          (sym (served-append I M M2 metrics_enabled env r.0 r.1 (with_buf [] s))
            ∙ ap (λ x. served I metrics_enabled env x (with_buf [] s)) (sym r.3)
            ∙ g) in
      let (x1, w1, o1) = served-write_buf I metrics_enabled env r.0 (with_buf [] s) t1 g1 in
      let (x2, w2, o2) = served-write_buf I metrics_enabled env r.1 t1 t g2 in
      let short : length t1.write_buf ≤ max_write_buf =
        omega
          (arith, fits, ap length w2, length-append t1.write_buf x2, ap length o2, ap length o1) in
      let (t', g', same) = sent_before I metrics_enabled env r.1 (with_buf [] t1) t (
        ap (served I metrics_enabled env r.1) (sym (emptied I M M2 metrics_enabled env r.0 s t1 g1))
        ∙ g2) in
      let out : length t'.output + length t'.write_buf ≡ length t.output + length t.write_buf =
        omega (
          arith,
          ap (λ u. length u.output) same,
          length-append t'.output t'.write_buf,
          length-append t.output t.write_buf,
        ) in
      next_turn I M M2 metrics_enabled env (arriving chunks) (some b, true) (with_buf part s)
        (true, with_buf r.2 (sent t1))
        (turn-wires I M M2 metrics_enabled env b r.2 r.0 (with_buf part s) pieces.0.0 room r.4 r.7
            r.6 starts
          ∙ ap (λ o. some (o >>= λ t. returns (flushed (with_buf r.2 t)))) g1
          ∙ ap (λ x. some (returns x)) (flushed_small (with_buf r.2 t1) short))
      ∙ feed_each chunks r.1 r.2 (sent t1) t' r.8 (later-All r.0 r.1 cs r.3 small) pieces.1 r.6 r.5
          refl g' (omega (arith, out, fits, ap length o1, length-append t1.output t1.write_buf))
      ∙ ap (λ x. some (returns (true, x))) same

  -- Commands of which each takes 512 KiB at most, sent one after the other in any pieces of a byte at
  -- least and 512 KiB at most, where each is answered when it comes alone and the replies take 1 MiB
  -- together at most, are answered in
  -- their order, each once, as if each had come alone: the session stays open, and its engine, log,
  -- counters and the bytes that it sends are the same however the bytes are cut; nothing is left in
  -- its buffers.
  pub feed-wires :
      (chunks : List Bytes) (cs : List Command) (s t : Session D)
      → All IsSendable cs
      → All IsSmall cs
      → All IsPiece chunks
      → concat chunks ≡ wires cs
      → s.write_buf ≡ []
      → served I metrics_enabled env cs (with_buf [] s) ≡ returns t
      → length t.write_buf ≤ max_write_buf
      → feed I M M2 metrics_enabled env chunks (with_buf [] s) ≡ some (returns (true, sent t))
  feed-wires chunks cs s t h small pieces e new g fits =
      let (x, w, o) = served-write_buf I metrics_enabled env cs (with_buf [] s) t g in
      feed_each chunks cs [] s t h small pieces (unfold try_parse_frame in refl) e new g
        (omega (arith, fits, ap length o))
