-- ===== src/Pipeline/Steps.antt =====
-- What one report and one flush do to a node's ledger and to its watermark.
use Prim.Native.String.{String}
use frp_panel.Prelude.{
  ◌≡◌, ◌⊎◌, refl, ap, ◌∙◌, true, false, none, some, List, [], ◌∷◌, arith, if◌then◌else◌, Bool-cases,
  Option-cases, inl, inr, ◌&&◌,
}
use frp_panel.Prelude.Int.{ℤ, pos, ◌+ℤ◌, ◌+64◌, wrap64, ltb_ℤ, leb_ℤ, eqb_ℤ, eqb_ℤ_iff}
use frp_panel.Prelude.Assoc.{lookup, insert, int_eq, lookup-insert}
use frp_panel.Prelude.Sum.{wrap64-+64_zero}
use frp_panel.Metrics.Float.{Floats}
use frp_panel.Metrics.Seq.{accept, new_seq_tracker}
use frp_panel.Protocol.Message.{Metrics, ProxyTraffic}
use frp_panel.Pipeline.State.{Pipeline, NodeState, commit_seq, get, fresh_state}
use frp_panel.Pipeline.Account.{
  Tunnels, Live, fold_proxy, fold_proxies, tunnels_of, traffic_of, account, fold_sample,
  sample_time,
}
use frp_panel.Pipeline.Flush.{Db, Answers, Written, flush, traffic_rows, drain, write_traffic}
use frp_panel.Pipeline.Ledger.{
  Scope, node_rx, node_tx, tun_in, tun_out, bytes, durable, pending, ledger, pending-insert,
  pending-insert_same,
}
use frp_panel.Pipeline.Drain.{
  lost, rows_total-traffic_rows, pending-drain, pending-persist_seqs, durable-write_traffic,
  last_in-drain, last_in-persist_seqs,
}

sum_in : ℤ → List ProxyTraffic → ℤ
sum_in acc [] = acc
sum_in acc (px ∷ pxs) = sum_in (acc +64 px.delta_in) pxs

sum_out : ℤ → List ProxyTraffic → ℤ
sum_out acc [] = acc
sum_out acc (px ∷ pxs) = sum_out (acc +64 px.delta_out) pxs

tun_in-fold_proxy :
    (node : ℤ) (t : Tunnels) (px : ProxyTraffic)
    → (fold_proxy node t px).tun_in ≡ t.tun_in +64 px.delta_in
unfolding fold_proxy
tun_in-fold_proxy node t px = ground arith

tun_out-fold_proxy :
    (node : ℤ) (t : Tunnels) (px : ProxyTraffic)
    → (fold_proxy node t px).tun_out ≡ t.tun_out +64 px.delta_out
unfolding fold_proxy
tun_out-fold_proxy node t px = ground arith

tun_in-fold_proxies :
    (node : ℤ) (pxs : List ProxyTraffic) (t : Tunnels)
    → (fold_proxies node t pxs).tun_in ≡ sum_in t.tun_in pxs
unfolding fold_proxies sum_in
tun_in-fold_proxies node [] t = refl
tun_in-fold_proxies node (px ∷ pxs) t =
    tun_in-fold_proxies node pxs (fold_proxy node t px)
    ∙ ap (λ a. sum_in a pxs) (tun_in-fold_proxy node t px)

tun_out-fold_proxies :
    (node : ℤ) (pxs : List ProxyTraffic) (t : Tunnels)
    → (fold_proxies node t pxs).tun_out ≡ sum_out t.tun_out pxs
unfolding fold_proxies sum_out
tun_out-fold_proxies node [] t = refl
tun_out-fold_proxies node (px ∷ pxs) t =
    tun_out-fold_proxies node pxs (fold_proxy node t px)
    ∙ ap (λ a. sum_out a pxs) (tun_out-fold_proxy node t px)

module _ (F : Floats) where
  -- The bytes of a report in one of the four counters.
  unfoldable pub report_bytes : Scope → Metrics F → ℤ
  unfolding sum_in sum_out
  report_bytes node_rx m = m.net_rx_delta
  report_bytes node_tx m = m.net_tx_delta
  report_bytes tun_in m = sum_in (pos 0) m.proxies
  report_bytes tun_out m = sum_out (pos 0) m.proxies

  bytes-traffic_of :
      (shanghai_day : ℤ → String) (c : Scope) (p : Pipeline F) (node : ℤ) (m : Metrics F)
      → bytes c (traffic_of F shanghai_day m (tunnels_of F shanghai_day p node m))
        ≡ report_bytes c m
  unfolding bytes traffic_of tunnels_of report_bytes
  bytes-traffic_of day node_rx p node m = refl
  bytes-traffic_of day node_tx p node m = refl
  bytes-traffic_of day tun_in p node m = tun_in-fold_proxies node m.proxies _
  bytes-traffic_of day tun_out p node m = tun_out-fold_proxies node m.proxies _

  pub last-get : (p : Pipeline F) (node : ℤ) → (get F p node).seq.last ≡ commit_seq F p node
  unfolding get commit_seq fresh_state new_seq_tracker
  last-get p node = ground arith

  pub get-cases :
      (p : Pipeline F) (node : ℤ)
      → (lookup node p.st ≡ some (get F p node))
        ⊎ ((lookup node p.st ≡ none) × ((get F p node).traf ≡ []))
  unfolding get fresh_state
  get-cases p node = elim (Option-cases (lookup node p.st)) [
    | inl h ↦ inr (h, rw (h, get))
    | inr (s, h) ↦ inl (rw (h, get))
  ]

  pub commit_seq-insert :
      (p : Pipeline F) (k n : ℤ) (s : NodeState F) (live : Live)
      → commit_seq F (record p { st = insert k s p.st; live = live }) n
        ≡ (if eqb_ℤ k n then s.seq.last else commit_seq F p n)
  unfolding commit_seq
  commit_seq-insert p k n s live = rw (commit_seq, lookup-insert k n s p.st) (ground arith)

  -- a report that is new, and one that is not
  pub account_new :
      (day : ℤ → String) (p : Pipeline F) (now_ms node : ℤ) (m : Metrics F)
      → leb_ℤ m.seq (commit_seq F p node) ≡ false
      → (account F day p now_ms node m).pipe ≡ record p {
        st =
            insert node
              (fold_sample F day
                (get F p node)
                (record { last = m.seq })
                (sample_time F day now_ms m)
                m
                (tunnels_of F day p node m))
              p.st;
        live = (tunnels_of F day p node m).live;
      }
  unfolding account accept
  account_new day p now_ms node m h = rw (last-get p node, h) refl

  account_stale :
      (day : ℤ → String) (p : Pipeline F) (now_ms node : ℤ) (m : Metrics F)
      → leb_ℤ m.seq (commit_seq F p node) ≡ true
      → (account F day p now_ms node m).pipe ≡ record p { st = insert node (get F p node) p.st }
  unfolding account accept
  account_stale day p now_ms node m h = rw (last-get p node, h) refl

  module _ (day : ℤ → String) (p : Pipeline F) (now_ms node : ℤ) (m : Metrics F) (n : ℤ) where
    -- the watermark after a report
    pub commit_seq-account :
        commit_seq F (account F day p now_ms node m).pipe n
        ≡ (if eqb_ℤ node n && ltb_ℤ (commit_seq F p n) m.seq then m.seq else commit_seq F p n)
    unfolding fold_sample
    commit_seq-account = elim (Bool-cases (leb_ℤ m.seq (commit_seq F p node))) [
      | inl h ↦
          rw
            (
              account_stale day p now_ms node m h,
              commit_seq-insert p node n (get F p node) p.live,
              last-get p node,
            )
            (ground (arith, eqb_ℤ_iff node n))
      | inr h ↦
          rw
            (
              account_new day p now_ms node m h,
              commit_seq-insert p node n
                  (fold_sample F day (get F p node) (record { last = m.seq })
                    (sample_time F day now_ms m) m (tunnels_of F day p node m))
                  (tunnels_of F day p node m).live,
            )
            (ground (arith, eqb_ℤ_iff node n))
    ]

    pub ledger-account :
        (c : Scope) (db : Db F)
        → ledger c F n db (account F day p now_ms node m).pipe
          ≡ ledger c F n db p
            +64 (if eqb_ℤ node n && ltb_ℤ (commit_seq F p n) m.seq then report_bytes c m else pos 0)
    unfolding ledger fold_sample
    ledger-account c db = elim (Bool-cases (leb_ℤ m.seq (commit_seq F p node))) [
      | inl h ↦ rw (account_stale day p now_ms node m h) (
          ap (λ t. wrap64 (durable c n db.traffic +ℤ t))
            (pending-insert_same c F n node p.st (get F p node) (get F p node) refl
              (get-cases p node))
          ∙ wrap64-+64_zero (durable c n db.traffic +ℤ pending c F n p.st)
          ∙ ap (λ t. ledger c F n db p +64 t) (ground (arith, eqb_ℤ_iff node n)))
      | inr h ↦ rw (account_new day p now_ms node m h) (
          pending-insert c F n node (durable c n db.traffic) _ _ p.st (get F p node) _ refl
            (get-cases p node)
          ∙ rw (bytes-traffic_of day c p node m)
              (ap (λ t. ledger c F n db p +64 t) (ground (arith, eqb_ℤ_iff node n))))
    ]

  -- A flush holds nothing back.
  pub pending-flush :
      (c : Scope) (n : ℤ) (ans : Answers) (db : Db F) (p : Pipeline F)
      → pending c F n (flush F ans db p).1.st ≡ pos 0
  unfolding flush
  pending-flush c n ans db p = elim (Bool-cases ans.db_up) [
    | inl h ↦
        rw (h, flush)
          (pending-persist_seqs c n F ans.seq_ok
              (write_traffic ans.traffic_ok
                (record { table = db.traffic; failed = []; failures = 0 })
                (traffic_rows F p.st)).failed
              db.commit_seq (drain F p.st)
            ∙ pending-drain c n F p.st)
    | inr h ↦ rw (h, flush) (pending-drain c n F p.st)
  ]

  -- What it held goes to the table, but for the rows that are refused.
  pub durable-flush :
      (c : Scope) (n : ℤ) (ans : Answers) (db : Db F) (p : Pipeline F)
      → ans.db_up ≡ true
      → durable c n (flush F ans db p).0.traffic +ℤ lost c n ans.traffic_ok (traffic_rows F p.st)
        ≡ durable c n db.traffic +ℤ pending c F n p.st
  unfolding flush
  durable-flush c n ans db p h = rw h (
      durable-write_traffic c n ans.traffic_ok
        (record { table = db.traffic; failed = []; failures = 0 }) (traffic_rows F p.st)
      ∙ ap (λ t. durable c n db.traffic +ℤ t) (rows_total-traffic_rows c n F p.st))

  pub commit_seq-flush :
      (n : ℤ) (ans : Answers) (db : Db F) (p : Pipeline F)
      → commit_seq F (flush F ans db p).1 n ≡ commit_seq F p n
  unfolding flush commit_seq
  commit_seq-flush n ans db p = elim (Bool-cases ans.db_up) [
    | inl h ↦
        rw (h, flush, commit_seq)
          (last_in-persist_seqs F n ans.seq_ok
              (write_traffic ans.traffic_ok start (traffic_rows F p.st)).failed db.commit_seq
              (drain F p.st)
            ∙ last_in-drain F n p.st)
    | inr h ↦ rw (h, flush, commit_seq) (last_in-drain F n p.st)
  ]
    where
      start : Written
      start = record { table = db.traffic; failed = []; failures = 0 }
