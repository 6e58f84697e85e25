-- ===== src/Xgress/Lifecycle/Close.antt =====
-- The calls that close an Xgress or one of its directions.
use sdk_golang.Common.{
  ◌≡◌, refl, sym, ap, ◌∙◌, inl, inr, true, false, ◌&&◌, if◌then◌else◌, arith, Bool-cases,
}
use sdk_golang.Common.Outcome.{ok}
use sdk_golang.Xgress.Lifecycle.{
  closed_peer, ran_close_handlers, Life, emit, flag_payload, send_end_of_circuit, close_txer, close,
  close_xgress, close_send_buffer, close_xg_to_client,
}
use sdk_golang.Xgress.Lifecycle.Log.{
  peer_closes, handler_runs, notify_closes, once, peer_closes-append, handler_runs-append,
  notify_closes-append, Logged, Sound, Ends,
}

abbrev finish : Life → Life
finish s =
    let ended = emit closed_peer (send_end_of_circuit (record s { closed = true })) in
    emit ran_close_handlers (record (close_txer ended) { buffer_closed = true })

close_lem : (s : Life) → close_xgress s ≡ ok (if s.closed then s else finish s)
unfolding close close_txer send_end_of_circuit flag_payload
close_lem s = elim (Bool-cases s.closed) [
  | inl closed ↦ rw closed refl
  | inr running ↦ elim (Bool-cases s.closed_txer) [
    | inl stopped ↦ rw (running, stopped) refl
    | inr going ↦ rw (running, going) refl
  ]
]

finish-Sound : (s : Life) → Logged s → s.closed ≡ false → Sound (finish s)
unfolding close_txer send_end_of_circuit flag_payload
finish-Sound s l running =
    let peer : peer_closes s.events ≡ 0 = l.peer_once ∙ ap once running in
    let handlers : handler_runs s.events ≡ 0 = l.handlers_once ∙ ap once running in
    elim (Bool-cases s.closed_txer) [
      | inl stopped ↦
          let notified : notify_closes s.events ≡ 1 = l.notify_once ∙ ap once stopped in
          rw stopped (record {
            logged = record {
              peer_once = simp (peer_closes-append, peer) (omega arith);
              handlers_once = simp (handler_runs-append, handlers) (omega arith);
              notify_once = simp (notify_closes-append, notified) (omega arith);
            };
            both = refl;
          })
      | inr going ↦
          let notified : notify_closes s.events ≡ 0 = l.notify_once ∙ ap once going in
          rw going (record {
            logged = record {
              peer_once = simp (peer_closes-append, peer) (omega arith);
              handlers_once = simp (handler_runs-append, handlers) (omega arith);
              notify_once = simp (notify_closes-append, notified) (omega arith);
            };
            both = refl;
          })
    ]

pub close-Ends :
    (s : Life)
    → Logged s
    → (s.closed ≡ true → (s.buffer_closed && s.closed_txer) ≡ true)
    → Ends (close_xgress s)
close-Ends s l done = elim (Bool-cases s.closed) [
  | inl closed ↦ (
    s,
    close_lem s ∙ ap (λ b. ok (if b then s else finish s)) closed,
    record { logged = l; both = closed ∙ sym (done closed) },
  )
  | inr running ↦ (
    finish s,
    close_lem s ∙ ap (λ b. ok (if b then s else finish s)) running,
    finish-Sound s l running,
  )
]

pub close_send_buffer-Ends : (s : Life) → Sound s → Ends (close_send_buffer s)
unfolding close_send_buffer
close_send_buffer-Ends s k =
    let buffered : Life = record s { buffer_closed = true } in
    let l : Logged buffered = record {
      peer_once = k.logged.peer_once;
      handlers_once = k.logged.handlers_once;
      notify_once = k.logged.notify_once;
    } in
    elim (Bool-cases s.closed_txer) [
      | inl stopped ↦
          let (r, e, sound) = close-Ends buffered l (λ closed. stopped) in
          (r, ap (λ b. if b then close_xgress buffered else ok buffered) stopped ∙ e, sound)
      | inr going ↦ (
        buffered,
        ap (λ b. if b then close_xgress buffered else ok buffered) going,
        record { logged = l; both = ground (arith, k.both, going) },
      )
    ]

close_txer-Logged :
    (s : Life)
    → Logged s
    → Logged (close_txer s)
      × ((close_txer s).closed_txer ≡ true)
      × ((close_txer s).closed ≡ s.closed)
      × ((close_txer s).buffer_closed ≡ s.buffer_closed)
unfolding close_txer
close_txer-Logged s l = elim (Bool-cases s.closed_txer) [
  | inl stopped ↦ rw stopped (
    record {
      peer_once = l.peer_once;
      handlers_once = l.handlers_once;
      notify_once = l.notify_once ∙ ap once stopped;
    },
    refl,
    refl,
    refl,
  )
  | inr going ↦
      let notified : notify_closes s.events ≡ 0 = l.notify_once ∙ ap once going in
      rw going (
        record {
          peer_once = simp peer_closes-append (omega (arith, l.peer_once));
          handlers_once = simp handler_runs-append (omega (arith, l.handlers_once));
          notify_once = simp (notify_closes-append, notified) (omega arith);
        },
        refl,
        refl,
        refl,
      )
]

pub close_xg_to_client-Ends : (s : Life) → Sound s → Ends (close_xg_to_client s)
unfolding close_xg_to_client
close_xg_to_client-Ends s k =
    let stopped : Life = close_txer s in
    let (l, txer, same, buffer) = close_txer-Logged s k.logged in
    elim (Bool-cases s.buffer_closed) [
      | inl done ↦
          let (r, e, sound) = close-Ends stopped l (λ closed. ground (arith, txer, buffer, done)) in
          (r, ap (λ b. if b then close_xgress stopped else ok stopped) (buffer ∙ done) ∙ e, sound)
      | inr open_buffer ↦ (
        stopped,
        ap (λ b. if b then close_xgress stopped else ok stopped) (buffer ∙ open_buffer),
        record { logged = l; both = ground (arith, k.both, same, buffer, open_buffer) },
      )
    ]
