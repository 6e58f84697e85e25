-- ===== src/Xgress/Lifecycle/Log.antt =====
-- What the log of an Xgress counts, and how it agrees with the flags.
use sdk_golang.Common.{ℕ, suc, ◌+◌, ◌≡◌, Bool, true, false, ◌&&◌, List, [], ◌∷◌, ◌++◌, arith}
use sdk_golang.Common.Outcome.{Outcome, ok}
use sdk_golang.Xgress.Lifecycle.{
  Event, forwarded, closed_peer, ran_close_handlers, closed_notify, Life,
}

-- How often the peer was closed, the close handlers ran, and the notify channel was closed.
abbrev pub peer_closes : List Event → ℕ
peer_closes [] = 0
peer_closes (closed_peer ∷ es) = suc (peer_closes es)
peer_closes (_ ∷ es) = peer_closes es

abbrev pub handler_runs : List Event → ℕ
handler_runs [] = 0
handler_runs (ran_close_handlers ∷ es) = suc (handler_runs es)
handler_runs (_ ∷ es) = handler_runs es

abbrev pub notify_closes : List Event → ℕ
notify_closes [] = 0
notify_closes (closed_notify ∷ es) = suc (notify_closes es)
notify_closes (_ ∷ es) = notify_closes es

abbrev pub once : Bool → ℕ
once true = 1
once false = 0

pub peer_closes-append :
    (es fs : List Event) → peer_closes (es ++ fs) ≡ peer_closes es + peer_closes fs
peer_closes-append [] fs = omega arith
peer_closes-append (forwarded p ∷ es) fs = peer_closes-append es fs
peer_closes-append (closed_peer ∷ es) fs = omega (arith, peer_closes-append es fs)
peer_closes-append (ran_close_handlers ∷ es) fs = peer_closes-append es fs
peer_closes-append (closed_notify ∷ es) fs = peer_closes-append es fs

pub handler_runs-append :
    (es fs : List Event) → handler_runs (es ++ fs) ≡ handler_runs es + handler_runs fs
handler_runs-append [] fs = omega arith
handler_runs-append (forwarded p ∷ es) fs = handler_runs-append es fs
handler_runs-append (closed_peer ∷ es) fs = handler_runs-append es fs
handler_runs-append (ran_close_handlers ∷ es) fs = omega (arith, handler_runs-append es fs)
handler_runs-append (closed_notify ∷ es) fs = handler_runs-append es fs

pub notify_closes-append :
    (es fs : List Event) → notify_closes (es ++ fs) ≡ notify_closes es + notify_closes fs
notify_closes-append [] fs = omega arith
notify_closes-append (forwarded p ∷ es) fs = notify_closes-append es fs
notify_closes-append (closed_peer ∷ es) fs = notify_closes-append es fs
notify_closes-append (ran_close_handlers ∷ es) fs = notify_closes-append es fs
notify_closes-append (closed_notify ∷ es) fs = omega (arith, notify_closes-append es fs)

-- What the log says: the peer is closed and the handlers run once, when the Xgress has closed, and
-- the notify channel is closed once, when the client's side has.
pub record Logged (s : Life) : Type 0 where
  pub peer_once : peer_closes s.events ≡ once s.closed
  pub handlers_once : handler_runs s.events ≡ once s.closed
  pub notify_once : notify_closes s.events ≡ once s.closed_txer

-- The Xgress has closed exactly when both of its directions have.
pub record Sound (s : Life) : Type 0 where
  pub logged : Logged s
  pub both : s.closed ≡ (s.buffer_closed && s.closed_txer)

-- A call that returns a sound Xgress.
abbrev pub Ends : Outcome (Unit {0}) Life → Type 0
Ends m = (r : Life) × (m ≡ ok r) × Sound r
