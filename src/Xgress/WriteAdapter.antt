-- ===== src/Xgress/WriteAdapter.antt =====
-- xgress/xgress.go: WriteAdapter, the context of a write: its deadline closes a channel that the
-- write waits for.
pub mod Timers
pub mod Timely
pub mod Deadlines
use sdk_golang.Common.{
  ℕ, zero, suc, ◌+◌, ◌≤◌, ◌<◌, ◌≡◌, Bool, true, false, not, ◌&&◌, ◌||◌, Option, none, some, List,
  [], ◌∷◌, ◌++◌, ltb, leb, ◌==◌, if◌then◌else◌,
}

-- The adapter, with the runtime's part of it: the channels that have been made and closed, by
-- number, and the timers that have not fired, each with the time it was made for. The time 0 is
-- Go's zero time.
pub record WriteAdapter : Type 0 where
  pub deadline : ℕ
  pub done_notify : ℕ
  pub done_notify_closed : Bool
  pub made : ℕ
  pub closed : List ℕ
  pub timers : List ℕ

abbrev pub has : ℕ → List ℕ → Bool
has k [] = false
has k (j ∷ js) = k == j || has k js

-- NewWriteAdapter
unfoldable pub new_write_adapter : WriteAdapter
new_write_adapter = record {
  deadline = 0;
  done_notify = 0;
  done_notify_closed = false;
  made = 1;
  closed = [];
  timers = [];
}

-- Deadline, and whether the channel of Done is closed.
abbrev pub deadline_set : WriteAdapter → ℕ × Bool
deadline_set a = (a.deadline, not (a.deadline == 0))

abbrev pub is_done : WriteAdapter → Bool
is_done a = has a.done_notify a.closed

-- A closed channel is replaced.
abbrev pub renew : WriteAdapter → WriteAdapter
renew a =
    if a.done_notify_closed
    then record a { done_notify = a.made; made = suc a.made; done_notify_closed = false }
    else a

-- A channel that is not closed is closed; the close of a closed channel panics, which is `none`.
abbrev pub finish : WriteAdapter → Option WriteAdapter
finish a =
    if a.done_notify_closed
    then some a
    else if has a.done_notify a.closed
    then none
    else some (record a { closed = a.done_notify ∷ a.closed; done_notify_closed = true })

-- SetWriteDeadline, at a time.
unfoldable pub set_write_deadline : ℕ → ℕ → WriteAdapter → Option WriteAdapter
set_write_deadline now t a =
    let stored : WriteAdapter = record a { deadline = t } in
    if t == 0
    then some (renew stored)
    else if ltb now t
    then some (record (renew stored) { timers = a.timers ++ (t ∷ []) })
    else finish stored

-- The function of a timer, which acts if its time is still the deadline.
unfoldable pub timer_fires : ℕ → WriteAdapter → Option WriteAdapter
timer_fires t a = if t == a.deadline then finish a else some a

-- The adapter at a time, and what happens to it.
pub record Clocked : Type 0 where
  pub now : ℕ
  pub adapter : WriteAdapter

-- A deadline is set, time passes, or the timer in a position fires.
pub data Happening : Type 0 where
  sets : ℕ → Happening
  passes : ℕ → Happening
  fires : ℕ → Happening

abbrev pub timer_at : ℕ → List ℕ → Option (ℕ × List ℕ)
timer_at k [] = none
timer_at zero (t ∷ ts) = some (t, ts)
timer_at (suc k) (t ∷ ts) = elim (timer_at k ts) [ none ↦ none | some (u, us) ↦ some (u, t ∷ us) ]

abbrev pub at_time : ℕ → Option WriteAdapter → Option Clocked
at_time now none = none
at_time now (some a) = some (record { now = now; adapter = a })

-- A timer fires at its time or later, and once.
unfoldable pub fire : Option (ℕ × List ℕ) → Clocked → Option Clocked
unfolding timer_fires
fire none c = some c
fire (some (t, rest)) c =
    if leb t c.now
    then at_time c.now (timer_fires t (record c.adapter { timers = rest }))
    else some c

unfoldable pub happen : Happening → Clocked → Option Clocked
unfolding set_write_deadline fire
happen (sets t) c = at_time c.now (set_write_deadline c.now t c.adapter)
happen (passes d) c = some (record c { now = c.now + d })
happen (fires k) c = fire (timer_at k c.adapter.timers) c

abbrev pub then_happen : (Clocked → Option Clocked) → Option Clocked → Option Clocked
then_happen f none = none
then_happen f (some c) = f c

unfoldable pub happen_all : List Happening → Clocked → Option Clocked
unfolding happen
happen_all [] c = some c
happen_all (h ∷ hs) c = then_happen (happen_all hs) (happen h c)
