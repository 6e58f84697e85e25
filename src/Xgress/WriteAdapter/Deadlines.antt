-- ===== src/Xgress/WriteAdapter/Deadlines.antt =====
-- The deadline of a write over any sequence of calls, of passing time and of firing timers.
use sdk_golang.Common.{
  false_ne_true, ℕ, ◌+◌, ◌<◌, ◌≡◌, refl, sym, ◌∙◌, inl, inr, ◌⊎◌, Bool, true, false, Option, none,
  some, List, [], ◌∷◌, leb, if◌then◌else◌, All, Bool-cases, arith,
}
use sdk_golang.Xgress.WriteAdapter.{
  WriteAdapter, has, new_write_adapter, is_done, set_write_deadline, timer_fires, Clocked,
  Happening, sets, passes, fires, timer_at, at_time, fire, happen, then_happen, happen_all,
}
use sdk_golang.Xgress.WriteAdapter.Timely.{Timely, Good, passed, set_write_deadline-Good, fire-Good}

abbrev GoodAt : Option Clocked → Type 0
GoodAt none = ⊥
GoodAt (some c) = Timely c.now c.adapter

at_time-Good : (now : ℕ) (o : Option WriteAdapter) → Good now o → GoodAt (at_time now o)
at_time-Good now none h = h
at_time-Good now (some a) h = h

fire-GoodAt :
    (c : Clocked) (k : ℕ) (o : Option (ℕ × List ℕ))
    → Timely c.now c.adapter
    → timer_at k c.adapter.timers ≡ o
    → GoodAt (fire o c)
unfolding fire
fire-GoodAt c k none timely e = timely
fire-GoodAt c k (some (t, rest)) timely e = by_due (leb t c.now) refl
  where
    by_due :
        (b : Bool)
        → leb t c.now ≡ b
        → GoodAt (
            if b
            then at_time c.now (timer_fires t (record c.adapter { timers = rest }))
            else some c)
    by_due true due =
        at_time-Good c.now (timer_fires t (record c.adapter { timers = rest }))
          (fire-Good c.now t k c.adapter rest timely e (ground (arith, due)))
    by_due false early = timely

passes-Timely : (now d : ℕ) (a : WriteAdapter) → Timely now a → Timely (now + d) a
passes-Timely now d a timely = record {
  flag = timely.flag;
  numbered = timely.numbered;
  current = timely.current;
  not_early = λ h. let past = timely.not_early h in ground (arith, past);
  nonzero = timely.nonzero;
  timed = timely.timed;
}

happen-Good : (h : Happening) (c : Clocked) → Timely c.now c.adapter → GoodAt (happen h c)
unfolding happen
happen-Good (sets t) c timely =
    at_time-Good c.now (set_write_deadline c.now t c.adapter)
      (set_write_deadline-Good c.now t c.adapter timely)
happen-Good (passes d) c timely = passes-Timely c.now d c.adapter timely
happen-Good (fires k) c timely = fire-GoodAt c k (timer_at k c.adapter.timers) timely refl

happen_all-Good :
    (hs : List Happening) (c : Clocked) → Timely c.now c.adapter → GoodAt (happen_all hs c)
unfolding happen_all
happen_all-Good [] c timely = timely
happen_all-Good (h ∷ hs) c timely =
    later (happen h c) (happen-Good h c timely) (λ d good. happen_all-Good hs d good)
  where
    later :
        (o : Option Clocked)
        → GoodAt o
        → ((d : Clocked) → Timely d.now d.adapter → GoodAt (happen_all hs d))
        → GoodAt (then_happen (happen_all hs) o)
    later none good rest = good
    later (some d) good rest = rest d good

no_due : (now d : ℕ) (ts : List ℕ) → All (λ t. now < t) ts → has d ts ≡ true → leb d now ≡ false
no_due now d [] later there = absurd (false_ne_true there)
no_due now d (t ∷ ts) (ahead, later) there = ground (arith, ahead, there, no_due now d ts later)

-- What a write that waits for the channel sees.
pub record DoneInTime (c : Clocked) : Type 0 where
  pub never_early : is_done c.adapter ≡ true → passed c.now c.adapter ≡ true
  pub in_time : All (λ t. c.now < t) c.adapter.timers → is_done c.adapter ≡ passed c.now c.adapter

Timely-in_time : (c : Clocked) → Timely c.now c.adapter → DoneInTime c
Timely-in_time c timely = record {
  never_early = λ h. timely.not_early (sym timely.flag ∙ h);
  in_time = λ later. elim (Bool-cases c.adapter.done_notify_closed) [
    | inl shut ↦ timely.flag ∙ shut ∙ sym (timely.not_early shut)
    | inr going ↦ timely.flag ∙ going ∙ sym (not_yet later (timely.timed going))
  ];
}
  where
    not_yet :
        All (λ t. c.now < t) c.adapter.timers
        → (c.adapter.deadline ≡ 0) ⊎ (has c.adapter.deadline c.adapter.timers ≡ true)
        → passed c.now c.adapter ≡ false
    not_yet later (inl none_set) = ground (arith, none_set)
    not_yet later (inr planned) =
        let ahead = no_due c.now c.adapter.deadline c.adapter.timers later planned in
        ground (arith, ahead)

-- Whatever deadlines are set, however time passes and whichever due timers fire, a new write
-- adapter never closes a closed channel. Its done channel is closed only when a deadline is set and
-- has passed, and if no timer is due, it is closed exactly then.
pub happen_all-DoneInTime :
    (now : ℕ) (hs : List Happening)
    → (c : Clocked) × (happen_all hs (record { now = now; adapter = new_write_adapter }) ≡ some c)
      × DoneInTime c
unfolding new_write_adapter
happen_all-DoneInTime now hs = reached (happen_all hs start) refl (
    happen_all-Good hs start (record {
      flag = refl;
      numbered = tt;
      current = omega arith;
      not_early = λ h. absurd (false_ne_true h);
      nonzero = tt;
      timed = λ h. inl refl;
    }))
  where
    start : Clocked
    start = record { now = now; adapter = new_write_adapter }

    reached :
        (o : Option Clocked)
        → happen_all hs start ≡ o
        → GoodAt o
        → (c : Clocked) × (happen_all hs start ≡ some c) × DoneInTime c
    reached none e good = absurd good
    reached (some c) e good = (c, e, Timely-in_time c good)
