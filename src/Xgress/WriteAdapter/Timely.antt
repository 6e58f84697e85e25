-- ===== src/Xgress/WriteAdapter/Timely.antt =====
-- The done channel of a write adapter is closed when its deadline has passed, and not before.
use sdk_golang.Common.{
  false_ne_true, true_ne_false, ℕ, suc, ◌≤◌, ◌<◌, ◌≡◌, ◌≢◌, refl, sym, ◌∙◌, inl, inr, ◌⊎◌, Bool,
  true, false, not, ◌&&◌, Option, none, some, List, [], ◌∷◌, ◌++◌, ltb, leb, ◌==◌, if◌then◌else◌,
  All, arith,
}
use mathlib.Core.Path.{subst}
use sdk_golang.Xgress.WriteAdapter.{
  WriteAdapter, has, is_done, renew, finish, set_write_deadline, timer_fires, timer_at,
}
use sdk_golang.Xgress.WriteAdapter.Timers.{timer_at-All, timer_at-has}

-- The deadline has passed.
abbrev pub passed : ℕ → WriteAdapter → Bool
passed now a = not (a.deadline == 0) && leb a.deadline now

-- The channel is open until the deadline has passed, and closed from then on once the timers that
-- are due have fired.
pub record Timely (now : ℕ) (a : WriteAdapter) : Type 0 where
  pub flag : is_done a ≡ a.done_notify_closed
  pub numbered : All (λ k. k < a.made) a.closed
  pub current : a.done_notify < a.made
  pub not_early : a.done_notify_closed ≡ true → passed now a ≡ true
  pub nonzero : All (λ t. t ≢ 0) a.timers
  pub timed : a.done_notify_closed ≡ false → (a.deadline ≡ 0) ⊎ (has a.deadline a.timers ≡ true)

has-fresh : (k : ℕ) (js : List ℕ) → All (λ j. j < k) js → has k js ≡ false
has-fresh k [] fresh = refl
has-fresh k (j ∷ js) (below, fresh) = ground (arith, below, has-fresh k js fresh)

has-append : (k : ℕ) (js : List ℕ) → has k (js ++ (k ∷ [])) ≡ true
has-append k [] = ground arith
has-append k (j ∷ js) = ground (arith, has-append k js)

wider : (k : ℕ) (js : List ℕ) → All (λ j. j < k) js → All (λ j. j < suc k) js
wider k [] below = tt
wider k (j ∷ js) (b, below) = (omega (arith, b), wider k js below)

All-append_one : (P : ℕ → Type 0) (js : List ℕ) (k : ℕ) → All P js → P k → All P (js ++ (k ∷ []))
All-append_one P [] k h p = (p, tt)
All-append_one P (j ∷ js) k (q, h) p = (q, All-append_one P js k h p)

-- A deadline that is set to a time that has not passed, or to none.
renew-Timely :
    (now t : ℕ) (a : WriteAdapter) (ts : List ℕ)
    → Timely now a
    → All (λ t. t ≢ 0) ts
    → (t ≡ 0) ⊎ (has t ts ≡ true)
    → Timely now (record (renew (record a { deadline = t })) { timers = ts })
renew-Timely now t a ts timely nonzero planned = by_flag a.done_notify_closed refl
  where
    stored : WriteAdapter
    stored = record a { deadline = t }

    by_flag :
        (b : Bool)
        → a.done_notify_closed ≡ b
        → Timely now
            (record (if b
              then record stored {
                done_notify = stored.made;
                made = suc stored.made;
                done_notify_closed = false;
              }
              else stored) { timers = ts })
    by_flag true e = record {
      flag = has-fresh a.made a.closed timely.numbered;
      numbered = wider a.made a.closed timely.numbered;
      current = omega arith;
      not_early = λ h. absurd (false_ne_true h);
      nonzero = nonzero;
      timed = λ h. planned;
    }
    by_flag false e = record {
      flag = timely.flag;
      numbered = timely.numbered;
      current = timely.current;
      not_early = λ h. absurd (false_ne_true (sym e ∙ h));
      nonzero = nonzero;
      timed = λ h. planned;
    }

renew_timers : (a : WriteAdapter) → record (renew a) { timers = a.timers } ≡ renew a
renew_timers a = by_flag a.done_notify_closed
  where
    by_flag :
        (b : Bool)
        → record (if b
            then record a { done_notify = a.made; made = suc a.made; done_notify_closed = false }
            else a) { timers = a.timers }
          ≡ (if b
              then record a { done_notify = a.made; made = suc a.made; done_notify_closed = false }
              else a)
    by_flag true = refl
    by_flag false = refl

-- The code does not panic, and the result is timely.
abbrev pub Good : ℕ → Option WriteAdapter → Type 0
Good now none = ⊥
Good now (some a) = Timely now a

finish-Good :
    (now : ℕ) (a : WriteAdapter)
    → is_done a ≡ a.done_notify_closed
    → All (λ k. k < a.made) a.closed
    → a.done_notify < a.made
    → All (λ t. t ≢ 0) a.timers
    → passed now a ≡ true
    → Good now (finish a)
finish-Good now a flag numbered current nonzero past = by_flag a.done_notify_closed refl
  where
    by_flag :
        (b : Bool)
        → a.done_notify_closed ≡ b
        → Good now (
            if b
            then some a
            else if has a.done_notify a.closed
            then none
            else some (record a { closed = a.done_notify ∷ a.closed; done_notify_closed = true }))
    by_flag true e = record {
      flag = flag;
      numbered = numbered;
      current = current;
      not_early = λ h. past;
      nonzero = nonzero;
      timed = λ h. absurd (true_ne_false (sym e ∙ h));
    }
    by_flag false e =
        subst
          (λ b. Good now (
            if b
            then none
            else some (record a { closed = a.done_notify ∷ a.closed; done_notify_closed = true })))
          (sym (flag ∙ e))
          (record {
            flag = ground arith;
            numbered = (current, numbered);
            current = current;
            not_early = λ h. past;
            nonzero = nonzero;
            timed = λ h. absurd (true_ne_false h);
          })

pub set_write_deadline-Good :
    (now t : ℕ) (a : WriteAdapter) → Timely now a → Good now (set_write_deadline now t a)
unfolding set_write_deadline
set_write_deadline-Good now t a timely = by_time (t == 0) (ltb now t) refl refl
  where
    stored : WriteAdapter
    stored = record a { deadline = t }

    by_time :
        (b d : Bool)
        → (t == 0) ≡ b
        → ltb now t ≡ d
        → Good now (
            if b
            then some (renew stored)
            else if d
            then some (record (renew stored) { timers = a.timers ++ (t ∷ []) })
            else finish stored)
    by_time true d none_set later =
        subst (Timely now) (renew_timers stored)
          (renew-Timely now t a a.timers timely timely.nonzero (inl (ground (arith, none_set))))
    by_time false true is_set later =
        let ahead : now < t = ground (arith, later) in
        let some_time : t ≢ 0 = omega (arith, ahead) in
        renew-Timely now t a (a.timers ++ (t ∷ [])) timely
          (All-append_one (λ t. t ≢ 0) a.timers t timely.nonzero some_time)
          (inr (has-append t a.timers))
    by_time false false is_set later =
        finish-Good now stored timely.flag timely.numbered timely.current timely.nonzero
          (ground (arith, is_set, later))

pub fire-Good :
    (now t k : ℕ) (a : WriteAdapter) (rest : List ℕ)
    → Timely now a
    → timer_at k a.timers ≡ some (t, rest)
    → t ≤ now
    → Good now (timer_fires t (record a { timers = rest }))
unfolding timer_fires
fire-Good now t k a rest timely taken due = by_deadline (t == a.deadline) refl
  where
    nonzero : (t ≢ 0) × All (λ t. t ≢ 0) rest
    nonzero = timer_at-All (λ t. t ≢ 0) k a.timers t rest taken timely.nonzero

    by_deadline :
        (b : Bool)
        → (t == a.deadline) ≡ b
        → Good now
            (if b then finish (record a { timers = rest }) else some (record a { timers = rest }))
    by_deadline true same =
        let some_time = nonzero.0 in
        finish-Good now (record a { timers = rest }) timely.flag timely.numbered timely.current
          nonzero.1 (ground (arith, same, some_time, due))
    by_deadline false other = record {
      flag = timely.flag;
      numbered = timely.numbered;
      current = timely.current;
      not_early = timely.not_early;
      nonzero = nonzero.1;
      timed = λ h. elim (timely.timed h) [
        | inl none_set ↦ inl none_set
        | inr planned ↦ inr (timer_at-has k a.timers t a.deadline rest taken other planned)
      ];
    }
