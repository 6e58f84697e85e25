-- ===== src/Edge/Mux/NextId.antt =====
-- GetNextId returns an id that is not in use, and it returns one.
use sdk_golang.Common.{
  ℕ, zero, suc, ◌+◌, ◌-◌, ◌^◌, ◌≤◌, ◌<◌, ◌≡◌, ◌≢◌, refl, sym, ap, ◌∙◌, inl, inr, true, false, ◌||◌,
  none, some, List, [], ◌∷◌, ltb, leb, ◌==◌, length, arith, Bool-cases, Option-cases,
}
use sdk_golang.Common.Words.{add32}
use sdk_golang.Common.Map.{lookup, erase}
use sdk_golang.Common.Outcome.{Outcome, ok}
use sdk_golang.Edge.Mux.{ConcurrentMap, ConnMux, AddError, next_id_loop, get_next_id}

module _ {V : Type 0} where
  lookup-erase_other : (j k : ℕ) (m : List (ℕ × V)) → k ≢ j → lookup j (erase k m) ≡ lookup j m
  lookup-erase_other j k [] ne = refl
  lookup-erase_other j k ((i, w) ∷ m) ne = ground (arith, lookup-erase_other j k m ne)

  length-erase :
      (k : ℕ) (m : List (ℕ × V)) → lookup k m ≢ none → suc (length (erase k m)) ≡ length m
  length-erase k [] used = absurd (used refl)
  length-erase k ((i, w) ∷ m) used = elim (Bool-cases (i == k)) [
    | inl here ↦ rw here refl
    | inr there ↦ rw there (ap suc (length-erase k m (λ h. used (rw there h))))
  ]

  -- How far a scan from `k` has to go: over `steps` ids in use, to one that is free.
  record Free (k : ℕ) (m : List (ℕ × V)) : Type 0 where
    steps : ℕ
    few : steps ≤ length m
    free : lookup (k + steps) m ≡ none
    used : (i : ℕ) → i < steps → lookup (k + i) m ≢ none

  Free-here : (k : ℕ) (m : List (ℕ × V)) → lookup k m ≡ none → Free k m
  Free-here k m absent = record {
    steps = 0;
    few = omega arith;
    free = let e : k + 0 ≡ k = omega arith in rw e absent;
    used = λ i below. absurd (omega arith);
  }

  used_before :
      (k : ℕ) (m : List (ℕ × V)) (v : V)
      → lookup k m ≡ some v
      → (later : Free (suc k) (erase k m)) (i : ℕ) → i < suc later.steps
      → lookup (k + i) m ≢ none
  used_before k m v found later zero below h =
      let e : k + 0 ≡ k = omega arith in
      let no : some v ≡ none = sym found ∙ ap (λ x. lookup x m) (sym e) ∙ h in cc
  used_before k m v found later (suc i) below h =
      let e : suc k + i ≡ k + suc i = omega arith in
      later.used i (omega arith)
        (lookup-erase_other (suc k + i) k m (λ h. omega arith) ∙ ap (λ x. lookup x m) e ∙ h)

  Free-later :
      (k : ℕ) (m : List (ℕ × V)) (v : V) → lookup k m ≡ some v → Free (suc k) (erase k m) → Free k m
  Free-later k m v found later =
      let smaller = length-erase k m (λ e. let no : some v ≡ none = sym found ∙ e in cc) in
      record {
        steps = suc later.steps;
        few = omega (arith, later.few);
        free =
            let e : k + suc later.steps ≡ suc k + later.steps = omega arith in
            ap (λ x. lookup x m) e
            ∙ sym (lookup-erase_other (suc k + later.steps) k m (λ h. omega arith))
            ∙ later.free;
        used = used_before k m v found later;
      }

  -- Some id among as many as there are entries and one more is free.
  Free-from : (n k : ℕ) (m : List (ℕ × V)) → length m ≤ n → Free k m
  Free-from zero k [] h = Free-here k [] refl
  Free-from zero k (x ∷ m) h = absurd (omega arith)
  Free-from (suc n) k m h = elim (Option-cases (lookup k m)) [
    | inl absent ↦ Free-here k m absent
    | inr (v, found) ↦
        let smaller = length-erase k m (λ e. let no : some v ≡ none = sym found ∙ e in cc) in
        Free-later k m v found (Free-from n (suc k) (erase k m) (omega arith))
  ]

  module _ (cm : ConcurrentMap V) where
    abbrev at : ℕ → ConnMux cm → ConnMux cm
    at id mux = record mux { next_id = id }

    -- One round: an id in use, a free one out of the range, and a free one in it.
    round_used :
        (fuel k : ℕ) (mux : ConnMux cm)
        → k + 1 < 2 ^ 32
        → lookup k (cm.items mux.sinks) ≢ none
        → next_id_loop cm (suc fuel) k (at k mux) ≡ next_id_loop cm fuel (suc k) (at (suc k) mux)
    unfolding next_id_loop
    round_used fuel k mux small used = elim (Option-cases (lookup k (cm.items mux.sinks))) [
      | inl absent ↦ absurd (used absent)
      | inr (v, found) ↦
          let following : add32 k 1 ≡ suc k = omega arith in
          rw (cm.get-items k mux.sinks, found, following) refl
    ]

    round_reset :
        (fuel k : ℕ) (mux : ConnMux cm)
        → lookup k (cm.items mux.sinks) ≡ none
        → (ltb k mux.min_id || leb mux.max_id k) ≡ true
        → mux.min_id + 1 < 2 ^ 32
        → next_id_loop cm (suc fuel) k (at k mux)
          ≡ next_id_loop cm fuel (suc mux.min_id) (at (suc mux.min_id) mux)
    unfolding next_id_loop
    round_reset fuel k mux absent outside small =
        let reset : add32 mux.min_id 1 ≡ suc mux.min_id = omega arith in
        rw (cm.get-items k mux.sinks, absent, outside, reset) refl

    round_free :
        (fuel k : ℕ) (mux : ConnMux cm)
        → lookup k (cm.items mux.sinks) ≡ none
        → (ltb k mux.min_id || leb mux.max_id k) ≡ false
        → next_id_loop cm (suc fuel) k (at k mux) ≡ ok (k, at k mux)
    unfolding next_id_loop
    round_free fuel k mux absent inside = rw (cm.get-items k mux.sinks, absent, inside) refl

    -- The loop passes the ids in use one by one.
    loop_used :
        (j fuel k : ℕ) (mux : ConnMux cm)
        → k + j < 2 ^ 32
        → ((i : ℕ) → i < j → lookup (k + i) (cm.items mux.sinks) ≢ none)
        → next_id_loop cm (j + fuel) k (at k mux) ≡ next_id_loop cm fuel (k + j) (at (k + j) mux)
    loop_used zero fuel k mux small used =
        let a : 0 + fuel ≡ fuel = omega arith in let b : k + 0 ≡ k = omega arith in rw (a, b) refl
    loop_used (suc j) fuel k mux small used =
        let a : suc j + fuel ≡ suc (j + fuel) = omega arith in
        let b : k + suc j ≡ suc k + j = omega arith in
        let zeroth : k + 0 ≡ k = omega arith in
        let here : lookup k (cm.items mux.sinks) ≢ none =
          λ h. used 0 (omega arith) (ap (λ x. lookup x (cm.items mux.sinks)) zeroth ∙ h) in
        let later : (i : ℕ) → i < j → lookup (suc k + i) (cm.items mux.sinks) ≢ none = λ i below h.
          let e : k + suc i ≡ suc k + i = omega arith in
          used (suc i) (omega arith) (ap (λ x. lookup x (cm.items mux.sinks)) e ∙ h) in
        rw (a, b)
          (round_used (j + fuel) k mux (omega arith) here
            ∙ loop_used j fuel (suc k) mux (omega arith) later)

    -- What GetNextId gives: an id in the range that no sink has, which is where the counter stands.
    pub record Fresh (mux : ConnMux cm) (result : Outcome AddError (ℕ × ConnMux cm)) : Type 0 where
      pub id : ℕ
      pub returns : result ≡ ok (id, at id mux)
      pub free : lookup id (cm.items mux.sinks) ≡ none
      pub low : mux.min_id ≤ id
      pub high : id < mux.max_id

    -- A scan that stays below the end of the range.
    scan_inside :
        (fuel k : ℕ) (mux : ConnMux cm)
        → length (cm.items mux.sinks) < fuel
        → mux.min_id ≤ k
        → k + length (cm.items mux.sinks) < mux.max_id
        → mux.max_id < 2 ^ 32
        → Fresh mux (next_id_loop cm fuel k (at k mux))
    scan_inside fuel k mux enough low room small =
        let m = cm.items mux.sinks in
        let s : Free k m = Free-from (length m) k m (omega arith) in
        let split : fuel ≡ s.steps + suc (fuel - s.steps - 1) = omega (arith, s.few) in
        let inside : (ltb (k + s.steps) mux.min_id || leb mux.max_id (k + s.steps)) ≡ false =
          ground (arith, s.few) in
        record {
          id = k + s.steps;
          returns =
              ap (λ n. next_id_loop cm n k (at k mux)) split
              ∙ loop_used s.steps (suc (fuel - s.steps - 1)) k mux (omega (arith, s.few)) s.used
              ∙ round_free (fuel - s.steps - 1) (k + s.steps) mux s.free inside;
          free = s.free;
          low = omega arith;
          high = omega (arith, s.few);
        }

    scan :
        (fuel k : ℕ) (mux : ConnMux cm)
        → length (cm.items mux.sinks) + length (cm.items mux.sinks) + 1 < fuel
        → k ≤ mux.max_id
        → mux.min_id + 1 + length (cm.items mux.sinks) < mux.max_id
        → mux.max_id < 2 ^ 31
        → Fresh mux (next_id_loop cm fuel k (at k mux))
    scan fuel k mux enough below room small =
        let m = cm.items mux.sinks in
        let s : Free k m = Free-from (length m) k m (omega arith) in
        let left = fuel - s.steps - 1 in
        let split : fuel ≡ s.steps + suc left = omega (arith, s.few) in
        let passed : next_id_loop cm fuel k (at k mux)
            ≡ next_id_loop cm (suc left) (k + s.steps) (at (k + s.steps) mux) =
          ap (λ n. next_id_loop cm n k (at k mux)) split
          ∙ loop_used s.steps (suc left) k mux (omega (arith, s.few)) s.used in
        elim (Bool-cases (ltb (k + s.steps) mux.min_id || leb mux.max_id (k + s.steps))) [
          | inl outside ↦
              let again : Fresh mux
                  (next_id_loop cm left (suc mux.min_id) (at (suc mux.min_id) mux)) =
                scan_inside left (suc mux.min_id) mux (omega (arith, s.few)) (omega arith)
                  (omega arith) (omega arith) in
              record {
                id = again.id;
                returns =
                    passed
                    ∙ round_reset left (k + s.steps) mux s.free outside (omega arith)
                    ∙ again.returns;
                free = again.free;
                low = again.low;
                high = again.high;
              }
          | inr inside ↦ record {
            id = k + s.steps;
            returns = passed ∙ round_free left (k + s.steps) mux s.free inside;
            free = s.free;
            low = ground (arith, inside);
            high = ground (arith, inside);
          }
        ]

    -- While the counter is below the end of the range, which is below 2^31, and the range has more
    -- ids than the mux has sinks, GetNextId returns: an id in the range, which no sink has, and
    -- where the counter then stands.
    pub get_next_id-Fresh :
        (mux : ConnMux cm)
        → mux.next_id < mux.max_id
        → mux.min_id + 1 + length (cm.items mux.sinks) < mux.max_id
        → mux.max_id < 2 ^ 31
        → Fresh mux (get_next_id cm mux)
    unfolding get_next_id
    get_next_id-Fresh mux below room small =
        let first : add32 mux.next_id 1 ≡ suc mux.next_id = omega arith in
        rw (first, cm.count-items mux.sinks)
          (scan _ (suc mux.next_id) mux (omega arith) (omega arith) room small)
