-- ===== src/Xgress/WriteAdapter/Timers.antt =====
-- The timers that are left when one has fired.
use sdk_golang.Common.{
  false_ne_true, ℕ, zero, suc, ◌≡◌, refl, sym, ap, ◌∙◌, Bool, true, false, ◌||◌, Option, none, some,
  List, [], ◌∷◌, ◌==◌, All, arith,
}
use mathlib.Core.Path.{subst}
use sdk_golang.Xgress.WriteAdapter.{has, timer_at}

pub timer_at-All :
    (P : ℕ → Type 0) (k : ℕ) (ts : List ℕ) (t : ℕ) (rest : List ℕ)
    → timer_at k ts ≡ some (t, rest)
    → All P ts
    → P t × All P rest
timer_at-All P k [] t rest e all = absurd (let impossible : none ≡ some (t, rest) = e in cc)
timer_at-All P zero (u ∷ us) t rest e (p, all) =
    let is_t : u ≡ t = (let h : some (u, us) ≡ some (t, rest) = e in cc) in
    let is_rest : us ≡ rest = (let h : some (u, us) ≡ some (t, rest) = e in cc) in
    (subst P is_t p, subst (All P) is_rest all)
timer_at-All P (suc k) (u ∷ us) t rest e (p, all) =
    later (timer_at k us) (λ v vs h. timer_at-All P k us v vs h all) e refl
  where
    later :
        (o : Option (ℕ × List ℕ))
        → ((v : ℕ) (vs : List ℕ) → timer_at k us ≡ some (v, vs) → P v × All P vs)
        → elim o as (λ o. Option (ℕ × List ℕ)) [ none ↦ none | some (v, vs) ↦ some (v, u ∷ vs) ]
          ≡ some (t, rest)
        → timer_at k us ≡ o
        → P t × All P rest
    later none here h is_o = absurd (let impossible : none ≡ some (t, rest) = h in cc)
    later (some (v, vs)) here h is_o =
        let (q, others) = here v vs is_o in
        let is_t : v ≡ t = (let g : some (v, u ∷ vs) ≡ some (t, rest) = h in cc) in
        let is_rest : u ∷ vs ≡ rest = (let g : some (v, u ∷ vs) ≡ some (t, rest) = h in cc) in
        (subst P is_t q, subst (All P) is_rest (p, others))

pub timer_at-has :
    (k : ℕ) (ts : List ℕ) (t d : ℕ) (rest : List ℕ)
    → timer_at k ts ≡ some (t, rest)
    → (t == d) ≡ false
    → has d ts ≡ true
    → has d rest ≡ true
timer_at-has k [] t d rest e other there = absurd (false_ne_true there)
timer_at-has zero (u ∷ us) t d rest e other there =
    let is_t : u ≡ t = (let h : some (u, us) ≡ some (t, rest) = e in cc) in
    let is_rest : us ≡ rest = (let h : some (u, us) ≡ some (t, rest) = e in cc) in
    let apart : (d == u) ≡ false = ground (arith, is_t, other) in
    ap (has d) (sym is_rest) ∙ sym (ap (λ b. b || has d us) apart) ∙ there
timer_at-has (suc k) (u ∷ us) t d rest e other there =
    later (timer_at k us) (λ v vs h g r. timer_at-has k us v d vs h g r) e refl
  where
    keep : (b c c' : Bool) → (c ≡ true → c' ≡ true) → (b || c) ≡ true → (b || c') ≡ true
    keep true c c' f h = refl
    keep false c c' f h = f h

    later :
        (o : Option (ℕ × List ℕ))
        → ((v : ℕ) (vs : List ℕ)
            → timer_at k us ≡ some (v, vs)
            → (v == d) ≡ false
            → has d us ≡ true
            → has d vs ≡ true)
        → elim o as (λ o. Option (ℕ × List ℕ)) [ none ↦ none | some (v, vs) ↦ some (v, u ∷ vs) ]
          ≡ some (t, rest)
        → timer_at k us ≡ o
        → has d rest ≡ true
    later none here h is_o = absurd (let impossible : none ≡ some (t, rest) = h in cc)
    later (some (v, vs)) here h is_o =
        let is_t : v ≡ t = (let g : some (v, u ∷ vs) ≡ some (t, rest) = h in cc) in
        let is_rest : u ∷ vs ≡ rest = (let g : some (v, u ∷ vs) ≡ some (t, rest) = h in cc) in
        subst (λ ts. has d ts ≡ true) is_rest
          (keep (d == u) (has d us) (has d vs) (here v vs is_o (ap (λ x. x == d) is_t ∙ other))
            there)
