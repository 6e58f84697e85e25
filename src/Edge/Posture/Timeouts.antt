-- ===== src/Edge/Posture/Timeouts.antt =====
-- The lowest timeout of the TOTP checks that are asked for.
use sdk_golang.Common.{
  false_ne_true, true_ne_false, ℕ, zero, suc, ◌≤◌, ◌≡◌, refl, sym, inl, inr, ◌⊎◌, Bool, true, false,
  not, ◌&&◌, ◌||◌, Option, none, some, List, [], ◌∷◌, if◌then◌else◌, Bool-cases, arith, All,
}
use mathlib.Core.Path.{subst}
use sdk_golang.Common.Text.{str_eq}
use sdk_golang.Common.Int.{ℤ, pos, negsuc, ltb_int, eq_int, ◌≤ℤ◌}
use sdk_golang.Edge.Posture.{
  CheckTypes, Query, lower, get_lowest_totp_timeout, totp_posture_check_no_timeout,
}

-- A timeout of a query: seconds, or that there is none.
abbrev pub IsTimeout : ℤ → Type 0
IsTimeout (pos n) = Unit {0}
IsTimeout (negsuc zero) = Unit {0}
IsTimeout (negsuc (suc n)) = ⊥

abbrev pub is_never : ℤ → Bool
is_never (pos n) = false
is_never (negsuc n) = true

abbrev pub timeout_of : Bool → Option ℤ → List ℤ → List ℤ
timeout_of true (some t) ts = t ∷ ts
timeout_of true none ts = ts
timeout_of false o ts = ts

abbrev pub some_never : List ℤ → Bool
some_never [] = false
some_never (t ∷ ts) = is_never t || some_never ts

-- The timeouts behind the last one that says there is none.
abbrev pub behind_never : List ℤ → List ℤ
behind_never [] = []
behind_never (t ∷ ts) = if some_never ts then behind_never ts else if is_never t then ts else t ∷ ts

abbrev pub Among : ℤ → List ℤ → Type 0
Among r [] = ⊥
Among r (t ∷ ts) = (r ≡ t) ⊎ Among r ts

-- The lowest of the timeouts, or none if there are none.
abbrev pub IsLowest : ℤ → List ℤ → Type 0
IsLowest r [] = r ≡ totp_posture_check_no_timeout
IsLowest r (t ∷ ts) = Among r (t ∷ ts) × All (λ u. r ≤ℤ u) (t ∷ ts)

module _ (types : CheckTypes) where
  -- The timeouts of the MFA queries.
  abbrev pub mfa_timeouts : List Query → List ℤ
  mfa_timeouts [] = []
  mfa_timeouts (q ∷ qs) = timeout_of (str_eq q.query_type types.mfa) q.timeout (mfa_timeouts qs)

  fold : List ℤ → ℤ → ℤ
  fold [] cur = cur
  fold (t ∷ ts) cur = fold ts (lower types (some t) cur)

  get_lowest_totp_timeout-fold :
      (qs : List Query) (cur : ℤ)
      → get_lowest_totp_timeout types qs cur ≡ fold (mfa_timeouts qs) cur
  unfolding get_lowest_totp_timeout fold
  get_lowest_totp_timeout-fold [] cur = refl
  get_lowest_totp_timeout-fold (q ∷ qs) cur =
      step (str_eq q.query_type types.mfa) q.timeout (λ c. get_lowest_totp_timeout-fold qs c)
    where
      step :
          (b : Bool) (o : Option ℤ)
          → ((c : ℤ) → get_lowest_totp_timeout types qs c ≡ fold (mfa_timeouts qs) c)
          → get_lowest_totp_timeout types qs (if b then lower types o cur else cur)
            ≡ fold (timeout_of b o (mfa_timeouts qs)) cur
      step true (some t) rest = rest (lower types (some t) cur)
      step true none rest = rest cur
      step false o rest = rest cur

  -- Two timeouts that end.
  lower_pos :
      (n c : ℕ)
      → ((lower types (some (pos n)) (pos c) ≡ pos n) × (n ≤ c))
        ⊎ ((lower types (some (pos n)) (pos c) ≡ pos c) × (c ≤ n))
  lower_pos n c = ground arith

  lower_none : (n : ℕ) → lower types (some (pos n)) (negsuc 0) ≡ pos n
  lower_none n = ground arith

  lower_never : (cur : ℤ) → IsTimeout cur → lower types (some (negsuc 0)) cur ≡ negsuc 0
  lower_never (pos n) h = ground arith
  lower_never (negsuc zero) h = refl
  lower_never (negsuc (suc n)) h = absurd h

  lower-IsTimeout : (t cur : ℤ) → IsTimeout t → IsTimeout cur → IsTimeout (lower types (some t) cur)
  lower-IsTimeout t cur is_t is_cur =
      choose (eq_int cur (negsuc 0) && not (eq_int t (negsuc 0))) (ltb_int t cur)
    where
      choose : (a b : Bool) → IsTimeout (if a then t else if b then t else cur)
      choose true b = is_t
      choose false true = is_t
      choose false false = is_cur

  fold_pos :
      (ts : List ℤ) (c : ℕ)
      → All IsTimeout ts
      → some_never ts ≡ false
      → IsLowest (fold ts (pos c)) (pos c ∷ ts)
  unfolding fold
  fold_pos [] c valid going = (inl refl, (omega arith, tt))
  fold_pos (negsuc n ∷ ts) c valid going = absurd (true_ne_false going)
  fold_pos (pos n ∷ ts) c (is_n, valid) going = elim (lower_pos n c) [
    | inl (is_lower, below) ↦
        let (among, (least, all)) = fold_pos ts n valid going in
        subst (λ t. IsLowest (fold ts t) (pos c ∷ pos n ∷ ts)) (sym is_lower)
          (inr among, (omega (arith, least, below), (least, all)))
    | inr (is_lower, below) ↦
        let (among, (least, all)) = fold_pos ts c valid going in
        subst (λ t. IsLowest (fold ts t) (pos c ∷ pos n ∷ ts)) (sym is_lower)
          (past ts among, (least, (omega (arith, least, below), all)))
  ]
    where
      past : {r t u : ℤ} (us : List ℤ) → (r ≡ t) ⊎ Among r us → (r ≡ t) ⊎ ((r ≡ u) ⊎ Among r us)
      past us (inl e) = inl e
      past us (inr m) = inr (inr m)

  fold_none :
      (ts : List ℤ) → All IsTimeout ts → some_never ts ≡ false → IsLowest (fold ts (negsuc 0)) ts
  unfolding fold
  fold_none [] valid going = refl
  fold_none (negsuc n ∷ ts) valid going = absurd (true_ne_false going)
  fold_none (pos n ∷ ts) (is_n, valid) going =
      subst (λ t. IsLowest (fold ts t) (pos n ∷ ts)) (sym (lower_none n))
        (fold_pos ts n valid going)

  fold_reset :
      (ts : List ℤ) (cur : ℤ)
      → IsTimeout cur
      → All IsTimeout ts
      → some_never ts ≡ true
      → IsLowest (fold ts cur) (behind_never ts)
  unfolding fold
  fold_reset [] cur is_cur valid resets = absurd (false_ne_true resets)
  fold_reset (t ∷ ts) cur is_cur (is_t, valid) resets =
      by_rest t is_t (some_never ts) refl resets (λ again.
        fold_reset ts (lower types (some t) cur) (lower-IsTimeout t cur is_t is_cur) valid again)
    where
      by_rest :
          (t : ℤ)
          → IsTimeout t
          → (b : Bool) → some_never ts ≡ b
          → (is_never t || b) ≡ true
          → (some_never ts ≡ true → IsLowest (fold ts (lower types (some t) cur)) (behind_never ts))
          → IsLowest
              (fold ts (lower types (some t) cur))
              (if b then behind_never ts else if is_never t then ts else t ∷ ts)
      by_rest t is_t true same one rest = rest same
      by_rest (pos n) is_t false same one rest = absurd (false_ne_true one)
      by_rest (negsuc zero) is_t false same one rest =
          subst (λ x. IsLowest (fold ts x) ts) (sym (lower_never cur is_cur))
            (fold_none ts valid same)
      by_rest (negsuc (suc n)) is_t false same one rest = absurd is_t

  none_never : (ts : List ℤ) → some_never ts ≡ false → behind_never ts ≡ ts
  none_never [] going = refl
  none_never (negsuc n ∷ ts) going = absurd (true_ne_false going)
  none_never (pos n ∷ ts) going = rw going refl

  -- For MFA queries whose timeouts are -1 or not negative, getLowestTotpTimeout from no timeout
  -- gives the lowest timeout behind the last query that has -1, or -1 if there is none behind it;
  -- if no query has -1, the lowest of all.
  pub get_lowest_totp_timeout-IsLowest :
      (qs : List Query)
      → All IsTimeout (mfa_timeouts qs)
      → IsLowest
          (get_lowest_totp_timeout types qs totp_posture_check_no_timeout)
          (behind_never (mfa_timeouts qs))
  get_lowest_totp_timeout-IsLowest qs valid =
      let ts = mfa_timeouts qs in
      subst (λ r. IsLowest r (behind_never ts)) (sym (get_lowest_totp_timeout-fold qs (negsuc 0)))
        (elim (Bool-cases (some_never ts)) [
          | inl resets ↦ fold_reset ts (negsuc 0) tt valid resets
          | inr going ↦
              subst (λ us. IsLowest (fold ts (negsuc 0)) us) (sym (none_never ts going))
                (fold_none ts valid going)
        ])
