-- ===== src/Edge/Posture/Submitter/Deliveries.antt =====
-- Where the responses of a submission arrive that returns no error.
use sdk_golang.Common.{
  false_ne_true, true_ne_false, ℕ, suc, ◌≡◌, ◌≢◌, refl, sym, ap, ◌∙◌, inl, inr, ◌⊎◌, Bool, true,
  false, not, ◌||◌, Option, none, some, List, [], ◌∷◌, ◌++◌, if◌then◌else◌, Bool-cases, length,
  ◌==◌, arith,
}
use mathlib.Core.Path.{subst}
use sdk_golang.Edge.Posture.{Response}
use sdk_golang.Edge.Posture.Submitter.{
  RouterConn, MultiSubmitter, Delivery, to_router, to_controller, filter_to_legacy,
  MultiDestinationError, SubmitError, destinations_failed, controller_failed, has_errors,
  Submission, to_routers, send_posture_response_bulk,
}

abbrev pub Delivered : Delivery → List Delivery → Type 0
Delivered d [] = ⊥
Delivered d (e ∷ es) = (d ≡ e) ⊎ Delivered d es

-- Each router has the responses: its own connection took them, or, if it supports no posture checks,
-- the controller took those that are no TOTP tokens.
abbrev pub Reached :
    (List Response → Bool) → ℕ → List RouterConn → List Response → List Delivery → Type 0
Reached legacy_sends k [] rs ds = Unit {0}
Reached legacy_sends k (conn ∷ conns) rs ds =
    ((conn.supports_posture_checks ≡ true)
        × Delivered (to_router k rs) ds
        × (conn.sends_posture rs ≡ true)
      ⊎ (conn.supports_posture_checks ≡ false)
        × Delivered (to_controller (filter_to_legacy rs)) ds
        × (legacy_sends (filter_to_legacy rs) ≡ true))
    × Reached legacy_sends (suc k) conns rs ds

Delivered-append : (d : Delivery) (xs ys : List Delivery) → Delivered d xs → Delivered d (xs ++ ys)
Delivered-append d [] ys none_there = absurd none_there
Delivered-append d (x ∷ xs) ys (inl e) = inl e
Delivered-append d (x ∷ xs) ys (inr later) = inr (Delivered-append d xs ys later)

Delivered-last : (d : Delivery) (xs : List Delivery) → Delivered d (xs ++ (d ∷ []))
Delivered-last d [] = inl refl
Delivered-last d (x ∷ xs) = inr (Delivered-last d xs)

-- The loop's result for a router, behind that for the others.
abbrev step : Bool → Bool → ℕ → List Response → Submission → Submission
step supports sends k rs rest =
    if supports
    then record rest {
      deliveries = to_router k rs ∷ rest.deliveries;
      errors = record rest.errors {
        router_errors = if sends then rest.errors.router_errors else k ∷ rest.errors.router_errors;
      };
    }
    else record rest { send_to_controller = true }

-- What is asked of the loop's result: it is among the deliveries, without an error, and the
-- controller gets its part where it has one.
record Arrives (legacy_sends : List Response → Bool) (rs : List Response) (ds : List Delivery)
    (loop : Submission) : Type 0 where
  among : (d : Delivery) → Delivered d loop.deliveries → Delivered d ds
  no_errors : loop.errors.router_errors ≡ []
  controlled :
      loop.send_to_controller ≡ true
      → Delivered (to_controller (filter_to_legacy rs)) ds
        × (legacy_sends (filter_to_legacy rs) ≡ true)

to_routers-Reached :
    (legacy_sends : List Response → Bool) (k : ℕ) (conns : List RouterConn) (rs : List Response)
    (ds : List Delivery)
    → Arrives legacy_sends rs ds (to_routers k conns rs)
    → Reached legacy_sends k conns rs ds
unfolding to_routers
to_routers-Reached legacy_sends k [] rs ds arrives = tt
to_routers-Reached legacy_sends k (conn ∷ conns) rs ds arrives =
    by_conn conn.supports_posture_checks (conn.sends_posture rs) refl refl arrives
      (to_routers-Reached legacy_sends (suc k) conns rs ds)
  where
    rest : Submission
    rest = to_routers (suc k) conns rs

    by_conn :
        (supports sends : Bool)
        → conn.supports_posture_checks ≡ supports
        → conn.sends_posture rs ≡ sends
        → Arrives legacy_sends rs ds (step supports sends k rs rest)
        → (Arrives legacy_sends rs ds rest → Reached legacy_sends (suc k) conns rs ds)
        → Reached legacy_sends k (conn ∷ conns) rs ds
    by_conn true true does sends arrives later = (
      inl (does, arrives.among (to_router k rs) (inl refl), sends),
      later (record {
        among = λ d there. arrives.among d (inr there);
        no_errors = arrives.no_errors;
        controlled = arrives.controlled;
      }),
    )
    by_conn true false does fails arrives later =
        absurd (let impossible : k ∷ rest.errors.router_errors ≡ [] = arrives.no_errors in cc)
    by_conn false sends not_does is_sends arrives later =
        let (given, taken) = arrives.controlled refl in
        (
          inr (not_does, given, taken),
          later (record {
            among = arrives.among;
            no_errors = arrives.no_errors;
            controlled = λ e. arrives.controlled refl;
          }),
        )

no_errors_left :
    (e : MultiDestinationError)
    → has_errors e ≡ false
    → (e.router_errors ≡ []) × (e.controller_error ≡ false)
no_errors_left e h = by_errors e.router_errors e.controller_error h
  where
    by_errors :
        (ks : List ℕ) (b : Bool) → (not (length ks == 0) || b) ≡ false → (ks ≡ []) × (b ≡ false)
    by_errors [] b h = (refl, h)
    by_errors (k ∷ ks) b h = absurd (
        let some_error : (suc (length ks) == 0) ≡ false = ground arith in
        let impossible : true ≡ false = sym (ap (λ z. not z || b) some_error) ∙ h in cc)

-- The result without a legacy session, for whether the controller gets its part and takes it.
abbrev pub destinations :
    Bool → Bool → List Response → Submission → List Delivery × Option SubmitError
destinations controlled takes legacy loop =
    let errors : MultiDestinationError =
      if controlled then record loop.errors { controller_error = not takes } else loop.errors in
    (
      if controlled then loop.deliveries ++ (to_controller legacy ∷ []) else loop.deliveries,
      if has_errors errors then some (destinations_failed errors) else none,
    )

no_error_given :
    (e : MultiDestinationError)
    → ◌≡◌ {A = Option SubmitError}
        (if has_errors e then some (destinations_failed e) else none)
        none
    → has_errors e ≡ false
no_error_given e h = elim (Bool-cases (has_errors e)) [
  | inl bad ↦ absurd (
      let impossible : some (destinations_failed e) ≡ none =
        sym (ap (λ b. if b then some (destinations_failed e) else none) bad) ∙ h in
      cc)
  | inr good ↦ good
]

destinations-Arrives :
    (legacy_sends : List Response → Bool) (controlled takes : Bool) (rs : List Response)
    (loop : Submission)
    → loop.send_to_controller ≡ controlled
    → legacy_sends (filter_to_legacy rs) ≡ takes
    → (destinations controlled takes (filter_to_legacy rs) loop).1 ≡ none
    → Arrives legacy_sends rs (destinations controlled takes (filter_to_legacy rs) loop).0 loop
destinations-Arrives legacy_sends false takes rs loop quiet is_takes no_error = record {
  among = λ d there. there;
  no_errors = (no_errors_left loop.errors (no_error_given loop.errors no_error)).0;
  controlled = λ e. absurd (false_ne_true (sym quiet ∙ e));
}
destinations-Arrives legacy_sends true takes rs loop quiet is_takes no_error =
    let e : MultiDestinationError = record loop.errors { controller_error = not takes } in
    let (routers, controller) = no_errors_left e (no_error_given e no_error) in
    let last = to_controller (filter_to_legacy rs) in
    record {
      among = λ d there. Delivered-append d loop.deliveries (last ∷ []) there;
      no_errors = routers;
      controlled = λ h. (
        Delivered-last last loop.deliveries,
        is_takes ∙ elim (Bool-cases takes) [
          | inl taken ↦ taken
          | inr refused ↦ absurd (true_ne_false (sym (ap not refused) ∙ controller))
        ],
      );
    }

-- If a submission of some responses outside a legacy session returns no error, each router was
-- reached: one that supports posture checks was given all of the responses and took them, and for
-- one that does not, the controller was given those that are no TOTP tokens and took them.
pub send_posture_response_bulk-Reached :
    (m : MultiSubmitter) (rs : List Response)
    → m.legacy_session ≡ false
    → rs ≢ []
    → (send_posture_response_bulk m rs).1 ≡ none
    → Reached m.legacy_sends 0 m.router_conns rs (send_posture_response_bulk m rs).0
unfolding send_posture_response_bulk
send_posture_response_bulk-Reached m [] oidc some_response no_error = absurd (some_response refl)
send_posture_response_bulk-Reached m (r ∷ rs) oidc some_response no_error =
    let all = r ∷ rs in
    let loop = to_routers 0 m.router_conns all in
    let takes = m.legacy_sends (filter_to_legacy all) in
    let result = destinations loop.send_to_controller takes (filter_to_legacy all) loop in
    let is_result : send_posture_response_bulk m all ≡ result =
      ap
        (λ b.
          if b
          then (to_controller all ∷ [], if m.legacy_sends all then none else some controller_failed)
          else result)
        oidc in
    subst (λ x. x.1 ≡ none → Reached m.legacy_sends 0 m.router_conns all x.0) (sym is_result)
      (λ h.
        to_routers-Reached m.legacy_sends 0 m.router_conns all result.0
          (destinations-Arrives m.legacy_sends loop.send_to_controller takes all loop refl refl h))
      no_error
