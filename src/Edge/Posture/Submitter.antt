-- ===== src/Edge/Posture/Submitter.antt =====
-- zt/edge/posture/submitter.go: MultiSubmitter, which sends responses to the edge routers and to the
-- controller.
pub mod Deliveries
use sdk_golang.Common.{
  ℕ, zero, suc, ◌≡◌, ◌≢◌, refl, sym, ap, ◌∙◌, inl, inr, ◌⊎◌, Bool, true, false, not, ◌&&◌, ◌||◌,
  Option, none, some, List, [], ◌∷◌, ◌++◌, if◌then◌else◌, Bool-cases, All, length, ◌==◌, map,
}
use sdk_golang.Common.Text.{Text, str_eq}
use sdk_golang.Edge.Posture.{
  Response, endpoint_state, domain_response, totp_response, mac_response, os_response,
  process_response,
}

-- A connection to an edge router, by the two things that the submitter asks of it.
pub record RouterConn : Type 0 where
  pub supports_posture_checks : Bool
  pub sends_posture : List Response → Bool

-- What the submitter is made of, at the time of a call.
pub record MultiSubmitter : Type 0 where
  pub legacy_session : Bool
  pub router_conns : List RouterConn
  pub legacy_sends : List Response → Bool

-- What is given to a router, by its position, or to the controller.
pub data Delivery : Type 0 where
  to_router : ℕ → List Response → Delivery
  to_controller : List Response → Delivery

-- Whether TypeID is PostureCheckTypeTOTP
abbrev pub is_totp : Response → Bool
is_totp (totp_response id token) = true
is_totp r = false

-- filterToLegacyPostureResponses
unfoldable pub filter_to_legacy : List Response → List Response
filter_to_legacy [] = []
filter_to_legacy (r ∷ rs) = if not (is_totp r) then r ∷ filter_to_legacy rs else filter_to_legacy rs

-- The routers whose errors there are, and the error of the controller.
pub record MultiDestinationError : Type 0 where
  pub router_errors : List ℕ
  pub controller_error : Bool

-- HasErrors
abbrev pub has_errors : MultiDestinationError → Bool
has_errors e = not (length e.router_errors == 0) || e.controller_error

-- The error of a submission: the controller's own, or the destinations'.
pub data SubmitError : Type 0 where
  controller_failed : SubmitError
  destinations_failed : MultiDestinationError → SubmitError

pub record Submission : Type 0 where
  pub deliveries : List Delivery
  pub send_to_controller : Bool
  pub errors : MultiDestinationError

-- The loop over the router connections.
unfoldable pub to_routers : ℕ → List RouterConn → List Response → Submission
to_routers k [] rs = record {
  deliveries = [];
  send_to_controller = false;
  errors = record { router_errors = []; controller_error = false };
}
to_routers k (conn ∷ conns) rs =
    let rest = to_routers (suc k) conns rs in
    if conn.supports_posture_checks
    then record rest {
      deliveries = to_router k rs ∷ rest.deliveries;
      errors = record rest.errors {
        router_errors =
            if conn.sends_posture rs
            then rest.errors.router_errors
            else k ∷ rest.errors.router_errors;
      };
    }
    else record rest { send_to_controller = true }

-- SendPostureResponseBulk: what is delivered, and the error if there is one.
unfoldable pub send_posture_response_bulk :
    MultiSubmitter → List Response → List Delivery × Option SubmitError
unfolding to_routers filter_to_legacy
send_posture_response_bulk m [] = ([], none)
send_posture_response_bulk m (r ∷ rs) =
    let all = r ∷ rs in
    let loop = to_routers 0 m.router_conns all in
    let legacy = filter_to_legacy all in
    let errors : MultiDestinationError =
      if loop.send_to_controller
      then record loop.errors { controller_error = not (m.legacy_sends legacy) }
      else loop.errors in
    if m.legacy_session
    then (to_controller all ∷ [], if m.legacy_sends all then none else some controller_failed)
    else (
      if loop.send_to_controller
          then loop.deliveries ++ (to_controller legacy ∷ [])
          else loop.deliveries,
      if has_errors errors then some (destinations_failed errors) else none,
    )

-- SendPostureResponse, where `none` is a nil response.
unfoldable pub send_posture_response :
    MultiSubmitter → Option Response → List Delivery × Option SubmitError
unfolding send_posture_response_bulk
send_posture_response m none = ([], none)
send_posture_response m (some r) = send_posture_response_bulk m (r ∷ [])
