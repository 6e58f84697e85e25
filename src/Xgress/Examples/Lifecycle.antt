-- ===== src/Xgress/Examples/Lifecycle.antt =====
-- The property of the lifecycle for a peer that closes and an Xgress that is then unrouted.
use sdk_golang.Common.{List, [], ◌∷◌}
use sdk_golang.Xgress.Lifecycle.{Call}
use sdk_golang.Xgress.Lifecycle.Log.{Ends}

abbrev test_calls : List Call
test_calls = Call.calls_peer_closed ∷ Call.calls_unrouted ∷ Call.calls_close ∷ []
