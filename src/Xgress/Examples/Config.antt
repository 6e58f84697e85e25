-- ===== src/Xgress/Examples/Config.antt =====
-- The property of LoadOptions for data with an MTU and a closing time.
use sdk_golang.Common.{ℕ, none, some, Option, List}
use sdk_golang.Xgress.Options.{Value, Key, key_mtu, key_max_close_wait_ms}

abbrev test_entries : Key → Option (Value ℕ)
test_entries key_mtu = some (Value.int_value 1500)
test_entries key_max_close_wait_ms = some (Value.int_value 20)
test_entries _ = none

abbrev thousandths : ℕ → ℕ
thousandths n = n

abbrev no_durations : List ℕ → Option ℕ
no_durations s = none
