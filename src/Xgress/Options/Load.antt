-- ===== src/Xgress/Options/Load.antt =====
-- What LoadOptions returns for data of the right types.
use sdk_golang.Common.{ℕ, ◌*◌, ◌%◌, ◌^◌, ◌≡◌, Bool, Option, none, some, List}
use sdk_golang.Xgress.Options.{
  Value, int_value, bool_value, float_value, string_value, Key, key_mtu, key_random_drops,
  key_drop_1_in_n, key_tx_queue_size, key_tx_portal_start_size, key_tx_portal_min_size,
  key_tx_portal_max_size, key_tx_portal_increase_thresh, key_tx_portal_increase_scale,
  key_tx_portal_retx_thresh, key_tx_portal_retx_scale, key_tx_portal_dup_ack_thresh,
  key_tx_portal_dup_ack_scale, key_rx_buffer_size, key_retx_start_ms, key_retx_scale,
  key_retx_add_ms, key_max_close_wait_ms, key_get_circuit_timeout, key_circuit_start_timeout,
  key_connect_timeout, LinkOptions, default_options,
}

module _ {Float : Type 0} (constant : ℕ → Float) (parse_duration : List ℕ → Option ℕ) where
  -- Nothing is stored, or a value of the type that read_int32 wants; and what it gives then.
  abbrev pub IsInt32 : Option (Value Float) → Type 0
  IsInt32 none = Unit {0}
  IsInt32 (some (int_value v)) = Unit {0}
  IsInt32 (some _) = ⊥

  abbrev pub int32_or : Option (Value Float) → ℕ → ℕ
  int32_or none d = d
  int32_or (some (int_value v)) d = v % 2 ^ 32
  int32_or (some _) d = d

  -- Nothing is stored, or a value of the type that read_bool wants; and what it gives then.
  abbrev pub IsBool : Option (Value Float) → Type 0
  IsBool none = Unit {0}
  IsBool (some (bool_value v)) = Unit {0}
  IsBool (some _) = ⊥

  abbrev pub bool_or : Option (Value Float) → Bool → Bool
  bool_or none d = d
  bool_or (some (bool_value v)) d = v
  bool_or (some _) d = d

  -- Nothing is stored, or a value of the type that read_float wants; and what it gives then.
  abbrev pub IsFloat : Option (Value Float) → Type 0
  IsFloat none = Unit {0}
  IsFloat (some (float_value v)) = Unit {0}
  IsFloat (some _) = ⊥

  abbrev pub float_or : Option (Value Float) → Float → Float
  float_or none d = d
  float_or (some (float_value v)) d = v
  float_or (some _) d = d

  -- Nothing is stored, or a value of the type that read_millis wants; and what it gives then.
  abbrev pub IsMillis : Option (Value Float) → Type 0
  IsMillis none = Unit {0}
  IsMillis (some (int_value v)) = Unit {0}
  IsMillis (some _) = ⊥

  abbrev pub millis_or : Option (Value Float) → ℕ → ℕ
  millis_or none d = d
  millis_or (some (int_value v)) d = v * 1_000_000 % 2 ^ 64
  millis_or (some _) d = d

  -- Nothing is stored, or a string that time.ParseDuration reads.
  abbrev pub IsDuration : Option (Value Float) → Type 0
  IsDuration none = Unit {0}
  IsDuration (some (string_value s)) = (v : ℕ) × (parse_duration s ≡ some v)
  IsDuration (some _) = ⊥

  abbrev given : Option ℕ → ℕ → ℕ
  given none d = d
  given (some v) d = v

  abbrev pub duration_or : Option (Value Float) → ℕ → ℕ
  duration_or (some (string_value s)) d = given (parse_duration s) d
  duration_or _ d = d

  -- Each value has the type that LoadOptions asserts, and the durations can be read.
  pub record WellTyped (entries : Key → Option (Value Float)) : Type 0 where
    pub mtu : IsInt32 (entries key_mtu)
    pub random_drops : IsBool (entries key_random_drops)
    pub drop_1_in_n : IsInt32 (entries key_drop_1_in_n)
    pub tx_queue_size : IsInt32 (entries key_tx_queue_size)
    pub tx_portal_start_size : IsInt32 (entries key_tx_portal_start_size)
    pub tx_portal_min_size : IsInt32 (entries key_tx_portal_min_size)
    pub tx_portal_max_size : IsInt32 (entries key_tx_portal_max_size)
    pub tx_portal_increase_thresh : IsInt32 (entries key_tx_portal_increase_thresh)
    pub tx_portal_increase_scale : IsFloat (entries key_tx_portal_increase_scale)
    pub tx_portal_retx_thresh : IsInt32 (entries key_tx_portal_retx_thresh)
    pub tx_portal_retx_scale : IsFloat (entries key_tx_portal_retx_scale)
    pub tx_portal_dup_ack_thresh : IsInt32 (entries key_tx_portal_dup_ack_thresh)
    pub tx_portal_dup_ack_scale : IsFloat (entries key_tx_portal_dup_ack_scale)
    pub rx_buffer_size : IsInt32 (entries key_rx_buffer_size)
    pub retx_start_ms : IsInt32 (entries key_retx_start_ms)
    pub retx_scale : IsFloat (entries key_retx_scale)
    pub retx_add_ms : IsInt32 (entries key_retx_add_ms)
    pub max_close_wait : IsMillis (entries key_max_close_wait_ms)
    pub get_circuit_timeout : IsDuration (entries key_get_circuit_timeout)
    pub circuit_start_timeout : IsDuration (entries key_circuit_start_timeout)
    pub connect_timeout : IsDuration (entries key_connect_timeout)

  abbrev pub chosen : (Key → Option (Value Float)) → LinkOptions constant parse_duration
  chosen entries =
      let d = default_options constant parse_duration in
      record {
        mtu = int32_or (entries key_mtu) d.mtu;
        random_drops = bool_or (entries key_random_drops) d.random_drops;
        drop_1_in_n = int32_or (entries key_drop_1_in_n) d.drop_1_in_n;
        tx_queue_size = int32_or (entries key_tx_queue_size) d.tx_queue_size;
        tx_portal_start_size = int32_or (entries key_tx_portal_start_size) d.tx_portal_start_size;
        tx_portal_min_size = int32_or (entries key_tx_portal_min_size) d.tx_portal_min_size;
        tx_portal_max_size = int32_or (entries key_tx_portal_max_size) d.tx_portal_max_size;
        tx_portal_increase_thresh =
            int32_or (entries key_tx_portal_increase_thresh) d.tx_portal_increase_thresh;
        tx_portal_increase_scale =
            float_or (entries key_tx_portal_increase_scale) d.tx_portal_increase_scale;
        tx_portal_retx_thresh =
            int32_or (entries key_tx_portal_retx_thresh) d.tx_portal_retx_thresh;
        tx_portal_retx_scale = float_or (entries key_tx_portal_retx_scale) d.tx_portal_retx_scale;
        tx_portal_dup_ack_thresh =
            int32_or (entries key_tx_portal_dup_ack_thresh) d.tx_portal_dup_ack_thresh;
        tx_portal_dup_ack_scale =
            float_or (entries key_tx_portal_dup_ack_scale) d.tx_portal_dup_ack_scale;
        rx_buffer_size = int32_or (entries key_rx_buffer_size) d.rx_buffer_size;
        retx_start_ms = int32_or (entries key_retx_start_ms) d.retx_start_ms;
        retx_scale = float_or (entries key_retx_scale) d.retx_scale;
        retx_add_ms = int32_or (entries key_retx_add_ms) d.retx_add_ms;
        max_close_wait = millis_or (entries key_max_close_wait_ms) d.max_close_wait;
        get_circuit_timeout = duration_or (entries key_get_circuit_timeout) d.get_circuit_timeout;
        circuit_start_timeout =
            duration_or (entries key_circuit_start_timeout) d.circuit_start_timeout;
        connect_timeout = duration_or (entries key_connect_timeout) d.connect_timeout;
      }
