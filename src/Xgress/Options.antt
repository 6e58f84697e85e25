-- ===== src/Xgress/Options.antt =====
-- xgress/options.go: the options of an Xgress, from configuration data.
pub mod Load
use sdk_golang.Common.{ℕ, ◌*◌, ◌%◌, ◌^◌, Bool, true, false, Option, none, some, List}
use sdk_golang.Common.Outcome.{Outcome, ok, err, panic, ◌>>=◌}

-- A value of the configuration data; an int is a 64-bit pattern. `other` is any further Go type.
pub data Value (Float : Type 0) : Type 0 where
  int_value : ℕ → Value Float
  bool_value : Bool → Value Float
  float_value : Float → Value Float
  string_value : List ℕ → Value Float
  other : Value Float

-- The keys that LoadOptions looks up.
pub data Key : Type 0 where
  key_mtu key_random_drops key_drop_1_in_n key_tx_queue_size : Key
  key_tx_portal_start_size key_tx_portal_min_size key_tx_portal_max_size : Key
  key_tx_portal_increase_thresh key_tx_portal_increase_scale : Key
  key_tx_portal_retx_thresh key_tx_portal_retx_scale : Key
  key_tx_portal_dup_ack_thresh key_tx_portal_dup_ack_scale : Key
  key_rx_buffer_size key_retx_start_ms key_retx_scale key_retx_add_ms : Key
  key_max_close_wait_ms key_get_circuit_timeout key_circuit_start_timeout key_connect_timeout : Key

pub data OptionsError : Type 0 where
  invalid_duration : Key → OptionsError

abbrev pub seconds : ℕ → ℕ
seconds n = n * 1_000_000_000

-- `constant` gives the float64 that a literal of thousandths denotes, and `parse_duration` is
-- time.ParseDuration. Durations are 64-bit patterns of nanoseconds.
module _ {Float : Type 0} (constant : ℕ → Float) (parse_duration : List ℕ → Option ℕ) where
  pub record LinkOptions : Type 0 where
    pub mtu : ℕ
    pub random_drops : Bool
    pub drop_1_in_n : ℕ
    pub tx_queue_size : ℕ
    pub tx_portal_start_size : ℕ
    pub tx_portal_max_size : ℕ
    pub tx_portal_min_size : ℕ
    pub tx_portal_increase_thresh : ℕ
    pub tx_portal_increase_scale : Float
    pub tx_portal_retx_thresh : ℕ
    pub tx_portal_retx_scale : Float
    pub tx_portal_dup_ack_thresh : ℕ
    pub tx_portal_dup_ack_scale : Float
    pub rx_buffer_size : ℕ
    pub retx_start_ms : ℕ
    pub retx_scale : Float
    pub retx_add_ms : ℕ
    pub max_close_wait : ℕ
    pub get_circuit_timeout : ℕ
    pub circuit_start_timeout : ℕ
    pub connect_timeout : ℕ

  -- DefaultOptions
  unfoldable pub default_options : LinkOptions
  default_options = record {
    mtu = 0;
    random_drops = false;
    drop_1_in_n = 100;
    tx_queue_size = 1;
    tx_portal_start_size = 4 * 1024 * 1024;
    tx_portal_min_size = 16 * 1024;
    tx_portal_max_size = 4 * 1024 * 1024;
    tx_portal_increase_thresh = 28;
    tx_portal_increase_scale = constant 1000;
    tx_portal_retx_thresh = 64;
    tx_portal_retx_scale = constant 750;
    tx_portal_dup_ack_thresh = 64;
    tx_portal_dup_ack_scale = constant 900;
    rx_buffer_size = 4 * 1024 * 1024;
    retx_start_ms = 200;
    retx_scale = constant 1500;
    retx_add_ms = 0;
    max_close_wait = seconds 30;
    get_circuit_timeout = seconds 30;
    circuit_start_timeout = seconds 180;
    connect_timeout = 0;
  }

  -- What is stored under a key, cut to 32 bits; a value of another type panics.
  unfoldable pub read_int32 : Option (Value Float) → ℕ → Outcome OptionsError ℕ
  read_int32 none d = ok d
  read_int32 (some (int_value v)) d = ok (v % 2 ^ 32)
  read_int32 (some _) d = panic

  unfoldable pub read_bool : Option (Value Float) → Bool → Outcome OptionsError Bool
  read_bool none d = ok d
  read_bool (some (bool_value v)) d = ok v
  read_bool (some _) d = panic

  unfoldable pub read_float : Option (Value Float) → Float → Outcome OptionsError Float
  read_float none d = ok d
  read_float (some (float_value v)) d = ok v
  read_float (some _) d = panic

  unfoldable pub read_millis : Option (Value Float) → ℕ → Outcome OptionsError ℕ
  read_millis none d = ok d
  read_millis (some (int_value v)) d = ok (v * 1_000_000 % 2 ^ 64)
  read_millis (some _) d = panic

  abbrev parsed : Key → Option ℕ → Outcome OptionsError ℕ
  parsed k none = err (invalid_duration k)
  parsed k (some v) = ok v

  unfoldable pub read_duration : Key → Option (Value Float) → ℕ → Outcome OptionsError ℕ
  read_duration k none d = ok d
  read_duration k (some (string_value s)) d = parsed k (parse_duration s)
  read_duration k (some _) d = panic

  -- LoadOptions for the data under "options".
  unfoldable pub load_found : (Key → Option (Value Float)) → Outcome OptionsError LinkOptions
  load_found entries = do
    let d = default_options
    mtu ← read_int32 (entries key_mtu) d.mtu
    random_drops ← read_bool (entries key_random_drops) d.random_drops
    drop_1_in_n ← read_int32 (entries key_drop_1_in_n) d.drop_1_in_n
    tx_queue_size ← read_int32 (entries key_tx_queue_size) d.tx_queue_size
    tx_portal_start_size ← read_int32 (entries key_tx_portal_start_size) d.tx_portal_start_size
    tx_portal_min_size ← read_int32 (entries key_tx_portal_min_size) d.tx_portal_min_size
    tx_portal_max_size ← read_int32 (entries key_tx_portal_max_size) d.tx_portal_max_size
    tx_portal_increase_thresh ←
        read_int32 (entries key_tx_portal_increase_thresh) d.tx_portal_increase_thresh
    tx_portal_increase_scale ←
        read_float (entries key_tx_portal_increase_scale) d.tx_portal_increase_scale
    tx_portal_retx_thresh ← read_int32 (entries key_tx_portal_retx_thresh) d.tx_portal_retx_thresh
    tx_portal_retx_scale ← read_float (entries key_tx_portal_retx_scale) d.tx_portal_retx_scale
    tx_portal_dup_ack_thresh ←
        read_int32 (entries key_tx_portal_dup_ack_thresh) d.tx_portal_dup_ack_thresh
    tx_portal_dup_ack_scale ←
        read_float (entries key_tx_portal_dup_ack_scale) d.tx_portal_dup_ack_scale
    rx_buffer_size ← read_int32 (entries key_rx_buffer_size) d.rx_buffer_size
    retx_start_ms ← read_int32 (entries key_retx_start_ms) d.retx_start_ms
    retx_scale ← read_float (entries key_retx_scale) d.retx_scale
    retx_add_ms ← read_int32 (entries key_retx_add_ms) d.retx_add_ms
    max_close_wait ← read_millis (entries key_max_close_wait_ms) d.max_close_wait
    get_circuit_timeout ←
        read_duration key_get_circuit_timeout (entries key_get_circuit_timeout)
          d.get_circuit_timeout
    circuit_start_timeout ←
        read_duration key_circuit_start_timeout (entries key_circuit_start_timeout)
          d.circuit_start_timeout
    connect_timeout ←
        read_duration key_connect_timeout (entries key_connect_timeout) d.connect_timeout
    ok (record {
      mtu = mtu;
      random_drops = random_drops;
      drop_1_in_n = drop_1_in_n;
      tx_queue_size = tx_queue_size;
      tx_portal_start_size = tx_portal_start_size;
      tx_portal_min_size = tx_portal_min_size;
      tx_portal_max_size = tx_portal_max_size;
      tx_portal_increase_thresh = tx_portal_increase_thresh;
      tx_portal_increase_scale = tx_portal_increase_scale;
      tx_portal_retx_thresh = tx_portal_retx_thresh;
      tx_portal_retx_scale = tx_portal_retx_scale;
      tx_portal_dup_ack_thresh = tx_portal_dup_ack_thresh;
      tx_portal_dup_ack_scale = tx_portal_dup_ack_scale;
      rx_buffer_size = rx_buffer_size;
      retx_start_ms = retx_start_ms;
      retx_scale = retx_scale;
      retx_add_ms = retx_add_ms;
      max_close_wait = max_close_wait;
      get_circuit_timeout = get_circuit_timeout;
      circuit_start_timeout = circuit_start_timeout;
      connect_timeout = connect_timeout;
    })

  -- LoadOptions: no "options" entry, one that is no map, or one that is.
  unfoldable pub load_options :
      Option (Option (Key → Option (Value Float))) → Outcome OptionsError LinkOptions
  load_options none = ok default_options
  load_options (some none) = panic
  load_options (some (some entries)) = load_found entries
