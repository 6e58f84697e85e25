-- ===== src/Xgress/Wire/Fields.antt =====
-- The first byte of a packet: each of its bits says what the packet holds.
use sdk_golang.Common.{◌≡◌, Bool, false, ◌/◌, ◌^◌, bit_and, arith}
use sdk_golang.Xgress.Messages.{Originator}
use sdk_golang.Xgress.Wire.{is_set, version_mask}
use sdk_golang.Xgress.Wire.Write.{flags_header}

pub flags_header_fields :
    (o : Originator) (rtt headers chunked heartbeat : Bool)
    → let f = flags_header o rtt headers chunked heartbeat in
      (is_set f 1 ≡ false)
      × (bit_and f version_mask / 2 ^ 1 ≡ 1)
      × (is_set f 16 ≡ rtt)
      × (is_set f 128 ≡ heartbeat)
      × (is_set f 64 ≡ headers)
unfolding flags_header
flags_header_fields o rtt headers chunked heartbeat = ground arith
