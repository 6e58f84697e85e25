-- ===== src/Edge/Mux/Routing.antt =====
-- Payloads of circuits that have no connection any more.
use sdk_golang.Xgress.Channel.{Channel}
