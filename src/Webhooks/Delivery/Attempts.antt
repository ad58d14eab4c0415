-- ===== src/Webhooks/Delivery/Attempts.antt =====
-- The loop of sendWithRetry in pkg/control-plane/webhooks/dispatcher.go.
use sai_aurosy.Webhooks.Breaker.{Breaker}
use sai_aurosy.Webhooks.Delivery.{Delivery}
