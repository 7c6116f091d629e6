-- ===== src/Amqpx.antt =====
-- internal/amqpx: the retry header (retry.go), the dial and the masking of URLs (connection.go).
pub mod Retry
pub mod Dial
pub mod Exchange
pub mod Options
pub mod MaskUrl
