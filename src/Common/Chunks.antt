-- ===== src/Common/Chunks.antt =====
-- internal/common/chunked_message.go: a long list of lines is sent as several embeds.
mod Send
mod Lossless
mod Limits
unfoldable pub use Send.{chunk_loop, send_chunked_message}
pub use Lossless.*
pub use Limits.{Fits, send_chunked_message-Fits}
