-- ===== src/Rm2fb.antt =====
-- libs/rm2fb: the messages of the server and its clients.
pub mod Message
pub mod RoundTrip
pub mod Updates
pub mod Server
pub mod Receiving
pub mod Forwarding
pub mod Serving
pub mod Ioctl
pub mod Hooks
pub mod Sending
pub mod Touches
mod Examples
