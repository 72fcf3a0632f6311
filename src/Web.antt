-- ===== src/Web.antt =====
-- The browser's part in apps/web/src/lib: the media of a call in liveMedia.ts, and the calls of the
-- server in api.ts.
pub mod LiveMedia
pub mod Api
pub mod Rtc
pub mod Transport
