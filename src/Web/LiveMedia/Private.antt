-- ===== src/Web/LiveMedia/Private.antt =====
-- The class `LiveMedia` of apps/web/src/lib/liveMedia.ts: its methods over a run of calls and reports.
use call_sign.Web.LiveMedia.{LiveMedia}
