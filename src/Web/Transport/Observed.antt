-- ===== src/Web/Transport/Observed.antt =====
-- `verifyObservedTransport` of apps/web/src/lib/rtc.ts: the report of the peer and its certificate.
use call_sign.Prelude.{
  ℕ, ◌≤◌, ◌≡◌, ◌∙◌, String, Bool, true, false, List, [], ◌∷◌, arith, eq_iff, ◌!=◌, string_eq,
  select, values, length, ok,
}
use call_sign.Prelude.Text.{codes, codes_eq}
use call_sign.Protocol.Sdp.Canonical.{codes_eq-eq}
use call_sign.Web.Rtc.{Browser}
use call_sign.Web.Transport.{
  Report, Peer, is_connected, audio_bytes, fingerprint_text, certificate_of, the_transport,
  observed_remote_fingerprint, verify_observed_transport,
}

module _ (o : Browser) where
  -- One transport is connected, and its certificate, which is neither empty nor longer than 24 KiB, has
  -- the expected digest.
  pub record IsObserved (peer : Peer) (expected : String) : Type 0 where
    pub connected : peer.connection_state ≡ "connected"
    pub transport : Report
    pub only : select is_connected (values peer.stats) ≡ transport ∷ []
    pub certificate : List ℕ
    pub source : certificate_of o peer.native_certificate peer.stats transport ≡ ok certificate
    pub present : 1 ≤ length certificate
    pub bounded : length certificate ≤ 24576
    pub fingerprint : fingerprint_text (o.digest certificate) ≡ codes expected

  the_transport-only : (rs : List Report) (t : Report) → the_transport o rs ≡ ok t → rs ≡ t ∷ []
  the_transport-only [] t h = cc
  the_transport-only (r ∷ []) t h = ground arith
  the_transport-only (r ∷ s ∷ rs) t h = cc

  fingerprint-parts :
      (peer : Peer) (f : List ℕ)
      → observed_remote_fingerprint o peer ≡ ok f
      → (t : Report) × (the_transport o (select is_connected (values peer.stats)) ≡ ok t)
        × (c : List ℕ) × (certificate_of o peer.native_certificate peer.stats t ≡ ok c)
        × (1 ≤ length c)
        × (length c ≤ 24576)
        × (fingerprint_text (o.digest c) ≡ f)
  unfolding observed_remote_fingerprint
  fingerprint-parts peer f h = ground arith

  observed-parts :
      (peer : Peer) (channel_open : Bool) (expected : String) (bytes : ℕ)
      → verify_observed_transport o peer channel_open expected ≡ ok bytes
      → ((peer.connection_state != "connected") ≡ false)
        × (f : List ℕ) × (observed_remote_fingerprint o peer ≡ ok f)
        × (codes_eq f (codes expected) ≡ true)
        × (channel_open ≡ true)
        × (bytes ≡ audio_bytes 0 (values peer.stats))
  unfolding verify_observed_transport
  observed-parts peer channel_open expected bytes h = ground arith

  -- `verifyObservedTransport` passes only a connected peer with an open channel and exactly one connected
  -- transport, whose certificate, of at least one byte and at most 24576, has the expected
  -- fingerprint; the certificate is the one that the browser hands out, or else that of the report.
  pub verify_observed_transport-IsObserved :
      (peer : Peer) (channel_open : Bool) (expected : String) (bytes : ℕ)
      → verify_observed_transport o peer channel_open expected ≡ ok bytes
      → (channel_open ≡ true) × IsObserved peer expected
  verify_observed_transport-IsObserved peer channel_open expected bytes h =
      let (connected, f, observed, same, opened, _) =
        observed-parts peer channel_open expected bytes h in
      let (t, only, c, source, present, bounded, digest) = fingerprint-parts peer f observed in
      (
        opened,
        record {
          connected = ground (arith, eq_iff peer.connection_state "connected");
          transport = t;
          only = the_transport-only (select is_connected (values peer.stats)) t only;
          certificate = c;
          source = source;
          present = present;
          bounded = bounded;
          fingerprint = digest ∙ codes_eq-eq _ _ same;
        },
      )
