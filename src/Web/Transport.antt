-- ===== src/Web/Transport.antt =====
-- What the browser observes of the connection itself: `verifyObservedTransport`, `observePbxTransport` and
-- `observedRemoteFingerprint` of apps/web/src/lib/rtc.ts. The statistics of the peer are given.
pub mod Observed
use call_sign.Prelude.{
  ℕ, ◌+◌, ◌-◌, ◌/◌, ◌%◌, String, Option, none, some, Bool, true, false, not, ◌&&◌, ◌||◌, List, [],
  ◌∷◌, ◌++◌, ltb, leb, nat_beq, ◌==◌, ◌!=◌, string_eq, nat_eq, any, select, lookup, values, Dict,
  length, if◌then◌else◌, Result, Checked, ok, err, error, throw_if, or_throw, ◌>>=◌, ◌>>◌,
}
use call_sign.Prelude.Text.{codes, codes_eq, utf16_length}
use call_sign.Protocol.Json.{is_text}
use call_sign.Web.Rtc.{Browser}

-- An entry of RTCStatsReport, in the fields that the source reads.
pub record Report : Type 0 where
  pub type : String
  pub dtls_state : Option String
  pub kind : Option String
  pub bytes_received : ℕ
  pub remote_certificate_id : String
  pub base64_certificate : Option String

pub record Peer : Type 0 where
  pub connection_state : String
  pub local_sdp : Option String
  pub remote_sdp : Option String
  -- the first of `getRemoteCertificates` of the audio receiver's transport, where the browser has it
  pub native_certificate : Option (List ℕ)
  pub stats : Dict Report

abbrev pub is_connected : Report → Bool
is_connected r = r.type == "transport" && is_text r.dtls_state "connected"

-- The loop of `verifyObservedTransport` over the reports, which counts the bytes of incoming audio.
unfoldable pub audio_bytes : ℕ → List Report → ℕ
audio_bytes n [] = n
audio_bytes n (r ∷ rs) =
    audio_bytes
      (if r.type == "inbound-rtp" && is_text r.kind "audio" then n + r.bytes_received else n) rs

abbrev is_base64_char : ℕ → Bool
is_base64_char c =
    leb b'A' c && leb c b'Z'
    || leb b'a' c && leb c b'z'
    || leb b'0' c && leb c b'9'
    || nat_beq c b'+'
    || nat_beq c b'/'

-- `/^(?:[A-Za-z0-9+/]{4})*(?:[A-Za-z0-9+/]{2}==|[A-Za-z0-9+/]{3}=)?$/`
unfoldable pub is_base64 : List ℕ → Bool
is_base64 [] = true
is_base64 (a ∷ b ∷ c ∷ d ∷ []) =
    is_base64_char a
    && is_base64_char b
    && (is_base64_char c && (is_base64_char d || nat_beq d b'=')
        || nat_beq c b'=' && nat_beq d b'=')
is_base64 (a ∷ b ∷ c ∷ d ∷ e ∷ s) =
    is_base64_char a
    && is_base64_char b
    && is_base64_char c
    && is_base64_char d
    && is_base64 (e ∷ s)
is_base64 _ = false

-- The text of the certificate in the report that a transport refers to.
abbrev certificate_text : Option Report → Option String
certificate_text none = none
certificate_text (some r) = if r.type == "certificate" then r.base64_certificate else none

abbrev usable_text : Option String → Option String
usable_text none = none
usable_text (some s) =
    if s == "" || ltb 32768 (utf16_length s) || not (is_base64 (codes s)) then none else some s

-- `toString(16).padStart(2,'0').toUpperCase()`
abbrev upper_digit : ℕ → ℕ
upper_digit d = if ltb d 10 then d + b'0' else d - 10 + b'A'

-- The bytes of a digest, joined by colons.
unfoldable pub fingerprint_text : List ℕ → List ℕ
fingerprint_text [] = []
fingerprint_text (b ∷ []) = upper_digit (b / 16) ∷ upper_digit (b % 16) ∷ []
fingerprint_text (b ∷ c ∷ s) =
    upper_digit (b / 16) ∷ upper_digit (b % 16) ∷ b':' ∷ fingerprint_text (c ∷ s)

module _ (o : Browser) where
  abbrev pub decoded : Option String → Result (List ℕ)
  decoded none = err (error "REMOTE_CERTIFICATE_API_UNSUPPORTED")
  decoded (some s) = or_throw (o.atob (codes s)) (error "InvalidCharacterError")

  -- The certificate that the browser hands out, or else the one that the transport's report refers to.
  abbrev pub certificate_of : Option (List ℕ) → Dict Report → Report → Result (List ℕ)
  certificate_of (some certificate) stats transport = ok certificate
  certificate_of none stats transport =
      decoded (usable_text (certificate_text (lookup stats transport.remote_certificate_id)))

  abbrev pub the_transport : List Report → Result Report
  the_transport (transport ∷ []) = ok transport
  the_transport _ = err (error "DTLS_TRANSPORT_AMBIGUOUS")

  unfoldable pub observed_remote_fingerprint : Peer → Result (List ℕ)
  observed_remote_fingerprint peer = do
    transport ← the_transport (select is_connected (values peer.stats))
    certificate ← certificate_of peer.native_certificate peer.stats transport
    throw_if (nat_beq (length certificate) 0 || ltb 24576 (length certificate))
        (error "REMOTE_CERTIFICATE_UNAVAILABLE")
    ok (fingerprint_text (o.digest certificate))

  -- `verifyObservedTransport`, whose result is the number of audio bytes received.
  unfoldable pub verify_observed_transport : Peer → Bool → String → Result ℕ
  verify_observed_transport peer channel_open expected = do
    throw_if (peer.connection_state != "connected" || not channel_open)
        (error "TRANSPORT_NOT_CONNECTED")
    throw_if (not (any is_connected (values peer.stats))) (error "DTLS_STATS_NOT_CONNECTED")
    observed ← observed_remote_fingerprint peer
    throw_if (not (codes_eq observed (codes expected)))
        (error "REMOTE_CERTIFICATE_FINGERPRINT_MISMATCH")
    ok (audio_bytes 0 (values peer.stats))

  -- `observePbxTransport`, whose result is the two session descriptions and the fingerprint.
  unfoldable pub observe_pbx_transport : Peer → Result (String × String × List ℕ)
  observe_pbx_transport peer = do
    throw_if (peer.connection_state != "connected") (error "PBX_TRANSPORT_NOT_CONNECTED")
    local ← or_throw peer.local_sdp (error "PBX_TRANSPORT_NOT_CONNECTED")
    remote ← or_throw peer.remote_sdp (error "PBX_TRANSPORT_NOT_CONNECTED")
    throw_if (not (any is_connected (values peer.stats))) (error "DTLS_STATS_NOT_CONNECTED")
    observed ← observed_remote_fingerprint peer
    ok (local, remote, observed)
