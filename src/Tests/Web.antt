-- ===== src/Tests/Web.antt =====
-- Calls of the media, of the server, and an observed transport.
use call_sign.Prelude.{
  ℕ, ◌≡◌, refl, some, none, List, [], ◌∷◌, true, false, ok, any, select, lookup, values,
}
use call_sign.Prelude.Text.{codes, codes_eq, utf16_length}
use call_sign.Web.LiveMedia.{
  Event, Outcome, new_media, run, step, prepare_microphone, microphone_given, accept,
  accept_replaced, continue, pick, close, change_at, mute,
}
use call_sign.Web.LiveMedia.Kept.{is_enabled}
use call_sign.Web.Api.{Init, Fetched, ApiReply, ApiFailure, api_from}
use call_sign.Web.Api.Retry.{IsSettled, api_from-IsSettled}
use call_sign.Web.Rtc.{Browser}
use call_sign.Web.Transport.{
  Report, Peer, verify_observed_transport, observed_remote_fingerprint, audio_bytes,
  fingerprint_text, is_base64,
}
use call_sign.Web.Transport.Observed.{IsObserved, verify_observed_transport-IsObserved}
use call_sign.Tests.World.{fingerprint}
use call_sign.Tests.Verifier.{witness_lib}

-- The microphone is given, the call is accepted, and the caller is muted.
abbrev call : List Event
call =
    Event.prepares
    ∷ Event.settles 0 (Outcome.stream (some (record { enabled = true; live = true })) true)
    ∷ Event.accepts false
    ∷ Event.settles 0 Outcome.resolved
    ∷ []

speaks : is_enabled (run new_media call).microphone ≡ true
unfolding run step prepare_microphone microphone_given accept accept_replaced continue pick close
speaks = refl

-- A second call of `prepareMicrophone` does not see that the first one waits. The stream of the first is
-- in use when that of the second comes, and neither mute nor close reaches it then.
abbrev overlapping : List Event
overlapping =
    Event.prepares
    ∷ Event.prepares
    ∷ Event.settles 0 (Outcome.stream (some (record { enabled = true; live = true })) true)
    ∷ Event.accepts false
    ∷ Event.settles 1 Outcome.resolved
    ∷ Event.settles 0 (Outcome.stream (some (record { enabled = true; live = true })) true)
    ∷ Event.mutes true
    ∷ Event.closes
    ∷ []

left_open : (run new_media overlapping).replaced ≡ record { enabled = true; live = true } ∷ []
unfolding run step prepare_microphone microphone_given accept accept_replaced continue pick close
    change_at mute
left_open = refl

-- The network fails once.
abbrev once_down : ℕ → Fetched ℕ
once_down n = elim n [ ℕ.zero ↦ Fetched.throws ApiFailure.type_error | ℕ.suc k ↦ Fetched.answers 7 ]

abbrev get : Init
get = record { method = none; headers = []; body = none }

retried : api_from once_down (λ n. false) get 2 0 ≡ some (ApiReply.replied 7, 2)
unfolding api_from
retried = refl

api_from-IsSettled_example :
    IsSettled once_down (λ n. false) get (api_from once_down (λ n. false) get 2 0)
api_from-IsSettled_example = api_from-IsSettled once_down (λ n. false) get

abbrev bytes32 : List ℕ
bytes32 =
    170 ∷ 170 ∷ 170 ∷ 170 ∷ 170 ∷ 170 ∷ 170 ∷ 170 ∷ 170 ∷ 170 ∷ 170 ∷ 170 ∷ 170 ∷ 170 ∷ 170 ∷ 170
    ∷ 170 ∷ 170 ∷ 170 ∷ 170 ∷ 170 ∷ 170 ∷ 170 ∷ 170 ∷ 170 ∷ 170 ∷ 170 ∷ 170 ∷ 170 ∷ 170 ∷ 170 ∷ 170
    ∷ []

abbrev pub browser : Browser
browser = record {
  lib = witness_lib;
  atob = λ s. some bytes32;
  digest = λ b. bytes32;
  read_authorization = λ v. none;
  read_receipt = λ v. none;
  read_proof = λ v. none;
  read_transcript = λ v. none;
}

abbrev transport : Report
transport = record {
  type = "transport";
  dtls_state = some "connected";
  kind = none;
  bytes_received = 0;
  remote_certificate_id = "certificate";
  base64_certificate = none;
}

abbrev peer : Peer
peer = record {
  connection_state = "connected";
  local_sdp = none;
  remote_sdp = none;
  native_certificate = none;
  stats =
      ("transport", transport)
      ∷ ("certificate", record transport { type = "certificate"; base64_certificate = some "qqqq" })
      ∷ (
        "audio",
        record transport { type = "inbound-rtp"; kind = some "audio"; bytes_received = 9 },
      )
      ∷ [];
}

observed : verify_observed_transport browser peer true fingerprint ≡ ok 9
unfolding verify_observed_transport observed_remote_fingerprint audio_bytes fingerprint_text
    is_base64 any select lookup values codes codes_eq utf16_length
observed = refl

verify_observed_transport-IsObserved_example : (true ≡ true) × IsObserved browser peer fingerprint
verify_observed_transport-IsObserved_example =
    verify_observed_transport-IsObserved browser peer true fingerprint 9 observed
