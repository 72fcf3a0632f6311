-- ===== src/Tests/Protocol.antt =====
-- Signed messages and their clocks on small inputs.
use Prim.Native.Nat.{◌≤◌}
use Prim.Native.String.{len}
use call_sign.Prelude.{
  ◌≡◌, refl, String, Option, some, none, [], ◌∷◌, ok, error, err, Result, arith,
}
use call_sign.Protocol.Json.{Json, text, null, Libraries}
use call_sign.Protocol.Temporal.{Clock, assert_temporal_validity}
use call_sign.Protocol.Signing.{
  Expected, sign_payload, verify_payload, parse_json_no_duplicate_keys,
}
use call_sign.Protocol.Signing.Sound.{
  IsSigned, Reads, signed_header, verify_payload-IsSigned, verify_payload-sign_payload,
}
use call_sign.Tests.World.{jwk}

abbrev clock : Clock
clock = record { issued_at = 100; expires_at = 200; not_before = some 150 }

at_start : assert_temporal_validity clock 150 ≡ ok tt
unfolding assert_temporal_validity
at_start = refl

too_early : assert_temporal_validity clock 149 ≡ err (error "NOT_YET_VALID")
unfolding assert_temporal_validity
too_early = refl

at_end : assert_temporal_validity clock 200 ≡ err (error "EXPIRED")
unfolding assert_temporal_validity
at_end = refl

-- Libraries under which a message is its own text.
abbrev echo : Libraries
echo = record {
  canonicalize = λ v. 1 ∷ [];
  sha256_hex = λ b. "hash";
  compact_verify = λ jws key. some (record {
    protected_header = record {
      alg = some "EdDSA";
      typ = some "callsign/Greeting+jws";
      cty = none;
      kid = some "key";
    };
    payload = 1 ∷ [];
  });
  compact_sign = λ b h k. "signed";
  decode_utf8 = λ b. some "hello";
  json_validate = λ t. none;
  json_parse = text;
}

abbrev schema : Json → Option String
schema (text t) = some t
schema _ = none

abbrev expected : Expected
expected = record { type = "Greeting"; kid = "key" }

abbrev greeting : Result String
greeting = verify_payload echo schema (λ _. "Greeting") "signed" jwk expected

greeting-ok : greeting ≡ ok "hello"
unfolding verify_payload parse_json_no_duplicate_keys
greeting-ok = refl

verify_payload-IsSigned_example :
    IsSigned echo schema (λ _. "Greeting") "signed" jwk expected "hello"
verify_payload-IsSigned_example =
    verify_payload-IsSigned echo schema (λ _. "Greeting") "signed" jwk expected "hello" greeting-ok

reads : Reads echo schema null (signed_header echo "Greeting" "key") jwk "hello"
reads = record {
  verifies = refl;
  text = "hello";
  decoded = refl;
  fits = omega arith;
  unique_keys = refl;
  read_back = refl;
}

short : len (sign_payload echo null "Greeting" jwk "key") ≤ 32768
unfolding sign_payload
short = omega arith

verify_payload-sign_payload_example :
    verify_payload echo schema
      (λ _. "Greeting")
      (sign_payload echo null "Greeting" jwk "key")
      jwk
      expected
    ≡ ok "hello"
verify_payload-sign_payload_example =
    verify_payload-sign_payload echo schema (λ _. "Greeting") null jwk "key" "hello" reads short
