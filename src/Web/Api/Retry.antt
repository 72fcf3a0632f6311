-- ===== src/Web/Api/Retry.antt =====
-- The loop of `api` in apps/web/src/lib/api.ts.
use call_sign.Prelude.{
  ℕ, ◌≤◌, ◌≡◌, refl, Option, none, some, Bool, false, not, ◌||◌, arith, nat_eq, Bool-cases, inl,
  inr,
}
use call_sign.Web.Api.{
  ApiFailure, ApiReply, Fetched, Init, is_get, is_type_error, refusal, caught, attempted, api_from,
}

module _ {ℓ} {A : Type ℓ} (fetch : ℕ → Fetched A) (is_aborted : ℕ → Bool) (init : Init) where
  -- How a call ends: with at most two requests, and with one unless it is a read.
  pub record IsSettled (outcome : Option (ApiReply A × ℕ)) : Type ℓ where
    pub reply : ApiReply A
    pub sent : ℕ
    pub ends : outcome ≡ some (reply, sent)
    pub twice : sent ≤ 2
    pub once : is_get init.method ≡ false → sent ≡ 1

  -- The second attempt is the last one.
  second :
      (r : Fetched A) (retry : Option (ApiReply A × ℕ))
      → (reply : ApiReply A) × (attempted fetch is_aborted init 1 r retry ≡ some (reply, 2))
  second (Fetched.throws e) retry = (ApiReply.failed e, refl)
  second (Fetched.answers a) retry = (ApiReply.replied a, refl)
  second (Fetched.refuses status code message) retry = (_, refl)

  caught-IsSettled :
      (e : ApiFailure) (retry : Option (ApiReply A × ℕ)) (reply : ApiReply A)
      → retry ≡ some (reply, 2)
      → IsSettled (caught fetch is_aborted init 0 e retry)
  caught-IsSettled e retry reply h = elim (Bool-cases (is_get init.method)) [
    | inl get ↦
        elim (Bool-cases (not (is_get init.method) || not (is_type_error e) || is_aborted 0)) [
          | inl stop ↦
              rw (stop)
                (record { reply = _; sent = 1; ends = refl; twice = omega arith; once = λ n. refl })
          | inr go ↦ rw (go) (elim (Bool-cases (is_aborted 1)) [
            | inl stop ↦
                rw (stop) (record {
                  reply = _;
                  sent = 1;
                  ends = refl;
                  twice = omega arith;
                  once = λ n. refl;
                })
            | inr more ↦
                rw (more) (record {
                  reply = reply;
                  sent = 2;
                  ends = h;
                  twice = omega arith;
                  once = λ n. cc;
                })
          ])
        ]
    | inr other ↦
        rw (other)
          (record { reply = _; sent = 1; ends = refl; twice = omega arith; once = λ n. refl })
  ]

  first-IsSettled :
      (r : Fetched A) (retry : Option (ApiReply A × ℕ)) (reply : ApiReply A)
      → retry ≡ some (reply, 2)
      → IsSettled (attempted fetch is_aborted init 0 r retry)
  first-IsSettled (Fetched.throws e) retry reply h = caught-IsSettled e retry reply h
  first-IsSettled (Fetched.answers a) retry reply h = record {
    reply = ApiReply.replied a;
    sent = 1;
    ends = refl;
    twice = omega arith;
    once = λ n. refl;
  }
  first-IsSettled (Fetched.refuses status code message) retry reply h =
      caught-IsSettled (refusal status code message) retry reply h

  -- `api` ends after at most two requests, and after a single one that is not a read.
  pub api_from-IsSettled : IsSettled (api_from fetch is_aborted init 2 0)
  unfolding api_from
  api_from-IsSettled = let (reply, h) = second (fetch 1) none in first-IsSettled (fetch 0) _ reply h
