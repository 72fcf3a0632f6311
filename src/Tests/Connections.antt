-- ===== src/Tests/Connections.antt =====
-- Two watches of one session, one of which fails its check before the session is revoked.
use call_sign.Prelude.{◌≡◌, refl, true, List, [], ◌∷◌, any, select, lookup, insert}
use call_sign.Server.Connections.{
  Watch, new_connections, stop, revoke, poll, polled, watch, revoke_all, revoke_session,
}
use call_sign.Server.Connections.Once.{Operation, watches, check_ends, perform, run}
use call_sign.Server.Connections.Revoked.{IsRevoked, watch-revoke_session}

abbrev first : Watch
first = record { id = 0; session_id = "session" }

abbrev operations : List Operation
operations = watches "session" ∷ watches "session" ∷ check_ends first true ∷ []

-- Each of the two is invalidated once.
invalidated_once :
    (revoke_session (run new_connections operations) "session").invalidated ≡ 0 ∷ 1 ∷ []
unfolding revoke_session run perform watch poll polled revoke stop revoke_all lookup insert any
    select
invalidated_once = refl

-- The second of the two is still open when the session is revoked.
watch-revoke_session_example :
    IsRevoked
      (watch (run new_connections (watches "session" ∷ [])) "session").0
      (check_ends first true ∷ [])
      (run
        (watch (run new_connections (watches "session" ∷ [])) "session").1
        (check_ends first true ∷ []))
      (revoke_session
        (run
          (watch (run new_connections (watches "session" ∷ [])) "session").1
          (check_ends first true ∷ []))
        "session")
watch-revoke_session_example =
    watch-revoke_session (watches "session" ∷ []) (check_ends first true ∷ []) "session"
