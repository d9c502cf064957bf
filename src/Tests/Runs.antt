-- ===== src/Tests/Runs.antt =====
-- The theorems on messages and runs at concrete inputs.
use mo_t.Base.{ℕ, ◌≡◌, ◌⊎◌, refl, false, true, some, map, List, [], ◌∷◌, ◌++◌, codes, arith, Holds}
use mo_t.Storage.Tables.{empty_db}
use mo_t.Storage.Statements.Integrity.{Integrity}
use mo_t.Storage.Engine.{fetch}
use mo_t.Storage.Conversations.{storage_is_admin}
use mo_t.Protocol.Types.{message_type, login}
use mo_t.Protocol.Request.{buffer}
use mo_t.Protocol.Wire.Header.{be32}
use mo_t.Server.{Event, accepted, readable, dispatch, run}
use mo_t.Server.Authority.{IsPermitted}
use mo_t.Server.Authority.Dispatch.{dispatch-IsPermitted}
use mo_t.Server.Guarantees.Identity.{LoggedIn, identity, dispatch-Session}
use mo_t.Server.Guarantees.Database.{IsSealed, run-Integrity, run-IsSealed}
use mo_t.Server.Guarantees.Protection.{Untouched, dispatch-Untouched}
use mo_t.Tests.Foundations.{empty_db-Integrity}
use mo_t.Tests.World.{sys, evp-IsEvp, sqlite, reader, group_db, client, server}

-- KickMemberPayload: user 2 out of conversation 1.
abbrev kick_payload : List ℕ
kick_payload = 1 ∷ 0 ∷ 0 ∷ 0 ∷ 2 ∷ 0 ∷ 0 ∷ 0 ∷ []

-- A message to conversation 1.
abbrev text_payload : List ℕ
text_payload = 1 ∷ 0 ∷ 0 ∷ 0 ∷ codes "hi"

-- Client 1 sends a message, a third client connects, and client 2 asks for the history.
abbrev events : List Event
events =
    readable 5 1700000000 reader (be32 30 ++ (be32 6 ++ text_payload))
    ∷ accepted 9 59 true true
    ∷ readable 6 1700000001 reader (be32 32 ++ (be32 4 ++ 1 ∷ 0 ∷ 0 ∷ 0 ∷ []))
    ∷ []

dispatch-IsPermitted_example :
    Holds
      (IsPermitted sys (server group_db) (client 1))
      (dispatch sys 0 (client 1) 28 kick_payload (server group_db))
dispatch-IsPermitted_example =
    dispatch-IsPermitted sys (server group_db) (client 1) 0 28 kick_payload

no_admin : storage_is_admin sqlite 1 2 group_db ≡ false
unfolding storage_is_admin fetch
no_admin = refl

dispatch-Untouched_example :
    Holds
      (λ s'. Untouched 1 group_db s'.db)
      (dispatch sys 0 (client 2) 28 kick_payload (server group_db))
dispatch-Untouched_example =
    dispatch-Untouched sys (server group_db) (client 2) 1 0 28 kick_payload (omega arith) no_admin

dispatch-Session_example :
    Holds
      (λ s'.
        (s'.key ≡ some (codes "key"))
        × (s'.freed ≡ [])
        × (s'.closed ≡ [])
        × ((map identity s'.clients ≡ map identity (server group_db).clients)
            ⊎ ((message_type 28 ≡ some login)
                × LoggedIn sys (client 1) (buffer kick_payload) (server group_db) s')))
      (dispatch sys 0 (client 1) 28 kick_payload (server group_db))
dispatch-Session_example = dispatch-Session sys (server group_db) (client 1) 0 28 kick_payload

run-Integrity_example : Holds (λ s'. Integrity s'.db) (run sys events (server empty_db))
run-Integrity_example = run-Integrity sys events (server empty_db) empty_db-Integrity

run-IsSealed_example :
    Holds (λ s'. IsSealed sys.evp s'.key s'.db) (run sys events (server empty_db))
run-IsSealed_example =
    run-IsSealed sys evp-IsEvp events (server empty_db) (record { texts = tt; others = tt })
