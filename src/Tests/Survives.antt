-- ===== src/Tests/Survives.antt =====
-- The theorem on the survival of the server at a concrete run.
use mo_t.Base.{ℕ, ◌≡◌, refl, true, some, List, [], ◌∷◌, All, arith, Yields}
use mo_t.Storage.Tables.{empty_db}
use mo_t.Protocol.Types.{MessageType, message_type, type_code, message_type_iff, req_history}
use mo_t.Protocol.Wire.{packet, recv_packet, recv_all, recv_loop}
use mo_t.Protocol.Wire.Header.{be32_value}
use mo_t.Server.{Event, accepted, readable, run}
use mo_t.Server.Guarantees.Answers.{WellFormed, IsCrypting}
use mo_t.Server.Guarantees.Survival.{IsPolite, run-survives}
use mo_t.Server.Guarantees.Database.{IsSealed}
use mo_t.Tests.World.{sys, libc, evp-IsEvp, reader, reader-IsReader, server}

-- A request for the history of conversation 1.
abbrev history_bytes : List ℕ
history_bytes = 0 ∷ 0 ∷ 0 ∷ 32 ∷ 0 ∷ 0 ∷ 0 ∷ 4 ∷ 1 ∷ 0 ∷ 0 ∷ 0 ∷ []

history_received :
    recv_packet reader true 0 history_bytes ≡ some (packet 32 (1 ∷ 0 ∷ 0 ∷ 0 ∷ []) [])
unfolding recv_packet recv_all recv_loop be32_value
history_received = refl

history_type : (t : MessageType) → message_type 32 ≡ some t → t ≡ req_history
unfolding type_code
history_type t h = cc ((message_type_iff 32 req_history).1 refl)

history_formed :
    (type_value : ℕ) (payload rest : List ℕ) (t : MessageType)
    → recv_packet reader true 0 history_bytes ≡ some (packet type_value payload rest)
    → message_type type_value ≡ some t
    → WellFormed t payload
history_formed type_value payload rest t h e =
    let e_type : type_value ≡ 32 = cc history_received in
    let e_payload : payload ≡ 1 ∷ 0 ∷ 0 ∷ 0 ∷ [] = cc history_received in
    let e_t : t ≡ req_history = history_type t (rw (← e_type) e) in
    rw (e_t, e_payload) (record { size = omega arith; count = λ no n got. cc })

crypts : IsCrypting libc
crypts password salt = refl

-- A third client connects, and client 1 asks for a history.
abbrev polite_events : List Event
polite_events = accepted 9 59 true true ∷ readable 5 1700000000 reader history_bytes ∷ []

events-IsPolite : All IsPolite polite_events
events-IsPolite = (tt, ((reader-IsReader, history_formed), tt))

run-survives_example :
    Yields (λ s'. IsSealed sys.evp s'.key s'.db) (run sys polite_events (server empty_db))
run-survives_example =
    run-survives sys evp-IsEvp crypts polite_events (server empty_db) events-IsPolite
      (record { texts = tt; others = tt })
