-- ===== src/Tests/Wires.antt =====
-- The theorems on framing at concrete inputs.
use mo_t.Base.{ℕ, ◌≡◌, ◌++◌, ◌∷◌, [], refl, true, some, List, codes, arith, Yields}
use mo_t.Base.Int.{pos}
use mo_t.Protocol.Wire.{packet, send_packet, recv_packet}
use mo_t.Protocol.Wire.Framing.{Framed, recv_packet-Framed}
use mo_t.Protocol.Wire.RoundTrip.{recv_packet-send_packet}
use mo_t.Tests.World.{
  writer, writer-IsWriter, writer-IsOpen, reader, reader-IsReader, reader-IsPatient,
}

-- A message of type 32 with a payload of four bytes, and one byte of the next.
abbrev incoming : List ℕ
incoming = 0 ∷ 0 ∷ 0 ∷ 32 ∷ 0 ∷ 0 ∷ 0 ∷ 4 ∷ 1 ∷ 0 ∷ 0 ∷ 0 ∷ 9 ∷ []

recv_packet-Framed_example : Yields (Framed incoming) (recv_packet reader true 0 incoming)
recv_packet-Framed_example = recv_packet-Framed reader reader-IsReader true 0 incoming

recv_packet-send_packet_example :
    Yields
      (λ sent.
        (sent.status ≡ pos 1)
        × (recv_packet reader true 0 (sent.wire ++ 9 ∷ [])
            ≡ some (packet 30 (codes "hi") (9 ∷ []))))
      (send_packet writer true 30 (codes "hi") 0 [])
recv_packet-send_packet_example =
    recv_packet-send_packet writer reader writer-IsWriter writer-IsOpen reader-IsReader
      reader-IsPatient 30 0 0 (codes "hi") (9 ∷ []) (omega arith) (omega arith) refl
