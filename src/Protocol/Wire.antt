-- ===== src/Protocol/Wire.antt =====
-- The framing of src/common/protocol.c: send_all, recv_all, send_packet and recv_packet over the
-- SSL_write and SSL_read of OpenSSL, which are parameters.
pub mod Header
pub mod Loops
pub mod Framing
pub mod RoundTrip
use mo_t.Base.{
  ℕ, zero, suc, ◌+◌, ◌-◌, ◌%◌, ◌^◌, ◌≤◌, ◌<◌, ◌≡◌, Bool, true, false, Option, none, some, List, [],
  ◌∷◌, ◌++◌, length, take, drop, ltb, leb, ◌==◌, if◌then◌else◌, ◌>>=◌,
}
use mo_t.Base.Int.{ℤ, pos, negsuc, is_nonpositive, pos_part}
use Header.{be32, be32_value}

-- SSL_write of so many bytes, after so many calls: how many it takes, or what error it returns.
pub record Writer : Type 0 where
  pub ssl_write : ℕ → ℕ → ℤ

-- It takes no more than it is given.
pub record IsWriter (w : Writer) : Type 0 where
  pub within : (calls n k : ℕ) → w.ssl_write calls n ≡ pos k → k ≤ n

-- It takes a byte where there is one. The length is an int.
abbrev pub IsOpen : Writer → Type 0
IsOpen w = (calls n : ℕ) → 0 < n → n < 2 ^ 31 → is_nonpositive (w.ssl_write calls n) ≡ false

-- SSL_read into so many bytes, after so many calls, with so many bytes on the way; and whether a
-- malloc of some size succeeds.
pub record Reader : Type 0 where
  pub ssl_read : ℕ → ℕ → ℕ → ℤ
  pub mallocs : ℕ → Bool

-- It gives no more than was asked for, and than there is. A length from 2^31 on is a negative int,
-- and is refused.
pub record IsReader (r : Reader) : Type 0 where
  pub within : (calls n available k : ℕ) → r.ssl_read calls n available ≡ pos k → k ≤ n
  pub received : (calls n available k : ℕ) → r.ssl_read calls n available ≡ pos k → k ≤ available
  pub refused :
      (calls n available : ℕ) → 2 ^ 31 ≤ n → is_nonpositive (r.ssl_read calls n available) ≡ true

-- It blocks until there is a byte, and does not fail while there is one.
abbrev pub IsPatient : Reader → Type 0
IsPatient r =
    (calls n available : ℕ)
    → 0 < n
    → n < 2 ^ 31
    → 0 < available
    → is_nonpositive (r.ssl_read calls n available) ≡ false

-- The result of a sending call: its value, the bytes on the wire and the calls made.
pub record Sent : Type 0 where
  pub status : ℤ
  pub wire : List ℕ
  pub calls : ℕ

-- send_all(…) == -1
abbrev pub failed : Sent → Bool
failed sent = elim sent.status [ pos n ↦ false | negsuc n ↦ n == 0 ]

-- `ssl` says that the handle is not NULL. An empty payload is not sent.
module _ (w : Writer) where
  -- `rest` is what ptr + total_sent points to. `none`: out of fuel.
  unfoldable pub send_loop : ℕ → ℕ → List ℕ → List ℕ → Option Sent
  send_loop zero calls rest wire = none
  send_loop (suc fuel) calls rest wire =
      let sent = w.ssl_write calls (length rest) in
      let k = pos_part sent in
      let more = send_loop fuel (calls + 1) (drop k rest) (wire ++ take k rest) in
      if length rest == 0
      then some (record { status = pos 0; wire = wire; calls = calls })
      else if is_nonpositive sent
      then some (record { status = negsuc 0; wire = wire; calls = calls + 1 })
      else more

  unfoldable pub send_all : ℕ → List ℕ → List ℕ → Option Sent
  send_all calls bytes wire = send_loop (suc (length bytes)) calls bytes wire

  unfoldable pub send_packet : Bool → ℕ → List ℕ → ℕ → List ℕ → Option Sent
  send_packet ssl type_value payload calls wire =
      if ssl
      then (do
        header ← send_all calls (be32 type_value ++ be32 (length payload)) wire
        if failed header
            then some (record header { status = negsuc 0 })
            else if length payload == 0
            then some (record header { status = pos 1 })
            else (do
              body ← send_all header.calls payload header.wire
              some (record body { status = if failed body then negsuc 0 else pos 1 })))
      else some (record { status = negsuc 0; wire = wire; calls = calls })

-- The result of `recv_all`: its value, the bytes it stored, those still on the way, the calls made.
pub record Read : Type 0 where
  pub status : ℤ
  pub got : List ℕ
  pub rest : List ℕ
  pub calls : ℕ

-- The result of `recv_packet`: a value that is not positive, a packet with what follows it, or a
-- write behind the end of the buffer.
pub data Received : Type 0 where
  stopped : ℤ → Received
  overrun : Received
  packet : ℕ → List ℕ → List ℕ → Received

-- `*payload_len_out + 1` is a uint32_t. The NUL goes behind the payload.
abbrev pub allocated : ℕ → ℕ
allocated len = (len + 1) % 2 ^ 32

abbrev pub recv_payload : ℕ → ℕ → Read → Received
recv_payload type_value len body =
    if ltb (allocated len) (length body.got)
    then overrun
    else if is_nonpositive body.status
    then stopped (negsuc 0)
    else if leb (allocated len) len
    then overrun
    else packet type_value body.got body.rest

module _ (r : Reader) where
  unfoldable pub recv_loop : ℕ → ℕ → ℕ → List ℕ → List ℕ → Option Read
  recv_loop zero calls want input got = none
  recv_loop (suc fuel) calls want input got =
      let received = r.ssl_read calls want (length input) in
      let k = pos_part received in
      let more = recv_loop fuel (calls + 1) (want - k) (drop k input) (got ++ take k input) in
      if want == 0
      then some (record { status = pos 1; got = got; rest = input; calls = calls })
      else if is_nonpositive received
      then some (record { status = received; got = got; rest = input; calls = calls + 1 })
      else more

  unfoldable pub recv_all : ℕ → ℕ → List ℕ → Option Read
  recv_all calls len input = recv_loop (suc len) calls len input []

  unfoldable pub recv_packet : Bool → ℕ → List ℕ → Option Received
  recv_packet ssl calls input =
      if ssl
      then (do
        header ← recv_all calls 8 input
        let type_value = be32_value (take 4 header.got)
        let len = be32_value (drop 4 header.got)
        if is_nonpositive header.status
            then some (stopped header.status)
            else if len == 0
            then some (packet type_value [] header.rest)
            else if r.mallocs (allocated len)
            then (do
              body ← recv_all header.calls len header.rest
              some (recv_payload type_value len body))
            else some (stopped (negsuc 0)))
      else some (stopped (negsuc 0))
