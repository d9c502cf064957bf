-- ===== src/Protocol/Wire/RoundTrip.antt =====
-- What send_packet of src/common/protocol.c sends is what recv_packet receives.
use mo_t.Base.{
  ℕ, suc, ◌+◌, ◌^◌, ◌≤◌, ◌<◌, ◌≡◌, refl, ◌∙◌, sym, ap, Bool, true, false, some, List, [], ◌++◌,
  length, take, drop, ◌==◌, arith, Yields, Yields-bind, Yields-value, if_cases, length-take,
  length-append, length-drop, take-append, drop-append, append_assoc, take-all, drop-drop,
  append-nil,
}
use mo_t.Base.Int.{pos, is_nonpositive}
use mo_t.Protocol.Wire.{
  Writer, IsWriter, IsOpen, Reader, IsReader, IsPatient, Read, Received, packet, allocated, failed,
  recv_payload, send_all, send_packet, recv_all, recv_packet,
}
use mo_t.Protocol.Wire.Header.{be32, be32_value, be32_value-be32, length-be32}
use mo_t.Protocol.Wire.Loops.{In, send_loop-Out}
use mo_t.Protocol.Wire.Framing.{IsPacket, Framed, header_fields, recv_all-In, recv_packet-Framed}

-- The bytes of a packet.
abbrev pub packet_bytes : ℕ → List ℕ → List ℕ
packet_bytes type_value payload = (be32 type_value ++ be32 (length payload)) ++ payload

-- A packet was received.
abbrev pub is_packet : Received → Bool
is_packet (packet type_value payload rest) = true
is_packet _ = false

module _ (w : Writer) (laws : IsWriter w) (open_ : IsOpen w) where
  send_all-Out :
      (calls : ℕ) (bytes wire : List ℕ)
      → length bytes < 2 ^ 31
      → Yields
          (λ sent. (failed sent ≡ false) × (sent.wire ≡ wire ++ bytes))
          (send_all w calls bytes wire)
  unfolding send_all
  send_all-Out calls bytes wire small =
      let (sent, e, o) = send_loop-Out w laws (suc (length bytes)) calls bytes wire (omega arith) in
      let ok = o.ends open_ small in
      (sent, e, (ok, o.out ∙ ap (◌++◌ wire) (take-all o.count bytes (omega (arith, o.whole ok)))))

  -- The header and the payload go out whole.
  pub send_packet-wire :
      (type_value calls : ℕ) (payload : List ℕ)
      → length payload < 2 ^ 31
      → Yields
          (λ sent. (sent.status ≡ pos 1) × (sent.wire ≡ packet_bytes type_value payload))
          (send_packet w true type_value payload calls [])
  unfolding send_packet
  send_packet-wire type_value calls payload small =
      Yields-bind
        (λ sent. (failed sent ≡ false) × (sent.wire ≡ be32 type_value ++ be32 (length payload))) _
        (send_all w calls (be32 type_value ++ be32 (length payload)) []) _
        (λ header (ok, e).
          if_cases (Yields _) (failed header) _ _ (λ no. cc)
            λ yes.
              if_cases (Yields _) (length payload == 0) _ _
                (λ nothing. (
                  _,
                  refl,
                  (
                    refl,
                    e
                        ∙ sym (append-nil _)
                        ∙ ap (◌++◌ (be32 type_value ++ be32 (length payload)))
                            (take-all 0 payload (ground arith)),
                  ),
                ))
                λ something.
                  Yields-bind (λ sent. (failed sent ≡ false) × (sent.wire ≡ header.wire ++ payload))
                    _ (send_all w header.calls payload header.wire) _
                    (λ body (ok', e'). (_, refl, (rw ok' refl, e' ∙ ap (λ h. h ++ payload) e)))
                    (send_all-Out header.calls payload header.wire small))
        (send_all-Out calls (be32 type_value ++ be32 (length payload)) [] (
          omega (
            arith,
            length-append (be32 type_value) (be32 (length payload)),
            length-be32 type_value,
            length-be32 (length payload),
          )))

module _ (r : Reader) (laws : IsReader r) (patient : IsPatient r) where
  recv_payload-is_packet :
      (type_value len : ℕ) (input : List ℕ) (body : Read)
      → len < 2 ^ 31
      → len ≤ length input
      → In r len input [] body
      → is_packet (recv_payload type_value len body) ≡ true
  recv_payload-is_packet type_value len input body small enough i =
      let size : length body.got ≡ i.count =
        rw i.into (omega (arith, length-take i.count input, i.received)) in
      let ok = i.ends patient small enough in ground (arith, i.within)

  -- Where a whole packet has come, it is received.
  recv_packet-is_packet :
      (calls len : ℕ) (input : List ℕ)
      → 8 + len ≤ length input
      → len ≡ be32_value (take 4 (drop 4 input))
      → len < 2 ^ 31
      → r.mallocs (allocated len) ≡ true
      → Yields (λ x. is_packet x ≡ true) (recv_packet r true calls input)
  unfolding recv_packet
  recv_packet-is_packet calls len input enough e_len small room =
      Yields-bind (In r 8 input []) (λ x. is_packet x ≡ true) (recv_all r calls 8 input) _
        (λ header i.
          let go = i.ends patient (omega arith) (omega arith) in
          let e_got : header.got ≡ take 8 input =
            i.into ∙ ap (λ (n : ℕ). take n input) (i.whole go) in
          let e_rest : header.rest ≡ drop 8 input =
            i.left ∙ ap (λ (n : ℕ). drop n input) (i.whole go) in
          let e_value : be32_value (drop 4 header.got) ≡ len =
            rw e_got (ap be32_value (header_fields input (omega arith)).1 ∙ sym e_len) in
          if_cases (Yields (λ x. is_packet x ≡ true)) (is_nonpositive header.status) _ _
            (λ stop. cc)
            λ _. rw e_value (
              if_cases (Yields (λ x. is_packet x ≡ true)) (len == 0) _ _ (λ _. (_, refl, refl))
                λ _.
                  if_cases (Yields (λ x. is_packet x ≡ true)) (r.mallocs (allocated len)) _ _
                    (λ _.
                      Yields-bind (In r len header.rest []) (λ x. is_packet x ≡ true)
                        (recv_all r header.calls len header.rest) _
                        (λ body j. (
                          _,
                          refl,
                          recv_payload-is_packet _ len header.rest body small
                              (rw e_rest (omega (arith, length-drop 8 input))) j,
                        ))
                        (recv_all-In r laws header.calls len header.rest))
                    λ no. cc))
        (recv_all-In r laws calls 8 input)

-- The bytes behind the type field of a sent packet.
behind_type :
    (type_value : ℕ) (payload rest : List ℕ)
    → drop 4 (packet_bytes type_value payload ++ rest) ≡ be32 (length payload) ++ (payload ++ rest)
behind_type type_value payload rest =
    rw
      (
        append_assoc (be32 type_value ++ be32 (length payload)) payload rest,
        append_assoc (be32 type_value) (be32 (length payload)) (payload ++ rest),
      )
      (drop-append (be32 type_value) (be32 (length payload) ++ (payload ++ rest)) 4
        (length-be32 type_value))

sent_fields :
    (type_value : ℕ) (payload rest : List ℕ)
    → length payload < 2 ^ 31
    → (length payload ≡ be32_value (take 4 (drop 4 (packet_bytes type_value payload ++ rest))))
      × (8 + length payload ≤ length (packet_bytes type_value payload ++ rest))
sent_fields type_value payload rest small = (
  rw
      (
        behind_type type_value payload rest,
        take-append (be32 (length payload)) (payload ++ rest) 4 (length-be32 (length payload)),
      )
      (sym (be32_value-be32 (length payload) (omega arith))),
  omega (
    arith,
    length-append (packet_bytes type_value payload) rest,
    length-append (be32 type_value ++ be32 (length payload)) payload,
    length-append (be32 type_value) (be32 (length payload)),
    length-be32 type_value,
    length-be32 (length payload),
  ),
)

-- The packet that stands at the head of a sent packet and what follows it.
IsPacket-packet_bytes :
    (type_value : ℕ) (payload rest : List ℕ) {t : ℕ} {p more : List ℕ}
    → type_value < 2 ^ 32
    → length payload < 2 ^ 31
    → IsPacket (packet_bytes type_value payload ++ rest) t p more
    → (t ≡ type_value) × (p ≡ payload) × (more ≡ rest)
IsPacket-packet_bytes type_value payload rest {t} {p} {more} small_type small i =
    let input = packet_bytes type_value payload ++ rest in
    let len = length payload in
    let e1 : input ≡ be32 type_value ++ (be32 len ++ (payload ++ rest)) =
      append_assoc (be32 type_value ++ be32 len) payload rest
      ∙ append_assoc (be32 type_value) (be32 len) (payload ++ rest) in
    let at4 = behind_type type_value payload rest in
    let at8 : drop 8 input ≡ payload ++ rest =
      sym (drop-drop 4 4 input)
      ∙ rw at4 (drop-append (be32 len) (payload ++ rest) 4 (length-be32 len)) in
    let e_type : t ≡ type_value =
      i.type_field
      ∙ rw e1 (
          ap be32_value (take-append (be32 type_value) _ 4 (length-be32 type_value))
          ∙ be32_value-be32 type_value small_type) in
    let e_len : length p ≡ len =
      i.length_field
      ∙ rw at4 (
          ap be32_value (take-append (be32 len) _ 4 (length-be32 len))
          ∙ be32_value-be32 len (omega arith)) in
    (
      e_type,
      i.body ∙ rw (e_len, at8) (take-append payload rest len refl),
      i.follows
          ∙ sym (drop-drop 8 (length p) input)
          ∙ rw (e_len, at8) (drop-append payload rest len refl),
    )

-- The packet that is received where one of some type and payload has come.
only_packet :
    (type_value : ℕ) (payload rest : List ℕ) (x : Received)
    → type_value < 2 ^ 32
    → length payload < 2 ^ 31
    → is_packet x ≡ true
    → Framed (packet_bytes type_value payload ++ rest) x
    → x ≡ packet type_value payload rest
only_packet type_value payload rest (packet t p more) small_type small h i =
    let (e1, e2, e3) = IsPacket-packet_bytes type_value payload rest small_type small i in cc
only_packet type_value payload rest x small_type small h i = cc

delivered :
    (r : Reader)
    → IsReader r
    → IsPatient r
    → (type_value reads : ℕ) (payload rest : List ℕ) → type_value < 2 ^ 32
    → length payload < 2 ^ 31
    → r.mallocs (allocated (length payload)) ≡ true
    → recv_packet r true reads (packet_bytes type_value payload ++ rest)
      ≡ some (packet type_value payload rest)
delivered r laws patient type_value reads payload rest small_type small room =
    let input = packet_bytes type_value payload ++ rest in
    let (fields, long) = sent_fields type_value payload rest small in
    let (x, e, is) =
      recv_packet-is_packet r laws patient reads (length payload) input long fields small room in
    e
    ∙ ap some (
        only_packet type_value payload rest x small_type small is
          (Yields-value (Framed input) _ x e (recv_packet-Framed r laws true reads input)))

-- For calls of SSL_write and SSL_read that keep to their contracts on an open connection, a type
-- below 2^32, a payload shorter than 2^31 bytes and a malloc that succeeds: send_packet succeeds, and
-- recv_packet of what it sent, with anything behind it, gives the type, the payload and the rest.
pub recv_packet-send_packet :
    (w : Writer) (r : Reader)
    → IsWriter w
    → IsOpen w
    → IsReader r
    → IsPatient r
    → (type_value sends reads : ℕ) (payload rest : List ℕ) → type_value < 2 ^ 32
    → length payload < 2 ^ 31
    → r.mallocs (allocated (length payload)) ≡ true
    → Yields
        (λ sent.
          (sent.status ≡ pos 1)
          × (recv_packet r true reads (sent.wire ++ rest) ≡ some (packet type_value payload rest)))
        (send_packet w true type_value payload sends [])
recv_packet-send_packet w r w_laws open_ r_laws patient type_value sends reads payload rest
      small_type small room =
    let (sent, e, (ok, wire)) = send_packet-wire w w_laws open_ type_value sends payload small in
    (
      sent,
      e,
      (
        ok,
        rw wire (delivered r r_laws patient type_value reads payload rest small_type small room),
      ),
    )
