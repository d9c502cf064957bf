-- ===== src/Protocol/Wire/Framing.antt =====
-- What recv_packet of src/common/protocol.c makes of the bytes on the way.
use mo_t.Base.{
  ℕ, suc, ◌+◌, ◌^◌, ◌≤◌, ◌<◌, ◌≡◌, refl, ◌∙◌, sym, ap, Bool, true, false, List, [], ◌++◌, length,
  take, drop, ltb, leb, ◌==◌, arith, Yields, Yields-bind, if_cases, take_add, drop-drop,
  length-take, take-append, drop-append,
}
use mo_t.Base.Int.{is_nonpositive}
use mo_t.Protocol.Wire.{
  Reader, IsReader, Read, Received, stopped, overrun, packet, allocated, recv_payload, recv_all,
  recv_packet,
}
use mo_t.Protocol.Wire.Header.{be32_value}
use mo_t.Protocol.Wire.Loops.{In, recv_loop-In}

-- The parts of a packet at the head of some bytes.
pub record IsPacket (input : List ℕ) (type_value : ℕ) (payload rest : List ℕ) : Type 0 where
  pub header : 8 ≤ length input
  pub type_field : type_value ≡ be32_value (take 4 input)
  pub length_field : length payload ≡ be32_value (take 4 (drop 4 input))
  pub small : length payload < 2 ^ 31
  pub body : payload ≡ take (length payload) (drop 8 input)
  pub follows : rest ≡ drop (8 + length payload) input

-- A result of recv_packet: a value that is not positive, or the packet at the head of the input. No
-- byte is written behind the buffer.
abbrev pub Framed : List ℕ → Received → Type 0
Framed input (stopped status) = is_nonpositive status ≡ true
Framed input overrun = true ≡ false
Framed input (packet type_value payload rest) = IsPacket input type_value payload rest

-- The two fields of a header that was read whole.
pub header_fields :
    (input : List ℕ)
    → 8 ≤ length input
    → (take 4 (take 8 input) ≡ take 4 input) × (drop 4 (take 8 input) ≡ take 4 (drop 4 input))
header_fields input h =
    let whole : take 4 input ++ take 4 (drop 4 input) ≡ take 8 input = take_add 4 4 input in
    let four : length (take 4 input) ≡ 4 = omega (arith, length-take 4 input) in
    rw (← whole) (
      take-append (take 4 input) (take 4 (drop 4 input)) 4 four,
      drop-append (take 4 input) (take 4 (drop 4 input)) 4 four,
    )

module _ (r : Reader) (laws : IsReader r) where
  pub recv_all-In :
      (calls want : ℕ) (input : List ℕ) → Yields (In r want input []) (recv_all r calls want input)
  unfolding recv_all
  recv_all-In calls want input = recv_loop-In r laws (suc want) calls want input [] (omega arith)

  recv_payload-Framed :
      (input header_rest : List ℕ) (type_value len : ℕ) (body : Read)
      → 8 ≤ length input
      → type_value ≡ be32_value (take 4 input)
      → len ≡ be32_value (take 4 (drop 4 input))
      → header_rest ≡ drop 8 input
      → In r len header_rest [] body
      → Framed input (recv_payload type_value len body)
  recv_payload-Framed input header_rest type_value len body long e_type e_len e_rest i =
      let size : length body.got ≡ i.count =
        rw i.into (omega (arith, length-take i.count header_rest, i.received)) in
      if_cases (Framed input) (ltb (allocated len) (length body.got)) _ _
        (λ over. absurd (ground (arith, i.refused, i.within)))
        λ fits.
          if_cases (Framed input) (is_nonpositive body.status) _ _ (λ stop. refl)
            λ go.
              if_cases (Framed input) (leb (allocated len) len) _ _
                (λ over. absurd (ground (arith, i.refused, i.whole go)))
                λ room. record {
                  header = long;
                  type_field = e_type;
                  length_field = omega (arith, size, i.whole go);
                  small = ground (arith, i.refused, i.whole go);
                  body = rw (size, ← e_rest) i.into;
                  follows =
                      i.left
                      ∙ rw e_rest (
                          drop-drop 8 i.count input
                          ∙ ap (λ (n : ℕ). drop (8 + n) input) (sym size));
                }

  -- For an SSL_read that keeps to its contract, and whatever bytes come: recv_packet ends, it writes
  -- no byte behind its buffer, and what it returns is a value that is not positive or the packet at
  -- the head of the bytes, with the type, length and body that stand there.
  pub recv_packet-Framed :
      (ssl : Bool) (calls : ℕ) (input : List ℕ)
      → Yields (Framed input) (recv_packet r ssl calls input)
  unfolding recv_packet
  recv_packet-Framed false calls input = (_, refl, refl)
  recv_packet-Framed true calls input =
      Yields-bind (In r 8 input []) (Framed input) (recv_all r calls 8 input) _
        (λ header i.
          if_cases (Yields (Framed input)) (is_nonpositive header.status) _ _
            (λ stop. (_, refl, stop))
            λ go.
              let long : 8 ≤ length input = omega (arith, i.whole go, i.received) in
              let e_got : header.got ≡ take 8 input =
                i.into ∙ ap (λ (n : ℕ). take n input) (i.whole go) in
              let e_rest : header.rest ≡ drop 8 input =
                i.left ∙ ap (λ (n : ℕ). drop n input) (i.whole go) in
              let e_type : be32_value (take 4 header.got) ≡ be32_value (take 4 input) =
                rw e_got (ap be32_value (header_fields input long).0) in
              let e_len : be32_value (drop 4 header.got) ≡ be32_value (take 4 (drop 4 input)) =
                rw e_got (ap be32_value (header_fields input long).1) in
              if_cases (Yields (Framed input)) (be32_value (drop 4 header.got) == 0) _ _
                (λ none_. (
                  _,
                  refl,
                  record {
                    header = long;
                    type_field = e_type;
                    length_field = ground (arith, e_len);
                    small = omega arith;
                    body = refl;
                    follows = e_rest;
                  },
                ))
                λ some_.
                  if_cases (Yields (Framed input))
                    (r.mallocs (allocated (be32_value (drop 4 header.got)))) _ _
                    (λ ok.
                      Yields-bind (In r (be32_value (drop 4 header.got)) header.rest [])
                        (Framed input)
                        (recv_all r header.calls (be32_value (drop 4 header.got)) header.rest) _
                        (λ body j. (
                          _,
                          refl,
                          recv_payload-Framed input header.rest _ _ body long e_type e_len e_rest j,
                        ))
                        (recv_all-In header.calls (be32_value (drop 4 header.got)) header.rest))
                    λ fail. (_, refl, refl))
        (recv_all-In calls 8 input)
