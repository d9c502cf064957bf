-- ===== src/Protocol/Wire/Loops.antt =====
-- What send_all and recv_all of src/common/protocol.c do, for an SSL_write and an SSL_read that keep
-- to their contracts. The loops end: they are given fuel enough.
use mo_t.Base.{
  ℕ, zero, suc, ◌+◌, ◌-◌, ◌^◌, ◌≤◌, ◌<◌, ◌≡◌, refl, ◌∙◌, sym, ap, true, false, List, ◌++◌, length,
  take, drop, ◌==◌, arith, Yields, if_cases, append-nil, append_assoc, take_add, drop-drop,
  length-drop,
}
use mo_t.Base.Int.{is_nonpositive, pos_part, positive_count}
use mo_t.Protocol.Wire.{
  Writer, IsWriter, IsOpen, Reader, IsReader, IsPatient, Sent, Read, failed, send_loop, recv_loop,
}

-- After a loop of SSL_write: the first `count` bytes are out, all of them unless it failed.
pub record Out (w : Writer) (bytes wire : List ℕ) (sent : Sent) : Type 0 where
  pub count : ℕ
  pub within : count ≤ length bytes
  pub out : sent.wire ≡ wire ++ take count bytes
  pub whole : failed sent ≡ false → count ≡ length bytes
  pub ends : IsOpen w → length bytes < 2 ^ 31 → failed sent ≡ false

-- After a loop of SSL_read: the first `count` bytes are in, all that were wanted unless it failed.
pub record In (r : Reader) (want : ℕ) (input got : List ℕ) (read : Read) : Type 0 where
  pub count : ℕ
  pub within : count ≤ want
  pub received : count ≤ length input
  pub into : read.got ≡ got ++ take count input
  pub left : read.rest ≡ drop count input
  pub whole : is_nonpositive read.status ≡ false → count ≡ want
  pub refused : 2 ^ 31 ≤ want → (is_nonpositive read.status ≡ true) × (count ≡ 0)
  pub ends : IsPatient r → want < 2 ^ 31 → want ≤ length input → is_nonpositive read.status ≡ false

module _ (w : Writer) (laws : IsWriter w) where
  pub send_loop-Out :
      (fuel calls : ℕ) (bytes wire : List ℕ)
      → length bytes < fuel
      → Yields (Out w bytes wire) (send_loop w fuel calls bytes wire)
  unfolding send_loop
  send_loop-Out zero calls bytes wire h = absurd (omega arith)
  send_loop-Out (suc fuel) calls bytes wire h =
      if_cases (Yields (Out w bytes wire)) (length bytes == 0) _ _
        (λ e. (
          _,
          refl,
          record {
            count = 0;
            within = omega arith;
            out = sym (append-nil wire);
            whole = λ ok. ground arith;
            ends = λ open_ small. refl;
          },
        ))
        λ e.
          if_cases (Yields (Out w bytes wire)) (is_nonpositive (w.ssl_write calls (length bytes))) _
            _
            (λ stop. (
              _,
              refl,
              record {
                count = 0;
                within = omega arith;
                out = sym (append-nil wire);
                whole = λ ok. cc;
                ends = λ open_ small. cc (open_ calls (length bytes) (ground arith) small);
              },
            ))
            λ go.
              let k = pos_part (w.ssl_write calls (length bytes)) in
              let (is_pos, some_byte) = positive_count _ go in
              let inside = laws.within calls (length bytes) k is_pos in
              let (sent, eq, o) =
                send_loop-Out fuel (calls + 1) (drop k bytes) (wire ++ take k bytes)
                  (omega (arith, length-drop k bytes)) in
              (
                sent,
                eq,
                record {
                  count = k + o.count;
                  within = omega (arith, o.within, length-drop k bytes);
                  out =
                      o.out
                      ∙ append_assoc wire (take k bytes) (take o.count (drop k bytes))
                      ∙ ap (◌++◌ wire) (take_add k o.count bytes);
                  whole = λ ok. omega (arith, o.whole ok, length-drop k bytes);
                  ends = λ open_ small. o.ends open_ (omega (arith, length-drop k bytes));
                },
              )

module _ (r : Reader) (laws : IsReader r) where
  pub recv_loop-In :
      (fuel calls want : ℕ) (input got : List ℕ)
      → want < fuel
      → Yields (In r want input got) (recv_loop r fuel calls want input got)
  unfolding recv_loop
  recv_loop-In zero calls want input got h = absurd (omega arith)
  recv_loop-In (suc fuel) calls want input got h =
      if_cases (Yields (In r want input got)) (want == 0) _ _
        (λ e. (
          _,
          refl,
          record {
            count = 0;
            within = omega arith;
            received = omega arith;
            into = sym (append-nil got);
            left = refl;
            whole = λ ok. ground arith;
            refused = λ big. absurd (ground arith);
            ends = λ patient small enough. refl;
          },
        ))
        λ e.
          if_cases (Yields (In r want input got))
            (is_nonpositive (r.ssl_read calls want (length input))) _ _
            (λ stop. (
              _,
              refl,
              record {
                count = 0;
                within = omega arith;
                received = omega arith;
                into = sym (append-nil got);
                left = refl;
                whole = λ ok. cc;
                refused = λ big. (stop, refl);
                ends = λ patient small enough.
                    cc (patient calls want (length input) (ground arith) small (ground arith));
              },
            ))
            λ go.
              let k = pos_part (r.ssl_read calls want (length input)) in
              let (is_pos, some_byte) = positive_count _ go in
              let inside = laws.within calls want (length input) k is_pos in
              let there = laws.received calls want (length input) k is_pos in
              let (read, eq, o) =
                recv_loop-In fuel (calls + 1) (want - k) (drop k input) (got ++ take k input)
                  (omega arith) in
              (
                read,
                eq,
                record {
                  count = k + o.count;
                  within = omega (arith, o.within);
                  received = omega (arith, o.received, length-drop k input);
                  into =
                      o.into
                      ∙ append_assoc got (take k input) (take o.count (drop k input))
                      ∙ ap (◌++◌ got) (take_add k o.count input);
                  left = o.left ∙ drop-drop k o.count input;
                  whole = λ ok. omega (arith, o.whole ok);
                  refused = λ big. cc (laws.refused calls want (length input) big);
                  ends = λ patient small enough.
                      o.ends patient (omega arith) (omega (arith, length-drop k input));
                },
              )
