-- ===== src/Protocol/Request/Sizes.antt =====
-- The sizes of the packed structs of include/system/protocol.h, and that a payload of the size of its
-- struct has every field that the handlers of src/server read.
use mo_t.Base.{
  ℕ, zero, suc, ◌+◌, ◌*◌, ◌≤◌, ◌<◌, ◌≡◌, refl, true, List, [], ◌∷◌, length, length-append,
  get_elem?, is_some, is_some-bind, arith,
}
use mo_t.Protocol.Types.{
  MessageType, register, login, update_user, send_text, req_history, create_conv, update_group,
  add_member, req_members, kick_member, delete_group, add_by_code, decide_request,
}
use mo_t.Protocol.Request.{buffer, u8_at, u32_at, text_at, u32s_at}

-- sizeof of the payload that a request carries.
abbrev pub payload_size : MessageType → ℕ
payload_size register = 160
payload_size login = 128
payload_size update_user = 96
payload_size send_text = 1028
payload_size req_history = 4
payload_size create_conv = 141
payload_size update_group = 100
payload_size add_member = 11
payload_size req_members = 4
payload_size kick_member = 8
payload_size delete_group = 4
payload_size add_by_code = 7
payload_size decide_request = 5
payload_size _ = 0

get_elem?-is_some : (xs : List ℕ) (i : ℕ) → i < length xs → is_some (get_elem? xs i) ≡ true
get_elem?-is_some [] i h = absurd (omega arith)
get_elem?-is_some (x ∷ xs) zero h = refl
get_elem?-is_some (x ∷ xs) (suc i) h = get_elem?-is_some xs i (omega arith)

pub length-buffer : (p : List ℕ) → length p ≤ length (buffer p)
length-buffer [] = omega arith
length-buffer (b ∷ bs) = omega (arith, length-append bs (0 ∷ []))

module _ (buf : List ℕ) where
  pub u8_at-is_some : (off : ℕ) → off < length buf → is_some (u8_at buf off) ≡ true
  unfolding u8_at
  u8_at-is_some off h = get_elem?-is_some buf off h

  pub u32_at-is_some : (off : ℕ) → off + 4 ≤ length buf → is_some (u32_at buf off) ≡ true
  unfolding u32_at
  u32_at-is_some off h =
      is_some-bind (get_elem? buf off) _ (get_elem?-is_some buf off (omega arith)) λ b0 e0.
        is_some-bind (get_elem? buf (off + 1)) _ (get_elem?-is_some buf (off + 1) (omega arith))
          λ b1 e1.
            is_some-bind (get_elem? buf (off + 2)) _ (get_elem?-is_some buf (off + 2) (omega arith))
              λ b2 e2.
                is_some-bind (get_elem? buf (off + 3)) _
                  (get_elem?-is_some buf (off + 3) (omega arith)) λ b3 e3. refl

  pub text_at-is_some : (off : ℕ) → off < length buf → is_some (text_at buf off) ≡ true
  unfolding text_at
  text_at-is_some off h = ground arith

  pub u32s_at-is_some :
      (count off : ℕ) → off + 4 * count ≤ length buf → is_some (u32s_at count buf off) ≡ true
  unfolding u32s_at
  u32s_at-is_some zero off h = refl
  u32s_at-is_some (suc count) off h =
      is_some-bind (u32_at buf off) _ (u32_at-is_some off (omega arith)) λ first e.
        is_some-bind (u32s_at count buf (off + 4)) _ (u32s_at-is_some count (off + 4) (omega arith))
          λ rest e'. refl
