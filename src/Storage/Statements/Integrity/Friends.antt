-- ===== src/Storage/Statements/Integrity/Friends.antt =====
-- The keys of contacts, requests and participants under the insertions of src/server/storage.c.
use mo_t.Base.{
  ℕ, ◌≡◌, ◌≢◌, false, ◌||◌, List, [], ◌∷◌, ◌++◌, any, any-append, append_assoc, ◌==◌, arith, All,
  Unique, Unique-snoc, All-ne-any,
}
use mo_t.Storage.Tables.{ParticipantRow}
use mo_t.Storage.Statements.{same_pair, same_seat}
use mo_t.Storage.Statements.Integrity.{ContactKeys, IsMutual, pair_key, seat_key}

new_pair :
    (a b : ℕ) (pairs : List (ℕ × ℕ))
    → any (same_pair a b) pairs ≡ false
    → All (λ p. pair_key p ≢ (a, b)) pairs
new_pair a b pairs free =
    All-ne-any pair_key (same_pair a b) (a, b) (λ p e. ground arith) pairs free

-- One more pair that was not there.
pub insert_pair-Unique :
    (a b : ℕ) (pairs : List (ℕ × ℕ))
    → Unique pair_key pairs
    → any (same_pair a b) pairs ≡ false
    → Unique pair_key (pairs ++ (a, b) ∷ [])
insert_pair-Unique a b pairs u free = Unique-snoc pair_key pairs (a, b) u (new_pair a b pairs free)

pub insert_seat-Unique :
    (p : ParticipantRow) (seats : List ParticipantRow)
    → Unique seat_key seats
    → any (same_seat p.conv_id p.user_id) seats ≡ false
    → Unique seat_key (seats ++ p ∷ [])
insert_seat-Unique p seats u free = Unique-snoc seat_key seats p u (
    All-ne-any seat_key (same_seat p.conv_id p.user_id) (p.conv_id, p.user_id) (λ q e. ground arith)
      seats free)

insert-IsMutual :
    (a b : ℕ) (contacts : List (ℕ × ℕ))
    → a ≢ b
    → IsMutual contacts
    → IsMutual (contacts ++ (a, b) ∷ (b, a) ∷ [])
insert-IsMutual a b contacts ne m c d h = ground (
  arith,
  any-append (same_pair c d) contacts ((a, b) ∷ (b, a) ∷ []),
  any-append (same_pair d c) contacts ((a, b) ∷ (b, a) ∷ []),
  m c d,
)

-- Two users become friends, or the statement fails as a whole.
pub insert-ContactKeys :
    (a b : ℕ) (contacts : List (ℕ × ℕ))
    → ContactKeys contacts
    → (any (same_pair a b) contacts || any (same_pair b a) contacts || a == b) ≡ false
    → ContactKeys (contacts ++ (a, b) ∷ (b, a) ∷ [])
insert-ContactKeys a b contacts v free = record {
  pairs = rw (← append_assoc contacts ((a, b) ∷ []) ((b, a) ∷ [])) (
      insert_pair-Unique b a (contacts ++ (a, b) ∷ [])
        (insert_pair-Unique a b contacts v.pairs (ground arith))
        (ground (arith, any-append (same_pair b a) contacts ((a, b) ∷ []))));
  friendships = insert-IsMutual a b contacts (ground arith) v.friendships;
}
