-- ===== src/ClientApp/Removal.antt =====
-- app_remove_request of src/client/client_context.c, as an operation on the requests it leaves.
use mo_t.Base.{
  ℕ, zero, suc, ◌+◌, ◌-◌, ◌≤◌, ◌<◌, ◌≡◌, refl, sym, ap, ◌∙◌, true, false, List, [], ◌∷◌, ◌++◌,
  length, length-take, take_add, drop-append, take, drop, ltb, Yields, arith,
}
use mo_t.ClientApp.State.{AppState, lock, shift_left, shift_from, app_remove_request}

length-shift_left {ℓ} : {A : Type ℓ} (n : ℕ) (xs : List A) → length (shift_left n xs) ≡ length xs
unfolding shift_left
length-shift_left zero xs = refl
length-shift_left (suc n) [] = refl
length-shift_left (suc n) (x ∷ []) = refl
length-shift_left (suc n) (x ∷ y ∷ xs) = ap suc (length-shift_left n (y ∷ xs))

pub length-shift_from {ℓ} :
    {A : Type ℓ} (i n : ℕ) (xs : List A) → length (shift_from i n xs) ≡ length xs
unfolding shift_from
length-shift_from zero n xs = length-shift_left n xs
length-shift_from (suc i) n [] = refl
length-shift_from (suc i) n (x ∷ xs) = ap suc (length-shift_from i n xs)

take-shift_left {ℓ} :
    {A : Type ℓ} (n : ℕ) (xs : List A)
    → n < length xs
    → take n (shift_left n xs) ≡ take n (drop 1 xs)
unfolding shift_left
take-shift_left zero xs h = refl
take-shift_left (suc n) [] h = absurd (omega arith)
take-shift_left (suc n) (x ∷ []) h = absurd (omega arith)
take-shift_left (suc n) (x ∷ y ∷ xs) h = ap (◌∷◌ y) (take-shift_left n (y ∷ xs) (omega arith))

take-shift_from {ℓ} :
    {A : Type ℓ} (i n : ℕ) (xs : List A)
    → i + n < length xs
    → take (i + n) (shift_from i n xs) ≡ take i xs ++ take n (drop (suc i) xs)
unfolding shift_from
take-shift_from zero n xs h =
    ap (λ (k : ℕ). take k (shift_left n xs)) (omega arith) ∙ take-shift_left n xs (omega arith)
take-shift_from (suc i) n [] h = absurd (omega arith)
take-shift_from (suc i) n (x ∷ xs) h =
    let e : suc i + n ≡ suc (i + n) = omega arith in
    ap (λ (k : ℕ). take k (x ∷ shift_from i n xs)) e
    ∙ ap (◌∷◌ x) (take-shift_from i n xs (omega arith))

drop-take {ℓ} :
    {A : Type ℓ} (m n k : ℕ) (xs : List A)
    → k ≡ m + n
    → m ≤ length xs
    → drop m (take k xs) ≡ take n (drop m xs)
drop-take m n k xs e h =
    ap (λ (j : ℕ). drop m (take j xs)) e
    ∙ ap (drop m) (sym (take_add m n xs))
    ∙ drop-append (take m xs) (take n (drop m xs)) m (omega (arith, length-take m xs))

-- Where the lock is free and the index is that of a counted request, app_remove_request counts one
-- request less, takes this request out of those that are counted, and keeps the others in their
-- order and the array at its size.
pub app_remove_request_lem :
    (index : ℕ) (a : AppState)
    → a.locked ≡ false
    → index < a.requests_count
    → a.requests_count ≤ length a.requests
    → Yields
        (λ a'.
          (a'.requests_count + 1 ≡ a.requests_count)
          × (length a'.requests ≡ length a.requests)
          × (take a'.requests_count a'.requests
              ≡ take index a.requests ++ drop (suc index) (take a.requests_count a.requests)))
        (app_remove_request index a)
unfolding app_remove_request lock
app_remove_request_lem index a free listed fits =
    let n = a.requests_count - 1 - index in
    let here : ltb index a.requests_count ≡ true = ground arith in
    let same : a.requests_count - 1 ≡ index + n = omega arith in
    rw (free, here, app_remove_request, lock)
      (
        _,
        refl,
        (
          omega arith,
          length-shift_from index n a.requests,
          ap (λ (k : ℕ). take k (shift_from index n a.requests)) same
              ∙ take-shift_from index n a.requests (omega arith)
              ∙ ap (◌++◌ (take index a.requests)) (
                  sym (
                    drop-take (suc index) n a.requests_count a.requests (omega arith)
                      (omega arith))),
        ),
      )
