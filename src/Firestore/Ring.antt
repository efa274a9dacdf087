-- ===== src/Firestore/Ring.antt =====
-- internal/firestore/store.go: the ring buffer of the changes, as the list of what it holds.
use blitzy_localgcp.Base.{
  ℕ, zero, suc, ◌+◌, ◌-◌, ◌%◌, ◌≤◌, ◌<◌, ◌≡◌, ◌≢◌, refl, sym, ap, ◌∙◌, List, [], ◌∷◌, ◌++◌, length,
  length-append, drop, drop-append, get_elem?, Option, some, map, arith,
}
use native.Mathlib.Nat.{mod-add-mod, mod-eq_of_lt, mod-eq-sub-mod}
use native.Mathlib.Decide.{dec_lt}
use blitzy_localgcp.Firestore.Watch.{write_at, slot, window}

module _ {ℓ} {A : Type ℓ} where
  pub length-write_at : (i : ℕ) (v : A) (xs : List A) → length (write_at i v xs) ≡ length xs
  length-write_at i v [] = refl
  length-write_at zero v (x ∷ xs) = refl
  length-write_at (suc i) v (x ∷ xs) = ap suc (length-write_at i v xs)

  get_elem?-write_at :
      (i : ℕ) (v : A) (xs : List A) → i < length xs → get_elem? (write_at i v xs) i ≡ some v
  get_elem?-write_at i v [] h = absurd (omega (arith, h))
  get_elem?-write_at zero v (x ∷ xs) h = refl
  get_elem?-write_at (suc i) v (x ∷ xs) h = get_elem?-write_at i v xs (omega arith)

  get_elem?-write_other :
      (i j : ℕ) (v : A) (xs : List A) → i ≢ j → get_elem? (write_at i v xs) j ≡ get_elem? xs j
  get_elem?-write_other i j v [] h = refl
  get_elem?-write_other zero zero v (x ∷ xs) h = absurd (h refl)
  get_elem?-write_other zero (suc j) v (x ∷ xs) h = refl
  get_elem?-write_other (suc i) zero v (x ∷ xs) h = refl
  get_elem?-write_other (suc i) (suc j) v (x ∷ xs) h =
      get_elem?-write_other i j v xs (λ e. h (ap suc e))

-- Going round fewer than `size` places does not come back.
round-ne : (size h k : ℕ) → h < size → suc k < size → (h + suc k) % size ≢ h
round-ne size h k hh hk = elim (dec_lt (h + suc k) size) [
  | yes p ↦ omega (arith, mod-eq_of_lt p)
  | no p ↦ omega (
    arith,
    mod-eq-sub-mod {n = h + suc k} {m = size} (omega arith),
    mod-eq_of_lt {n = h + suc k - size} {m = size} (omega arith),
  )
]

round-next : (size h n : ℕ) → (h + suc n) % size ≡ ((h + 1) % size + n) % size
round-next size h n = rw mod-add-mod (ap (λ k. k % size) (omega arith))

round-all : (size h : ℕ) → h < size → (h + size) % size ≡ h
round-all size h hh = omega (
  arith,
  mod-eq-sub-mod {n = h + size} {m = size} (omega arith),
  mod-eq_of_lt {n = h + size - size} {m = size} (omega arith),
)

pub round-lt : (size h : ℕ) → 0 < size → h % size < size
round-lt size h hc = omega arith

module _ {ℓ} {A : Type ℓ} where
  -- A write just behind the window makes it longer by one.
  pub window-write_at :
      (size h n i : ℕ) (v : A) (log : List (Option A))
      → length log ≡ size
      → h < size
      → n < size
      → i ≡ (h + n) % size
      → window size (write_at i (some v) log) h (suc n) ≡ window size log h n ++ some v ∷ []
  unfolding window
  window-write_at size h zero i v log hs hh hn e =
      let here : (h + 0) % size ≡ h = ap (λ k. k % size) (omega arith) ∙ mod-eq_of_lt hh in
      rw (e, here, get_elem?-write_at h (some v) log (omega (arith, hs, hh))) refl
  window-write_at size h (suc n) i v log hs hh hn e =
      rw (get_elem?-write_other i h (some v) log (rw e (round-ne size h n hh hn))) (
        ap (λ l. slot (get_elem? log h) ∷ l)
          (window-write_at size ((h + 1) % size) n i v log hs (omega arith) (omega arith)
            (e ∙ round-next size h n)))

  -- A write into a full ring takes the place of its first.
  pub window-full :
      (size h k i : ℕ) (v : A) (log : List (Option A))
      → length log ≡ size
      → h < size
      → size ≡ suc k
      → i ≡ (h + size) % size
      → window size (write_at i (some v) log) ((h + 1) % size) (suc k)
        ≡ drop 1 (window size log h (suc k)) ++ some v ∷ []
  unfolding window
  window-full size h k i v log hs hh e ei =
      window-write_at size ((h + 1) % size) k i v log hs (round-lt size (h + 1) (omega (arith, hh)))
        (omega (arith, e)) (ei ∙ ap (λ n. (h + n) % size) e ∙ round-next size h k)

-- The last `n` of a list.
unfoldable pub last_n {ℓ} : {A : Type ℓ} → ℕ → List A → List A
last_n n xs = drop (length xs - n) xs

module _ {ℓ} {A : Type ℓ} where
  pub drop-nil : (n : ℕ) → drop {A = A} n [] ≡ []
  drop-nil zero = refl
  drop-nil (suc n) = refl

  pub drop-drop : (n m : ℕ) (xs : List A) → drop n (drop m xs) ≡ drop (m + n) xs
  drop-drop n zero xs = ap (λ k. drop k xs) (omega arith)
  drop-drop n (suc m) [] = drop-nil n ∙ sym (drop-nil (suc m + n))
  drop-drop n (suc m) (x ∷ xs) = drop-drop n m xs ∙ ap (λ k. drop k (x ∷ xs)) next
    where
      next : suc (m + n) ≡ suc m + n
      next = omega arith

  -- A list grows by one at the end, and so do its last elements until there are `n`.
  pub last_n-room :
      (n : ℕ) (xs : List A) (x : A)
      → length xs < n
      → last_n n (xs ++ x ∷ []) ≡ last_n n xs ++ x ∷ []
  unfolding last_n
  last_n-room n xs x h =
      let none_more : length (xs ++ x ∷ []) - n ≡ 0 = omega (arith, length-append xs (x ∷ [])) in
      let none_now : length xs - n ≡ 0 = omega arith in rw (none_more, none_now) refl

  pub last_n-full :
      (n : ℕ) (xs : List A) (x : A)
      → 0 < n
      → n ≤ length xs
      → last_n n (xs ++ x ∷ []) ≡ drop 1 (last_n n xs) ++ x ∷ []
  unfolding last_n
  last_n-full n xs x hn h =
      let more : length (xs ++ x ∷ []) - n ≡ length xs - n + 1 =
        omega (arith, length-append xs (x ∷ [])) in
      rw (more, drop-drop 1 (length xs - n) xs)
        (drop-append (length xs - n + 1) xs (x ∷ []) (omega arith))

  pub map-drop {κ} :
      {B : Type κ} (f : A → B) (n : ℕ) (xs : List A) → map f (drop n xs) ≡ drop n (map f xs)
  map-drop f zero xs = refl
  map-drop f (suc n) [] = refl
  map-drop f (suc n) (x ∷ xs) = map-drop f n xs

  pub map-snoc {κ} :
      {B : Type κ} (f : A → B) (xs : List A) (x : A) → map f (xs ++ x ∷ []) ≡ map f xs ++ f x ∷ []
  map-snoc f [] x = refl
  map-snoc f (y ∷ xs) x = ap (λ l. f y ∷ l) (map-snoc f xs x)
