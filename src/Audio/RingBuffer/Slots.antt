-- ===== src/Audio/RingBuffer/Slots.antt =====
-- The slots of the buffer, by counters that do not wrap.
use mathlib.Core.List.{append-nil, append_assoc}
use led_platform.Prelude.{
  List, [], ap, arith, drop, get_or, length, length-set, refl, set, subst, suc, sym, take, zero, ℕ,
  ◌%◌, ◌++◌, ◌+◌, ◌-◌, ◌<◌, ◌∙◌, ◌∷◌, ◌≡◌, ◌≢◌, ◌≤◌,
}
use led_platform.Audio.RingBuffer.{}

apart : (p t m : ℕ) → t < m → 0 < t → (p + t) % m ≢ p % m
apart p t m lt pos e = grind arith

module _ {A : Type 0} (silence : A) (m : ℕ) where
  unfoldable pub reads : List A → ℕ → ℕ → List A
  reads buf p zero = []
  reads buf p (suc n) = get_or buf (p % m) silence ∷ reads buf (suc p) n

  unfoldable pub writes : List A → ℕ → List A → List A
  writes buf p [] = buf
  writes buf p (x ∷ xs) = writes (set buf (p % m) x) (suc p) xs

  pub length-writes : (buf : List A) (p : ℕ) (xs : List A) → length (writes buf p xs) ≡ length buf
  unfolding writes
  length-writes buf p [] = refl
  length-writes buf p (x ∷ xs) =
      length-writes (set buf (p % m) x) (suc p) xs ∙ length-set buf (p % m) x

  pub length-reads : (buf : List A) (p n : ℕ) → length (reads buf p n) ≡ n
  unfolding reads
  length-reads buf p zero = refl
  length-reads buf p (suc n) = ap suc (length-reads buf (suc p) n)

  get_or-set_self :
      (xs : List A) (i : ℕ) (v : A) → i < length xs → get_or (set xs i v) i silence ≡ v
  get_or-set_self [] i v h = absurd (omega arith)
  get_or-set_self (x ∷ xs) zero v h = refl
  get_or-set_self (x ∷ xs) (suc i) v h = get_or-set_self xs i v (omega arith)

  get_or-set_ne :
      (xs : List A) (i j : ℕ) (v : A) → i ≢ j → get_or (set xs i v) j silence ≡ get_or xs j silence
  get_or-set_ne [] i j v h = refl
  get_or-set_ne (x ∷ xs) zero zero v h = absurd (h refl)
  get_or-set_ne (x ∷ xs) zero (suc j) v h = refl
  get_or-set_ne (x ∷ xs) (suc i) zero v h = refl
  get_or-set_ne (x ∷ xs) (suc i) (suc j) v h = get_or-set_ne xs i j v (λ e. h (ap suc e))

  reads-set :
      (buf : List A) (p n q : ℕ) (x : A)
      → p + n ≤ q
      → q < p + m
      → reads (set buf (q % m) x) p n ≡ reads buf p n
  unfolding reads
  reads-set buf p zero q x a b = refl
  reads-set buf p (suc n) q x a b =
      let other : q % m ≢ p % m =
        subst (λ (k : ℕ). k % m ≢ p % m) (omega arith)
          (apart p (q - p) m (omega arith) (omega arith)) in
      rw
        (
          get_or-set_ne buf (q % m) (p % m) x other,
          reads-set buf (suc p) n q x (omega arith) (omega arith),
        )
        refl

  reads-suc :
      (buf : List A) (p n : ℕ)
      → reads buf p (suc n) ≡ reads buf p n ++ (get_or buf ((p + n) % m) silence ∷ [])
  unfolding reads
  reads-suc buf p zero = ap (λ (k : ℕ). get_or buf (k % m) silence ∷ []) (omega arith)
  reads-suc buf p (suc n) = ap (◌∷◌ (get_or buf (p % m) silence)) (
      reads-suc buf (suc p) n
      ∙ ap (λ (k : ℕ). reads buf (suc p) n ++ (get_or buf (k % m) silence ∷ [])) (omega arith))

  -- What is written behind the samples is read after them.
  pub reads-writes :
      (buf : List A) (p a : ℕ) (xs : List A)
      → length buf ≡ m
      → a + length xs ≤ m
      → reads (writes buf (p + a) xs) p (a + length xs) ≡ reads buf p a ++ xs
  unfolding writes
  reads-writes buf p a [] l le =
      ap (λ (n : ℕ). reads buf p n) (omega arith) ∙ sym (append-nil (reads buf p a))
  reads-writes buf p a (x ∷ xs) l le =
      let buf' = set buf ((p + a) % m) x in
      let at : get_or buf' ((p + a) % m) silence ≡ x =
        get_or-set_self buf ((p + a) % m) x (omega (arith, l)) in
      let next : reads buf' p (suc a) ≡ reads buf p a ++ (x ∷ []) =
        reads-suc buf' p a
        ∙ rw (at, reads-set buf p a (p + a) x (omega arith) (omega arith)) refl in
      ap (λ (k : ℕ). reads (writes buf' (suc (p + a)) xs) p k) (omega arith)
      ∙ ap (λ (k : ℕ). reads (writes buf' k xs) p (suc a + length xs)) (omega arith)
      ∙ reads-writes buf' p (suc a) xs (length-set buf ((p + a) % m) x ∙ l) (omega arith)
      ∙ ap (λ (ys : List A). ys ++ xs) next
      ∙ append_assoc (reads buf p a) (x ∷ []) xs

  pub take-reads : (buf : List A) (p k n : ℕ) → k ≤ n → take k (reads buf p n) ≡ reads buf p k
  unfolding reads
  take-reads buf p zero n le = refl
  take-reads buf p (suc k) zero le = absurd (omega arith)
  take-reads buf p (suc k) (suc n) le =
      ap (◌∷◌ (get_or buf (p % m) silence)) (take-reads buf (suc p) k n (omega arith))

  pub drop-reads :
      (buf : List A) (p k n : ℕ) → k ≤ n → drop k (reads buf p n) ≡ reads buf (p + k) (n - k)
  unfolding reads
  drop-reads buf p zero n le =
      let same : p ≡ p + 0 = omega arith in
      let all : n ≡ n - 0 = omega arith in
      ap (λ (q : ℕ). reads buf q n) same ∙ ap (λ (k : ℕ). reads buf (p + 0) k) all
  drop-reads buf p (suc k) zero le = absurd (omega arith)
  drop-reads buf p (suc k) (suc n) le =
      let shifted : suc p + k ≡ p + suc k = omega arith in
      let left : n - k ≡ suc n - suc k = omega arith in
      drop-reads buf (suc p) k n (omega arith)
      ∙ ap (λ (q : ℕ). reads buf q (n - k)) shifted
      ∙ ap (λ (j : ℕ). reads buf (p + suc k) j) left
