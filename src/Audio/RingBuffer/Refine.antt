-- ===== src/Audio/RingBuffer/Refine.antt =====
-- The ring buffer is a queue of bounded length.
use Prim.Native.Nat.{◌∣◌}
use native.Mathlib.Nat.{mod-mod_of_dvd, dvd_of_mod-eq-zero}
use led_platform.Prelude.{
  length-replicate, replicate, subst, true, Bool-cases, inl, inr, length-take, sym, List, Option,
  [], ap, arith, drop, get_or, if◌then◌else◌, length, ltb, min, none, refl, set, some, suc, take,
  u64, zero, ℕ, ◌%◌, ◌++◌, ◌+◌, ◌-◌, ◌<◌, ◌∙◌, ◌∷◌, ◌≡◌, ◌≤◌,
}
use led_platform.Audio.RingBuffer.{
  is_power_of_two, new, wrapping_add, masked, pop_exact, word, RingBuffer, push_slice, load, store,
  available,
}
use led_platform.Audio.RingBuffer.Slots.{
  reads-writes, drop-reads, length-reads, length-writes, take-reads, writes, reads,
}

-- The queue: what it takes of the samples, and a hop of a given length or nothing.
module _ {A : Type 0} (cap : ℕ) where
  abbrev pub enqueue : List A → List A → List A × ℕ
  enqueue q samples = let n = min (length samples) (cap - length q) in (q ++ take n samples, n)

  abbrev pub dequeue : List A → ℕ → List A × Option (List A)
  dequeue q n = if ltb (length q) n then (q, none) else (drop n q, some (take n q))

-- The calls of the two threads, in the order in which they take place, and their answers.
pub data Call (A : Type 0) : Type 0 where
  pushes : List A → Call A
  pops : ℕ → Call A

pub data Reply (A : Type 0) : Type 0 where
  pushed : ℕ → Reply A
  popped : Option (List A) → Reply A

module _ {A : Type 0} (silence : A) where
  unfoldable pub replies : RingBuffer A → List (Call A) → List (Reply A)
  unfolding push_slice pop_exact
  replies rb [] = []
  replies rb (pushes samples ∷ calls) =
      let (rb', n) = push_slice silence rb samples in pushed n ∷ replies rb' calls
  replies rb (pops n ∷ calls) =
      let (rb', out) = pop_exact silence rb n in popped out ∷ replies rb' calls

  unfoldable pub queue_replies : ℕ → List A → List (Call A) → List (Reply A)
  queue_replies cap q [] = []
  queue_replies cap q (pushes samples ∷ calls) =
      let (q', n) = enqueue cap q samples in pushed n ∷ queue_replies cap q' calls
  queue_replies cap q (pops n ∷ calls) =
      let (q', out) = dequeue cap q n in popped out ∷ queue_replies cap q' calls

  -- The counters are `a` apart, and the capacity divides the word.
  pub record IsValid (rb : RingBuffer A) (a : ℕ) : Type 0 where
    pub divides : suc rb.mask ∣ word
    pub sized : length rb.buf ≡ suc rb.mask
    pub proper : suc rb.mask < word
    pub bounded : a ≤ suc rb.mask
    pub reader : rb.read < word
    pub writer : rb.write ≡ u64 (rb.read + a)

  masked-u64 :
      (mask x i : ℕ) → suc mask ∣ word → masked mask (wrapping_add (u64 x) i) ≡ (x + i) % suc mask
  masked-u64 mask x i d =
      let once : wrapping_add (u64 x) i ≡ (x + i) % word = omega arith in
      ap (λ (k : ℕ). k % suc mask) once ∙ mod-mod_of_dvd (suc mask) (x + i) d

  store-writes :
      (mask x i : ℕ) (xs buf : List A)
      → suc mask ∣ word
      → store silence mask (u64 x) i xs buf ≡ writes silence (suc mask) buf (x + i) xs
  unfolding store writes
  store-writes mask x i [] buf d = refl
  store-writes mask x i (y ∷ xs) buf d =
      let next : x + suc i ≡ suc (x + i) = omega arith in
      store-writes mask x (suc i) xs _ d
      ∙ ap
          (λ (k : ℕ).
            writes silence (suc mask) (set buf (masked mask (wrapping_add (u64 x) i)) y) k xs)
          next
      ∙ ap (λ (k : ℕ). writes silence (suc mask) (set buf k y) (suc (x + i)) xs)
          (masked-u64 mask x i d)

  load-reads :
      (mask x i n : ℕ) (buf : List A)
      → suc mask ∣ word
      → load silence mask (u64 x) i n buf ≡ reads silence (suc mask) buf (x + i) n
  unfolding load reads
  load-reads mask x i zero buf d = refl
  load-reads mask x i (suc n) buf d =
      let next : x + suc i ≡ suc (x + i) = omega arith in
      rw (masked-u64 mask x i d, load-reads mask x (suc i) n buf d)
        (ap (λ (k : ℕ). get_or buf ((x + i) % suc mask) silence ∷ reads silence (suc mask) buf k n)
          next)

  -- What the buffer holds.
  abbrev contents : RingBuffer A → ℕ → List A
  contents rb a = reads silence (suc rb.mask) rb.buf rb.read a

  available-IsValid : (rb : RingBuffer A) (a : ℕ) → IsValid rb a → available silence rb ≡ a
  unfolding available
  available-IsValid rb a v = omega (arith, v.writer, v.reader, v.bounded, v.proper)

  reads-u64 :
      (mask x n : ℕ) (buf : List A)
      → suc mask ∣ word
      → reads silence (suc mask) buf (u64 x) n ≡ reads silence (suc mask) buf x n
  reads-u64 mask x n buf d =
      let at : (y : ℕ) → load silence mask (u64 y) 0 n buf ≡ reads silence (suc mask) buf y n = λ y.
        let zero_on : y + 0 ≡ y = omega arith in
        load-reads mask y 0 n buf d ∙ ap (λ (k : ℕ). reads silence (suc mask) buf k n) zero_on in
      let twice : u64 x ≡ u64 (u64 x) = omega arith in
      sym (at (u64 x)) ∙ ap (λ (k : ℕ). load silence mask k 0 n buf) (sym twice) ∙ at x

  load-take :
      (rb : RingBuffer A) (a n : ℕ)
      → IsValid rb a
      → n ≤ a
      → load silence rb.mask rb.read 0 n rb.buf ≡ take n (contents rb a)
  load-take rb a n v le =
      let low : rb.read ≡ u64 rb.read = omega (arith, v.reader) in
      let zero_on : rb.read + 0 ≡ rb.read = omega arith in
      ap (λ (k : ℕ). load silence rb.mask k 0 n rb.buf) low
      ∙ load-reads rb.mask rb.read 0 n rb.buf v.divides
      ∙ ap (λ (k : ℕ). reads silence (suc rb.mask) rb.buf k n) zero_on
      ∙ sym (take-reads silence (suc rb.mask) rb.buf rb.read n a le)

  abbrev after_push : RingBuffer A → List A → ℕ → RingBuffer A
  after_push rb samples n = record rb {
    buf = store silence rb.mask rb.write 0 (take n samples) rb.buf;
    write = wrapping_add rb.write n;
  }

  stored :
      (rb : RingBuffer A) (a : ℕ) (xs : List A)
      → IsValid rb a
      → store silence rb.mask rb.write 0 xs rb.buf
        ≡ writes silence (suc rb.mask) rb.buf (rb.read + a) xs
  stored rb a xs v =
      let zero_on : rb.read + a + 0 ≡ rb.read + a = omega arith in
      ap (λ (w : ℕ). store silence rb.mask w 0 xs rb.buf) v.writer
      ∙ store-writes rb.mask (rb.read + a) 0 xs rb.buf v.divides
      ∙ ap (λ (k : ℕ). writes silence (suc rb.mask) rb.buf k xs) zero_on

  after_push-IsValid :
      (rb : RingBuffer A) (a n : ℕ) (samples : List A)
      → IsValid rb a
      → n ≤ length samples
      → a + n ≤ suc rb.mask
      → IsValid (after_push rb samples n) (a + n)
        × (contents (after_push rb samples n) (a + n) ≡ contents rb a ++ take n samples)
  after_push-IsValid rb a n samples v few fits =
      let xs = take n samples in
      let l : length xs ≡ n = omega (arith, length-take n samples) in
      let e = stored rb a xs v in
      (
        record {
          divides = v.divides;
          sized =
              ap length e ∙ length-writes silence (suc rb.mask) rb.buf (rb.read + a) xs ∙ v.sized;
          proper = v.proper;
          bounded = fits;
          reader = v.reader;
          writer = omega (arith, v.writer);
        },
        ap (λ (buf : List A). reads silence (suc rb.mask) buf rb.read (a + n)) e
            ∙ ap
                (λ (k : ℕ).
                  reads silence (suc rb.mask) (writes silence (suc rb.mask) rb.buf (rb.read + a) xs)
                    rb.read (a + k))
                (sym l)
            ∙ reads-writes silence (suc rb.mask) rb.buf rb.read a xs v.sized (omega (arith, l)),
      )

  abbrev after_pop : RingBuffer A → ℕ → RingBuffer A
  after_pop rb n = record rb { read = wrapping_add rb.read n }

  after_pop-IsValid :
      (rb : RingBuffer A) (a n : ℕ)
      → IsValid rb a
      → n ≤ a
      → IsValid (after_pop rb n) (a - n)
        × (contents (after_pop rb n) (a - n) ≡ drop n (contents rb a))
  after_pop-IsValid rb a n v le = (
    record {
      divides = v.divides;
      sized = v.sized;
      proper = v.proper;
      bounded = omega (arith, v.bounded);
      reader = omega arith;
      writer = omega (arith, v.writer);
    },
    reads-u64 rb.mask (rb.read + n) (a - n) rb.buf v.divides
        ∙ sym (drop-reads silence (suc rb.mask) rb.buf rb.read n a le),
  )

  replies-queue :
      (rb : RingBuffer A) (a : ℕ) (calls : List (Call A))
      → IsValid rb a
      → replies rb calls ≡ queue_replies (suc rb.mask) (contents rb a) calls
  unfolding replies queue_replies
  replies-queue rb a [] v = refl
  replies-queue rb a (pushes samples ∷ calls) v =
      let held = length-reads silence (suc rb.mask) rb.buf rb.read a in
      let n = min (length samples) (suc rb.mask - a) in
      let (v', e) = after_push-IsValid rb a n samples v (omega arith) (omega (arith, v.bounded)) in
      rw (available-IsValid rb a v, v.sized, held)
        (ap (◌∷◌ (pushed n)) (
          replies-queue (after_push rb samples n) (a + n) calls v'
          ∙ ap (λ (q : List A). queue_replies (suc rb.mask) q calls) e))
  replies-queue rb a (pops n ∷ calls) v =
      let held = length-reads silence (suc rb.mask) rb.buf rb.read a in
      elim (Bool-cases (ltb a n)) [
        | inl short ↦
            rw (available-IsValid rb a v, held, short)
              (ap (◌∷◌ (popped none)) (replies-queue rb a calls v))
        | inr enough ↦
            let le : n ≤ a = ground arith in
            let (v', e) = after_pop-IsValid rb a n v le in
            rw (available-IsValid rb a v, held, enough, load-take rb a n v le)
              (ap (◌∷◌ (popped (some (take n (contents rb a))))) (
                replies-queue (after_pop rb n) (a - n) calls v'
                ∙ ap (λ (q : List A). queue_replies (suc rb.mask) q calls) e))
      ]

  abbrev empty : ℕ → RingBuffer A
  empty cap = record { buf = replicate cap silence; mask = cap - 1; write = 0; read = 0 }

  empty-IsValid : (cap : ℕ) → is_power_of_two cap ≡ true → IsValid (empty cap) 0
  empty-IsValid cap p =
      let whole : word % cap ≡ 0 = ground (arith, p) in
      let back : cap ≡ suc (cap - 1) = ground (arith, p) in
      let small : cap < word = ground (arith, p) in
      record {
        divides = subst (λ (k : ℕ). k ∣ word) back (dvd_of_mod-eq-zero cap whole);
        sized = length-replicate cap silence ∙ back;
        proper = omega (arith, back, small);
        bounded = omega arith;
        reader = omega arith;
        writer = refl;
      }

  new-IsValid :
      (cap : ℕ) (rb : RingBuffer A) → new silence cap ≡ some rb → IsValid rb 0 × (suc rb.mask ≡ cap)
  unfolding new
  new-IsValid cap rb e = elim (Bool-cases (is_power_of_two cap)) [
    | inr n ↦ absurd (ground (arith, rw n at e))
    | inl p ↦
        let q : empty cap ≡ rb = ground (arith, rw p at e) in
        let back : suc (cap - 1) ≡ cap = ground (arith, p) in
        subst (λ (r : RingBuffer A). IsValid r 0 × (suc r.mask ≡ cap)) q (empty-IsValid cap p, back)
  ]

  -- Any sequence of pushes and pops on a new ring buffer, of a capacity that `new` accepts, gets
  -- the same answers as on a queue of at most that many samples, which takes what fits of a push
  -- and gives a whole hop or nothing.
  pub replies-new :
      (cap : ℕ) (rb : RingBuffer A) (calls : List (Call A))
      → new silence cap ≡ some rb
      → replies rb calls ≡ queue_replies cap [] calls
  replies-new cap rb calls e =
      let (v, c) = new-IsValid cap rb e in replies-queue rb 0 calls v ∙ rw c (unfold reads in refl)
