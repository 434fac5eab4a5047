-- ===== src/Daemon/Source/Cursor.antt =====
-- What the cursor shows does not depend on where it stood.
use led_platform.Prelude.{
  ap, subst, sym, Result, Bool-cases, List, Option, [], arith, false, if◌then◌else◌, inl, inr,
  length, ltb, none, ok, refl, some, suc, zero, ℕ, ◌<◌, ◌∙◌, ◌∷◌, ◌≡◌, ◌≤◌,
}
use led_platform.Recorder.Format.{ShowRecord}
use led_platform.Recorder.Format.Reader.{ShowReader, next_frame}
use led_platform.Recorder.Format.Total.{next_frame_takes}
use led_platform.Daemon.Source.{
  ReadError, frame_at, after_rewind, open_source, reopen, reader_new, pull, FrameSource, advance,
}

-- The reader has these frames left, and then the end of the file.
abbrev pub Yields : ShowReader → List ShowRecord → Type 0
Yields r [] = next_frame r ≡ ok none
Yields r (x ∷ xs) = (r' : ShowReader) × (next_frame r ≡ ok (some (x, r'))) × Yields r' xs

abbrev pub Ascending : ShowRecord → List ShowRecord → Type 0
Ascending c [] = Unit {0}
Ascending c (n ∷ rest) = (c.timestamp_ms ≤ n.timestamp_ms) × Ascending n rest

-- The last frame before the first that is later than the position; the first frame where there is none.
unfoldable pub at_position : ShowRecord → List ShowRecord → ℕ → ShowRecord
at_position c [] position_ms = c
at_position c (n ∷ rest) position_ms =
    let later = at_position n rest position_ms in
    if ltb position_ms n.timestamp_ms then c else later

abbrev head : List ShowRecord → Option ShowRecord
head [] = none
head (x ∷ xs) = some x

-- The reader behind a cursor whose frames to come are these.
abbrev Behind : ShowReader → List ShowRecord → Type 0
Behind r [] = next_frame r ≡ ok none
Behind r (x ∷ xs) = Yields r xs

-- A cursor in the file of `first` and `rest`, at the frame `c` with `later` to come.
pub record IsAt (file : List ℕ) (first : ShowRecord) (rest : List ShowRecord) (s : FrameSource)
    : Type 0 where
  pub of_file : s.file ≡ file
  pub c : ShowRecord
  pub later : List ShowRecord
  pub holds : s.current ≡ some c
  pub peeks : s.next ≡ head later
  pub behind : Behind s.reader later
  pub ascending : Ascending c later
  pub same :
      (position_ms : ℕ)
      → c.timestamp_ms ≤ position_ms
      → at_position first rest position_ms ≡ at_position c later position_ms

Yields-length : (r : ShowReader) (xs : List ShowRecord) → Yields r xs → length xs ≤ length r.inner
Yields-length r [] y = omega arith
Yields-length r (x ∷ xs) (r', e, y) =
    omega (arith, next_frame_takes r r' x e, Yields-length r' xs y)

Behind-length :
    (r : ShowReader) (xs : List ShowRecord) → Behind r xs → length xs ≤ suc (length r.inner)
Behind-length r [] b = omega arith
Behind-length r (x ∷ xs) b = omega (arith, Yields-length r xs b)

pull-Yields :
    (r : ShowReader) (xs : List ShowRecord)
    → Yields r xs
    → (r' : ShowReader) × (pull r ≡ ok (head xs, r')) × Behind r' xs
unfolding pull
pull-Yields r [] y = (r, rw y refl, y)
pull-Yields r (x ∷ xs) (r', e, y) = (r', rw e refl, y)

module _ (file : List ℕ) (first : ShowRecord) (rest : List ShowRecord) where
  abbrev cursor : ShowReader → Option ShowRecord → Option ShowRecord → FrameSource
  cursor r current next = record { file = file; reader = r; current = current; next = next }

  -- The loop, on a cursor given by its fields.
  advance-IsAt :
      (fuel position_ms : ℕ) (r : ShowReader) (c : ShowRecord) (later : List ShowRecord)
      → length later < fuel
      → Behind r later
      → Ascending c later
      → ((p : ℕ) → c.timestamp_ms ≤ p → at_position first rest p ≡ at_position c later p)
      → (s : FrameSource) × (advance fuel position_ms (cursor r (some c) (head later))
          ≡ some (s, none))
        × (s.current ≡ some (at_position c later position_ms))
        × IsAt file first rest s
  unfolding advance at_position
  advance-IsAt zero position_ms r c later lt b a same = absurd (omega arith)
  advance-IsAt (suc fuel) position_ms r c [] lt b a same = (
    cursor r (some c) none,
    refl,
    refl,
    record {
      of_file = refl;
      c = c;
      later = [];
      holds = refl;
      peeks = refl;
      behind = b;
      ascending = tt;
      same = same;
    },
  )
  advance-IsAt (suc fuel) position_ms r c (n ∷ later) lt b (le, a) same =
      elim (Bool-cases (ltb position_ms n.timestamp_ms)) [
        | inl y ↦ (
          cursor r (some c) (some n),
          rw (y, advance) refl,
          rw y refl,
          record {
            of_file = refl;
            c = c;
            later = n ∷ later;
            holds = refl;
            peeks = refl;
            behind = b;
            ascending = (le, a);
            same = same;
          },
        )
        | inr late ↦
            let (r', e, b') = pull-Yields r later b in
            let same' : (p : ℕ)
                → n.timestamp_ms ≤ p
                → at_position first rest p ≡ at_position n later p =
              λ p q.
                let passed : ltb p n.timestamp_ms ≡ false = ground arith in
                same p (omega arith) ∙ rw passed refl in
            let (s, f, g, h) = advance-IsAt fuel position_ms r' n later (omega arith) b' a same' in
            (s, rw (late, e, advance) f, rw late g, h)
      ]

module _ (file : List ℕ) (first : ShowRecord) (rest : List ShowRecord) (start : ShowReader)
    (opens : reader_new file ≡ ok start) (yields : Yields start (first ∷ rest))
    (sorted : Ascending first rest) where
  -- The two frames that opening reads.
  two_pulled :
      (r₁ : ShowReader) × (r₂ : ShowReader) × (pull start ≡ ok (some first, r₁))
      × (pull r₁ ≡ ok (head rest, r₂))
      × Behind r₂ rest
  two_pulled =
      let (r₁, e₁, b₁) = pull-Yields start (first ∷ rest) yields in
      let (r₂, e₂, b₂) = pull-Yields r₁ rest b₁ in (r₁, r₂, e₁, e₂, b₂)

  fresh-IsAt :
      (r : ShowReader)
      → Behind r rest
      → IsAt file first rest (cursor file first rest r (some first) (head rest))
  fresh-IsAt r b = record {
    of_file = refl;
    c = first;
    later = rest;
    holds = refl;
    peeks = refl;
    behind = b;
    ascending = sorted;
    same = λ p le. refl;
  }

  open_source-IsAt : (s : FrameSource) × (open_source file ≡ ok s) × IsAt file first rest s
  unfolding open_source
  open_source-IsAt =
      let (r₁, r₂, e₁, e₂, b) = two_pulled in
      (
        cursor file first rest r₂ (some first) (head rest),
        rw opens (rw e₁ (rw e₂ refl)),
        fresh-IsAt r₂ b,
      )

  -- What `frame_at` comes to, and that the cursor stays in the file.
  abbrev Shows : ℕ → Option (FrameSource × Result ReadError (Option ShowRecord)) → Type 0
  Shows position_ms out =
      (s : FrameSource) × (out ≡ some (s, ok (some (at_position first rest position_ms))))
      × IsAt file first rest s

  advanced :
      (position_ms : ℕ) (r : ShowReader) (c : ShowRecord) (later : List ShowRecord)
      → Behind r later
      → Ascending c later
      → ((p : ℕ) → c.timestamp_ms ≤ p → at_position first rest p ≡ at_position c later p)
      → at_position first rest position_ms ≡ at_position c later position_ms
      → Shows position_ms
          (after_rewind position_ms (cursor file first rest r (some c) (head later), none))
  advanced position_ms r c later b a same here =
      let (s, e, g, h) =
        advance-IsAt file first rest (suc (suc (length r.inner))) position_ms r c later
          (omega (arith, Behind-length r later b)) b a same in
      (s, rw e (rw (g, here) refl), h)

  reopen-fresh :
      (r : ShowReader) (current next : Option ShowRecord)
      → (r₂ : ShowReader) × (reopen (cursor file first rest r current next)
          ≡ (cursor file first rest r₂ (some first) (head rest), none))
        × Behind r₂ rest
  unfolding reopen
  reopen-fresh r current next =
      let (r₁, r₂, e₁, e₂, b) = two_pulled in (r₂, rw opens (rw e₁ (rw e₂ refl)), b)

  frame_at-cursor :
      (position_ms : ℕ) (r : ShowReader) (c : ShowRecord) (later : List ShowRecord)
      → Behind r later
      → Ascending c later
      → ((p : ℕ) → c.timestamp_ms ≤ p → at_position first rest p ≡ at_position c later p)
      → Shows position_ms (frame_at (cursor file first rest r (some c) (head later)) position_ms)
  unfolding frame_at
  frame_at-cursor position_ms r c later b a same =
      elim (Bool-cases (ltb position_ms c.timestamp_ms)) [
        | inl y ↦
            let (r₂, e, b₂) = reopen-fresh r (some c) (head later) in
            rw (y, frame_at)
              (rw e (advanced position_ms r₂ first rest b₂ sorted (λ p le. refl) refl))
        | inr n ↦
            rw (n, frame_at)
              (advanced position_ms r c later b a same (same position_ms (ground arith)))
      ]

  frame_at-IsAt :
      (s : FrameSource) (position_ms : ℕ)
      → IsAt file first rest s
      → Shows position_ms (frame_at s position_ms)
  frame_at-IsAt s position_ms v =
      let shape : s ≡ cursor file first rest s.reader (some v.c) (head v.later) =
        ap
          (λ (f : List ℕ). record {
            file = f;
            reader = s.reader;
            current = s.current;
            next = s.next;
          })
          v.of_file
        ∙ ap (λ (o : Option ShowRecord). cursor file first rest s.reader o s.next) v.holds
        ∙ ap (λ (o : Option ShowRecord). cursor file first rest s.reader (some v.c) o) v.peeks in
      subst (λ (x : FrameSource). Shows position_ms (frame_at x position_ms)) (sym shape)
        (frame_at-cursor position_ms s.reader v.c v.later v.behind v.ascending v.same)

  -- Every look-up of a run shows what its own position has.
  abbrev pub AllShow : FrameSource → List ℕ → Type 0
  AllShow s [] = Unit {0}
  AllShow s (position_ms ∷ positions) =
      (s' : FrameSource) × (frame_at s position_ms
        ≡ some (s', ok (some (at_position first rest position_ms))))
      × AllShow s' positions

  frames-AllShow :
      (s : FrameSource) (positions : List ℕ) → IsAt file first rest s → AllShow s positions
  frames-AllShow s [] v = tt
  frames-AllShow s (position_ms ∷ positions) v =
      let (s', e, v') = frame_at-IsAt s position_ms v in (s', e, frames-AllShow s' positions v')

  -- If a file opens and its reader yields at least one frame and then its end, with timestamps
  -- that do not fall, then the source opens, and every look-up of every run, forwards or
  -- backwards, succeeds and shows the last frame before the first that is later than its own
  -- position, or the first frame where that one is later.
  pub open_source-AllShow :
      (positions : List ℕ) → (s : FrameSource) × (open_source file ≡ ok s) × AllShow s positions
  open_source-AllShow positions =
      let (s, e, v) = open_source-IsAt in (s, e, frames-AllShow s positions v)
