-- ===== src/Player/Stream/Yields.antt =====
-- What a reader of a recorded show yields, frame by frame.
use led_platform.Prelude.{
  Result-cases, arith, inl, inr, ◌<◌, ◌∙◌, ◌≡◌, List, Option, Result, [], err, length, none, ok,
  some, suc, zero, ℕ, ◌∷◌, ap, refl, sym, subst,
}
use led_platform.Recorder.Format.{ShowRecord}
use led_platform.Recorder.Format.Reader.{
  ShowReader, next_frame, collect_all, collect_from, push_record, ReadError,
}
use led_platform.Recorder.Format.Total.{next_frame_takes}

-- The frames of a reader in their order, and then its end or its error.
pub data Yields : ShowReader → List ShowRecord → Option ReadError → Type 0 where
  ends : {r : ShowReader} → next_frame r ≡ ok none → Yields r [] none
  fails : {r : ShowReader} {e : ReadError} → next_frame r ≡ err e → Yields r [] (some e)
  yields :
      {r : ShowReader} {rec : ShowRecord} {rs : List ShowRecord} {ending : Option ReadError}
      (r' : ShowReader)
      → next_frame r ≡ ok (some (rec, r'))
      → Yields r' rs ending
      → Yields r (rec ∷ rs) ending

-- All the frames, or the error.
abbrev pub collected : List ShowRecord → Option ReadError → Result ReadError (List ShowRecord)
collected rs none = ok rs
collected rs (some e) = err e

reader_from-Yields :
    (fuel : ℕ) (r : ShowReader)
    → length r.inner < fuel
    → (rs : List ShowRecord) × (ending : Option ReadError) × Yields r rs ending
reader_from-Yields zero r lt = absurd (omega arith)
reader_from-Yields (suc fuel) r lt = elim (Result-cases (next_frame r)) [
  | inr (e, q) ↦ ([], some e, fails q)
  | inl (none, q) ↦ ([], none, ends q)
  | inl (some (rec, r'), q) ↦
      let (rs, ending, y) =
        reader_from-Yields fuel r' (omega (arith, next_frame_takes r r' rec q)) in
      (rec ∷ rs, ending, yields r' q y)
]

-- Every reader ends or fails.
pub reader-Yields :
    (r : ShowReader) → (rs : List ShowRecord) × (ending : Option ReadError) × Yields r rs ending
reader-Yields r = reader_from-Yields (suc (length r.inner)) r (omega arith)

push-collected :
    (rec : ShowRecord) (rs : List ShowRecord) (ending : Option ReadError)
    → push_record rec (some (collected rs ending)) ≡ some (collected (rec ∷ rs) ending)
push-collected rec rs none = refl
push-collected rec rs (some e) = refl

collect_from-Yields :
    (fuel : ℕ) (r : ShowReader) (rs : List ShowRecord) (ending : Option ReadError)
    → length r.inner < fuel
    → Yields r rs ending
    → collect_from fuel r ≡ some (collected rs ending)
unfolding collect_from
collect_from-Yields zero r rs ending lt y = absurd (omega arith)
collect_from-Yields (suc fuel) r [] none lt (ends q) = rw (q, collect_from) refl
collect_from-Yields (suc fuel) r [] (some e) lt (fails q) = rw (q, collect_from) refl
collect_from-Yields (suc fuel) r (rec ∷ rs) ending lt (yields r' q y) =
    rw (q, collect_from)
      (ap (push_record rec)
          (collect_from-Yields fuel r' rs ending (omega (arith, next_frame_takes r r' rec q)) y)
        ∙ push-collected rec rs ending)

pub collect_all-Yields :
    (r : ShowReader) (rs : List ShowRecord) (ending : Option ReadError)
    → Yields r rs ending
    → collect_all r ≡ some (collected rs ending)
unfolding collect_all
collect_all-Yields r rs ending y =
    collect_from-Yields (suc (length r.inner)) r rs ending (omega arith) y

-- A reader that is read whole yields the frames and its end.
whole_after :
    (r : ShowReader) (rs ss : List ShowRecord) (ending : Option ReadError)
    → collected ss ending ≡ ok rs
    → Yields r ss ending
    → Yields r rs none
whole_after r rs ss none e y =
    let same : ss ≡ rs = ground arith in subst (λ (x : List ShowRecord). Yields r x none) same y
whole_after r rs ss (some x) e y = absurd (ground arith)

pub whole-Yields :
    (r : ShowReader) (rs : List ShowRecord) → collect_all r ≡ some (ok rs) → Yields r rs none
whole-Yields r rs e =
    let (ss, ending, y) = reader-Yields r in
    let both : some (collected ss ending) ≡ some (ok rs) =
      sym (collect_all-Yields r ss ending y) ∙ e in
    whole_after r rs ss ending (ground arith) y
