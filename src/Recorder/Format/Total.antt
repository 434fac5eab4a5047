-- ===== src/Recorder/Format/Total.antt =====
-- `collect_all` ends on every file: each frame that is read takes bytes from the source.
use led_platform.Prelude.{
  bind_inverse, Bool-cases, Result-cases, [], ap, inl, inr, length, none, some, suc, zero, ◌+◌, ◌<◌,
  ◌==◌, ◌∷◌, ◌≤◌, List, ℕ, arith, ◌≡◌, Result, ok, err,
}
use led_platform.Recorder.Format.{ShowRecord}
use led_platform.Recorder.Format.Reader.{
  ReadError, Read, read_u32, read_u64, read_byte, read_audio, read_pixels, read_flag, read_record,
  ShowReader, next_frame, collect_from, collect_all,
}
use led_platform.Recorder.Format.RoundTrip.{read_u32_takes}

-- What a read leaves is no longer than what it was given.
abbrev Takes : {A : Type 0} → Read A → Type 0
Takes {A} m = (bs : List ℕ) (p : A × List ℕ) → m bs ≡ ok p → length p.1 ≤ length bs

read_u32-Takes : Takes read_u32
read_u32-Takes bs p e = omega (arith, read_u32_takes bs p.0 p.1 e)

read_byte-Takes : Takes read_byte
read_byte-Takes [] p e = absurd (ground arith)
read_byte-Takes (b ∷ bs) p e = ground arith

read_audio-Takes : Takes read_audio
unfolding read_audio
read_audio-Takes bs p e =
    let (p₁, e₁, h₁) = bind_inverse (read_u32 bs) _ e in
    let (p₂, e₂, h₂) = bind_inverse (read_u32 p₁.1) _ h₁ in
    let (p₃, e₃, h₃) = bind_inverse (read_byte p₂.1) _ h₂ in
    let (p₄, e₄, h₄) = bind_inverse (read_u32 p₃.1) _ h₃ in
    let (p₅, e₅, h₅) = bind_inverse (read_u32 p₄.1) _ h₄ in
    let (p₆, e₆, h₆) = bind_inverse (read_u32 p₅.1) _ h₅ in
    let (p₇, e₇, h₇) = bind_inverse (read_u32 p₆.1) _ h₆ in
    let left : p.1 ≡ p₇.1 = ground arith in
    omega (
      arith,
      ap length left,
      read_u32-Takes bs p₁ e₁,
      read_u32-Takes p₁.1 p₂ e₂,
      read_byte-Takes p₂.1 p₃ e₃,
      read_u32-Takes p₃.1 p₄ e₄,
      read_u32-Takes p₄.1 p₅ e₅,
      read_u32-Takes p₅.1 p₆ e₆,
      read_u32-Takes p₆.1 p₇ e₇,
    )

read_pixels-Takes : (n : ℕ) → Takes (read_pixels n)
unfolding read_pixels
read_pixels-Takes zero bs p e = ground arith
read_pixels-Takes (suc n) [] p e = absurd (ground arith)
read_pixels-Takes (suc n) (r ∷ []) p e = absurd (ground arith)
read_pixels-Takes (suc n) (r ∷ g ∷ []) p e = absurd (ground arith)
read_pixels-Takes (suc n) (r ∷ g ∷ b ∷ bs) p e =
    let (q, e₁, h) = bind_inverse (read_pixels n bs) _ e in
    let left : p.1 ≡ q.1 = ground arith in
    omega (arith, ap length left, read_pixels-Takes n bs q e₁)

read_flag-Takes : Takes read_flag
unfolding read_flag
read_flag-Takes [] p e = absurd (ground arith)
read_flag-Takes (flag ∷ bs) p e = elim (Bool-cases (flag == 1)) [
  | inl y ↦
      let (q, e₁, h) = bind_inverse (read_audio bs) _ (rw y at e) in
      let left : p.1 ≡ q.1 = ground arith in omega (arith, ap length left, read_audio-Takes bs q e₁)
  | inr n ↦ ground arith
]

read_record-Takes : (n t : ℕ) → Takes (read_record n t)
unfolding read_record
read_record-Takes n t bs p e =
    let (p₁, e₁, h₁) = bind_inverse (read_pixels n bs) _ e in
    let (p₂, e₂, h₂) = bind_inverse (read_flag p₁.1) _ h₁ in
    let left : p.1 ≡ p₂.1 = ground arith in
    omega (arith, ap length left, read_pixels-Takes n bs p₁ e₁, read_flag-Takes p₁.1 p₂ e₂)

read_u64_takes : (bs : List ℕ) (p : ℕ × List ℕ) → read_u64 bs ≡ ok p → length bs ≡ 8 + length p.1
unfolding read_u64
read_u64_takes bs p e =
    let (p₁, e₁, h₁) = bind_inverse (read_u32 bs) _ e in
    let (p₂, e₂, h₂) = bind_inverse (read_u32 p₁.1) _ h₁ in
    let left : p.1 ≡ p₂.1 = ground arith in
    omega (arith, ap length left, read_u32_takes bs p₁.0 p₁.1 e₁, read_u32_takes p₁.1 p₂.0 p₂.1 e₂)

-- A frame takes eight bytes at least.
pub next_frame_takes :
    (r r' : ShowReader) (rec : ShowRecord)
    → next_frame r ≡ ok (some (rec, r'))
    → 8 + length r'.inner ≤ length r.inner
unfolding next_frame
next_frame_takes r r' rec e = elim (Result-cases (read_u64 r.inner)) [
  | inr (x, n) ↦ absurd (ground arith)
  | inl (p, q) ↦ elim (Result-cases (read_record r.pixel_count p.0 p.1)) [
    | inr (x, n) ↦ absurd (ground arith)
    | inl (s, t) ↦
        let left : r'.inner ≡ s.1 = ground arith in
        omega (
          arith,
          ap length left,
          read_u64_takes r.inner p q,
          read_record-Takes r.pixel_count p.0 p.1 s t,
        )
  ]
]

abbrev pub Ends : ℕ → ShowReader → Type 0
Ends fuel r = (res : Result ReadError (List ShowRecord)) × (collect_from fuel r ≡ some res)

collect_from-Ends : (fuel : ℕ) (r : ShowReader) → length r.inner < fuel → Ends fuel r
unfolding collect_from
collect_from-Ends zero r lt = absurd (omega arith)
collect_from-Ends (suc fuel) r lt = elim (Result-cases (next_frame r)) [
  | inr (x, n) ↦ (err x, rw (n, collect_from))
  | inl (none, q) ↦ (ok [], rw (q, collect_from))
  | inl (some (rec, r'), q) ↦
      let (res, e) = collect_from-Ends fuel r' (omega (arith, next_frame_takes r r' rec q)) in
      elim (Result-cases res) [
        | inl (rs, eq) ↦ (ok (rec ∷ rs), rw (q, collect_from) (rw (e, eq)))
        | inr (x, eq) ↦ (err x, rw (q, collect_from) (rw (e, eq)))
      ]
]

-- Reading all the frames of a source comes to a result, the frames or an error, from every reader:
-- the fuel of its loop, one more than the bytes left, does not run out.
pub collect_all-Ends :
    (r : ShowReader) → (res : Result ReadError (List ShowRecord)) × (collect_all r ≡ some res)
unfolding collect_all
collect_all-Ends r = collect_from-Ends (suc (length r.inner)) r (omega arith)
