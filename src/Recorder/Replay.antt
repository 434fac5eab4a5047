-- ===== src/Recorder/Replay.antt =====
-- crates/led-show-recorder/src/replay.rs: `ReplayManifest`, and `pixel_hash` of lib.rs.
use Prim.Native.Nat.{bit_xor}
use led_platform.Prelude.{
  Option-cases, Result, Result-cases, err, inl, inr, ok, [], if◌then◌else◌, length, map, none, refl,
  some, subst, suc, u32, u64, zero, ℕ_discrete, ◌*◌, ◌++◌, ◌+◌, ◌==◌, ◌↔◌, ◌∷◌, ◌≢◌, Option, List,
  ℕ, arith, ◌≡◌,
}
use led_platform.Color.{PixelColor}
use led_platform.Recorder.Format.{ShowRecord}
use led_platform.Recorder.Format.Reader.{ReadError, ShowReader, collect_all, read_file}

abbrev pub fnv_offset : ℕ
fnv_offset = 0xcbf29ce484222325

abbrev pub fnv_prime : ℕ
fnv_prime = 0x00000100000001b3

abbrev pub hash_byte : ℕ → ℕ → ℕ
hash_byte h byte = u64 (bit_xor h byte * fnv_prime)

unfoldable pub hash_pixels : ℕ → List PixelColor → ℕ
hash_pixels h [] = h
hash_pixels h (px ∷ pixels) =
    hash_pixels (hash_byte (hash_byte (hash_byte h (px.r)) (px.g)) (px.b)) pixels

unfoldable pub hash_records : ℕ → List ShowRecord → ℕ
unfolding hash_pixels
hash_records h [] = h
hash_records h (rec ∷ records) = hash_records (hash_pixels h (rec.pixels)) records

unfoldable pub pixel_hash : List ShowRecord → ℕ
unfolding hash_records
pixel_hash records = hash_records fnv_offset records

pub record ReplayManifest : Type 0 where
  pub frame_count : ℕ
  pub aggregate_hash : ℕ
  pub frame_hashes : List ℕ
  pub pixel_count : ℕ

-- `records.first()`'s number of pixels.
abbrev pub first_pixels : List ShowRecord → ℕ
first_pixels [] = 0
first_pixels (rec ∷ records) = u32 (length (rec.pixels))

abbrev pub frame_hash : ShowRecord → ℕ
frame_hash r = pixel_hash (r ∷ [])

unfoldable pub from_records : List ShowRecord → ReplayManifest
unfolding pixel_hash
from_records records = record {
  frame_count = length records;
  aggregate_hash = pixel_hash records;
  frame_hashes = map frame_hash records;
  pixel_count = first_pixels records;
}

-- `zip`, `enumerate` and `find`, from index `i` on.
unfoldable pub find_from : ℕ → List ℕ → List ℕ → Option ℕ
find_from i (a ∷ xs) (b ∷ ys) =
    let rest = find_from (suc i) xs ys in if a == b then rest else some i
find_from i _ _ = none

unfoldable pub diff : ReplayManifest → ReplayManifest → Option ℕ
unfolding find_from
diff m other =
    if m.aggregate_hash == other.aggregate_hash
    then none
    else find_from 0 (m.frame_hashes) (other.frame_hashes)

-- Place `k` is the first where both lists have a number and the numbers differ.
abbrev pub FirstAt : ℕ → List ℕ → List ℕ → Type 0
FirstAt zero (a ∷ xs) (b ∷ ys) = a ≢ b
FirstAt (suc k) (a ∷ xs) (b ∷ ys) = (a ≡ b) × FirstAt k xs ys
FirstAt k _ _ = ⊥

find_from-FirstAt :
    (xs ys : List ℕ) (i j : ℕ)
    → find_from i xs ys ≡ some j
    → (k : ℕ) × (j ≡ i + k) × FirstAt k xs ys
unfolding find_from
find_from-FirstAt [] ys i j e = absurd (ground arith)
find_from-FirstAt (a ∷ xs) [] i j e = absurd (ground arith)
find_from-FirstAt (a ∷ xs) (b ∷ ys) i j e = elim (ℕ_discrete a b) [
  | yes p ↦
      let (k, q, f) = find_from-FirstAt xs ys (suc i) j (ground arith) in
      (suc k, omega (arith, q), (p, f))
  | no n ↦ (0, ground arith, n)
]

FirstAt-find_from : (xs ys : List ℕ) (i k : ℕ) → FirstAt k xs ys → find_from i xs ys ≡ some (i + k)
unfolding find_from
FirstAt-find_from [] ys i zero f = absurd f
FirstAt-find_from [] ys i (suc k) f = absurd f
FirstAt-find_from (a ∷ xs) [] i zero f = absurd f
FirstAt-find_from (a ∷ xs) [] i (suc k) f = absurd f
FirstAt-find_from (a ∷ xs) (b ∷ ys) i zero f = ground arith
FirstAt-find_from (a ∷ xs) (b ∷ ys) i (suc k) f =
    ground (arith, FirstAt-find_from xs ys (suc i) k f.1, f.0)

FirstAt-of_diff :
    (m other : ReplayManifest) (k : ℕ)
    → diff m other ≡ some k
    → (m.aggregate_hash ≢ other.aggregate_hash) × FirstAt k (m.frame_hashes) (other.frame_hashes)
unfolding diff
FirstAt-of_diff m other k e = elim (ℕ_discrete (m.aggregate_hash) (other.aggregate_hash)) [
  | yes p ↦ absurd (ground arith)
  | no n ↦
      let (j, q, f) = find_from-FirstAt (m.frame_hashes) (other.frame_hashes) 0 k (ground arith) in
      (n, subst (λ x. FirstAt x (m.frame_hashes) (other.frame_hashes)) (omega (arith, q)) f)
]

-- `diff` returns an index exactly when the aggregate hashes differ and the index is the first at
-- which both manifests have a frame hash and the hashes differ.
diff-FirstAt :
    (m other : ReplayManifest) (k : ℕ)
    → (diff m other ≡ some k) ↔ (
        (m.aggregate_hash ≢ other.aggregate_hash) × FirstAt k (m.frame_hashes) (other.frame_hashes))
unfolding diff
diff-FirstAt m other k = (
  FirstAt-of_diff m other k,
  λ t. ground (arith, t.0, FirstAt-find_from (m.frame_hashes) (other.frame_hashes) 0 k t.1),
)

find_from-prefix : (xs ys : List ℕ) (i : ℕ) → find_from i xs (xs ++ ys) ≡ none
unfolding find_from
find_from-prefix [] ys i = refl
find_from-prefix (a ∷ xs) ys i = ground (arith, find_from-prefix xs ys (suc i))

map-append :
    (xs ys : List ShowRecord) → map frame_hash (xs ++ ys) ≡ map frame_hash xs ++ map frame_hash ys
map-append [] ys = refl
map-append (x ∷ xs) ys = rw (map-append xs ys)

-- Between the manifests of a recording and of any longer recording that starts with the same
-- records, `diff` finds no divergence.
diff-prefix :
    (records more : List ShowRecord)
    → diff (from_records records) (from_records (records ++ more)) ≡ none
unfolding diff from_records
diff-prefix records more =
    let agree : find_from 0 (map frame_hash records) (map frame_hash (records ++ more)) ≡ none =
      rw (map-append records more)
        (find_from-prefix (map frame_hash records) (map frame_hash more) 0) in
    ground (arith, agree)

-- `collect_all().unwrap_or_default()` after opening; `collect_all` ends on every file.
abbrev pub or_default : Option (Result ReadError (List ShowRecord)) → List ShowRecord
or_default (some (ok rs)) = rs
or_default (some (err e)) = []
or_default none = []

unfoldable pub verify_replay : ShowReader → ℕ → Result (ℕ × ℕ) ReplayManifest
unfolding from_records
verify_replay reader expected_hash = elim (collect_all reader) [
  | none ↦ err (0, expected_hash)
  | some (err e) ↦ err (0, expected_hash)
  | some (ok records) ↦
      let manifest = from_records records in
      if manifest.aggregate_hash == expected_hash
      then ok manifest
      else err (manifest.aggregate_hash, expected_hash)
]

unfoldable pub cross_node_verify : List ℕ → List ℕ → Option ℕ
unfolding diff
cross_node_verify node_a node_b =
    diff (from_records (or_default (read_file node_a)))
      (from_records (or_default (read_file node_b)))

-- If the file of node A cannot be opened or read to its end, `cross_node_verify` reports no
-- divergence, whatever the file of node B is.
pub cross_node_verify-unreadable :
    (node_a node_b : List ℕ) (e : ReadError)
    → read_file node_a ≡ some (err e)
    → cross_node_verify node_a node_b ≡ none
unfolding cross_node_verify
cross_node_verify-unreadable node_a node_b e h =
    rw h (diff-prefix [] (or_default (read_file node_b)))

verify_replay-ok :
    (reader : ShowReader) (expected_hash : ℕ) (m : ReplayManifest)
    → verify_replay reader expected_hash ≡ ok m
    → (records : List ShowRecord) × (collect_all reader ≡ some (ok records))
      × (m ≡ from_records records)
      × (pixel_hash records ≡ expected_hash)
unfolding verify_replay
verify_replay-ok reader expected_hash m e = elim (Option-cases (collect_all reader)) [
  | inl n ↦ absurd (ground arith)
  | inr (res, c) ↦ elim (Result-cases res) [
    | inr (x, q) ↦ absurd (ground arith)
    | inl (records, q) ↦ (records, ground arith, ground arith, ground arith)
  ]
]
