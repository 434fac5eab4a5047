-- ===== src/Protocols/Discovery.antt =====
-- crates/led-protocols/src/artnet.rs: which universes other nodes drive, and which controllers
-- answered. An address is its 32-bit number; the name of a node is `short_name`, of any type.
use led_platform.Prelude.{
  Bool-cases, [], false, if◌then◌else◌, inl, inr, length, not, refl, ℕ_discrete, ◌&&◌, ◌++◌, ◌+◌,
  ◌==◌, ◌||◌, ◌∷◌, Bool, List, ℕ, arith, ◌≡◌,
}

pub record ArtPollReply (N : Type 0) : Type 0 where
  pub ip : ℕ
  pub short_name : N
  pub universes : List ℕ

pub record ConflictReport (N : Type 0) : Type 0 where
  pub universe : ℕ
  pub other_ip : ℕ
  pub node_name : N

pub record DiscoveryResult : Type 0 where
  pub responded : List ℕ
  pub missing : List ℕ

abbrev pub contains : List ℕ → ℕ → Bool
contains [] u = false
contains (x ∷ xs) u = x == u || contains xs u

unfoldable pub all_present : DiscoveryResult → Bool
all_present r = length (r.missing) == 0

module _ {N : Type 0} where
  -- The inner loop, over the universes of one reply.
  unfoldable pub conflicts_of : List ℕ → ArtPollReply N → List ℕ → List (ConflictReport N)
  conflicts_of mine reply [] = []
  conflicts_of mine reply (u ∷ us) =
      let rest = conflicts_of mine reply us in
      if contains mine u
      then record { universe = u; other_ip = reply.ip; node_name = reply.short_name } ∷ rest
      else rest

  unfoldable pub find_conflicts : List ℕ → List (ArtPollReply N) → List (ConflictReport N)
  unfolding conflicts_of
  find_conflicts mine [] = []
  find_conflicts mine (reply ∷ replies) =
      conflicts_of mine reply (reply.universes) ++ find_conflicts mine replies

  -- `replies.iter().any(|r| r.ip == ip)`.
  abbrev pub answers : List (ArtPollReply N) → ℕ → Bool
  answers [] ip = false
  answers (r ∷ rs) ip = r.ip == ip || answers rs ip

  unfoldable pub presence : List ℕ → List (ArtPollReply N) → DiscoveryResult
  presence [] replies = record { responded = []; missing = [] }
  presence (ip ∷ expected) replies =
      let rest = presence expected replies in
      if answers replies ip
      then record { responded = ip ∷ rest.responded; missing = rest.missing }
      else record { responded = rest.responded; missing = ip ∷ rest.missing }

  -- `presence` sorts every expected address by whether a reply came from it: an address has
  -- responded, or is missing, exactly when it is expected and was answered, or not answered; no
  -- address is lost, and replies from other addresses change nothing.
  contains-presence :
      (expected : List ℕ) (replies : List (ArtPollReply N)) (ip : ℕ)
      → (contains (presence expected replies).responded ip
          ≡ (contains expected ip && answers replies ip))
        × (contains (presence expected replies).missing ip
            ≡ (contains expected ip && not (answers replies ip)))
        × (length (presence expected replies).responded + length (presence expected replies).missing
            ≡ length expected)
  unfolding presence
  contains-presence [] replies ip = (refl, refl, refl)
  contains-presence (x ∷ expected) replies ip =
      let (a, b, c) = contains-presence expected replies ip in
      elim (ℕ_discrete x ip) [
        | yes e ↦ elim (Bool-cases (answers replies ip)) [
          | inl y ↦ rw e (
              rw y (
                ground (arith, a, b, c, y),
                ground (arith, a, b, c, y),
                ground (arith, a, b, c, y),
              ))
          | inr n ↦ rw e (
              rw n (
                ground (arith, a, b, c, n),
                ground (arith, a, b, c, n),
                ground (arith, a, b, c, n),
              ))
        ]
        | no n ↦ elim (Bool-cases (answers replies x)) [
          | inl y ↦
              rw y
                (ground (arith, a, b, c, n), ground (arith, a, b, c, n), ground (arith, a, b, c, n))
          | inr z ↦
              rw z
                (ground (arith, a, b, c, n), ground (arith, a, b, c, n), ground (arith, a, b, c, n))
        ]
      ]
