-- ===== src/Daemon/Preflight/Decision.antt =====
-- What the preflight reports, and what it keeps from being armed.
use led_platform.Prelude.{
  ap, Bool-cases, inl, inr, Bool, List, Option, [], arith, false, none, not, refl, some, true, ℕ,
  ◌&&◌, ◌++◌, ◌||◌, ◌∙◌, ◌∷◌, ◌≡◌,
}
use led_platform.Runtime.Types.{PreflightReport, Command, arm, is_clear}
use led_platform.Runtime.Machine.{ShowRuntime}
use led_platform.Runtime.Invariant.{run, IsCoherent}
use led_platform.Runtime.Graph.{unarmed, HasArm, armed_needs_arm}
use led_platform.Hal.NetworkGuard.{NetworkPolicyError, wifi_active, probe_unavailable, probe_failed}
use led_platform.Daemon.Output.Config.{SocketAddr, Alvo, OutputConfig, todos_loopback}
use led_platform.Daemon.Preflight.{
  rede, devices_unverified, Integrity, satisfies_preflight, Presence, all_present, missing,
  unavailable, Notice, preflight, measured, devices, presenca_de_todos, sound_all, summed, sounded,
  decidir_rede, medir, chaves, network_refused, network_probe_failed,
}

-- An output that reaches a network: a target is not this machine.
abbrev pub on_wire : {A F : Type 0} → SocketAddr A → Option (OutputConfig A F) → Bool
on_wire net none = false
on_wire net (some cfg) = not (todos_loopback net cfg)

-- What the guard says that keeps a show off the wire; the operator's word stands in only for a probe
-- that failed.
abbrev pub refused : Option NetworkPolicyError → Bool → Bool
refused none word = false
refused (some (wifi_active interfaces)) word = true
refused (some probe_unavailable) word = false
refused (some probe_failed) word = not word

-- Some target's probe names an address that did not answer.
abbrev pub names_missing : Presence → Bool
names_missing (missing (i ∷ is_)) = true
names_missing _ = false

abbrev pub any_missing : {A : Type 0} → (A → Presence) → List (Alvo A) → Bool
any_missing probe [] = false
any_missing probe (a ∷ alvos) = names_missing (probe a.addr) || any_missing probe alvos

abbrev pub looks_for : {A F : Type 0} → Option (OutputConfig A F) → (A → Presence) → Bool
looks_for none probe = false
looks_for (some cfg) probe = cfg.supports_discovery && any_missing probe cfg.alvos

abbrev is_empty : List ℕ → Bool
is_empty [] = true
is_empty (x ∷ xs) = false

is_empty-append : (xs ys : List ℕ) → is_empty (xs ++ ys) ≡ (is_empty xs && is_empty ys)
is_empty-append [] ys = refl
is_empty-append (x ∷ xs) ys = refl

told-aggregate : (sums : List ℕ × Bool) → (summed sums).0 ≡ is_empty sums.0
told-aggregate ([], true) = refl
told-aggregate ([], false) = refl
told-aggregate (i ∷ is_, b) = refl

sounded-missing :
    (p : Presence) (sums : List ℕ × Bool)
    → is_empty (sounded p sums).0 ≡ (is_empty sums.0 && not (names_missing p))
sounded-missing all_present (xs, b) = ground arith
sounded-missing (missing []) (xs, b) = rw (is_empty-append xs []) (ground arith)
sounded-missing (missing (i ∷ is_)) (xs, b) = rw (is_empty-append xs (i ∷ is_)) (ground arith)
sounded-missing unavailable (xs, b) = ground arith

and-not_or : (a b c : Bool) → ((a && not b) && not c) ≡ (a && not (b || c))
and-not_or false b c = refl
and-not_or true false c = refl
and-not_or true true c = refl

sound_all-missing :
    {A : Type 0} (probe : A → Presence) (alvos : List (Alvo A)) (sums : List ℕ × Bool)
    → is_empty (sound_all probe alvos sums).0 ≡ (is_empty sums.0 && not (any_missing probe alvos))
unfolding sound_all
sound_all-missing probe [] sums = ground arith
sound_all-missing probe (a ∷ alvos) sums =
    sound_all-missing probe alvos (sounded (probe a.addr) sums)
    ∙ rw (sounded-missing (probe a.addr) sums)
        (and-not_or (is_empty sums.0) (names_missing (probe a.addr)) (any_missing probe alvos))

abbrev pub tells_refusal : List Notice → Bool
tells_refusal (network_refused ∷ rest) = true
tells_refusal (network_probe_failed ∷ rest) = true
tells_refusal _ = false

presenca_de_todos-missing :
    {A F : Type 0} (probe : A → Presence) (cfg : OutputConfig A F)
    → (presenca_de_todos probe cfg).0 ≡ not (any_missing probe cfg.alvos)
unfolding presenca_de_todos
presenca_de_todos-missing probe cfg =
    told-aggregate (sound_all probe cfg.alvos ([], false))
    ∙ sound_all-missing probe cfg.alvos ([], false)

-- The decision for an output that reaches a network.
network-decided :
    (guard : Option NetworkPolicyError) (word : Bool) (rest : List Notice)
    → let d = decidir_rede rede (medir guard).0 (medir guard).1 word in
      (d.network_ok ≡ not (refused guard word))
      × (tells_refusal (chaves d.veredito ++ rest) ≡ not d.network_ok)
unfolding decidir_rede medir chaves
network-decided none true rest = (refl, refl)
network-decided none false rest = (refl, refl)
network-decided (some (wifi_active is_)) word rest = (refl, refl)
network-decided (some probe_unavailable) word rest = (refl, refl)
network-decided (some probe_failed) true rest = (refl, refl)
network-decided (some probe_failed) false rest = (refl, refl)

module _ {A F : Type 0} (net : SocketAddr A) (guard : Option NetworkPolicyError)
    (probe : A → Presence) where
  -- The preflight reports the integrity as the operator put it; the network as in order unless an
  -- output reaches a network and either a wireless interface is up, or the probe of a supported
  -- platform failed and the operator has not vouched; and the devices as present unless such an
  -- output has a node that answers discovery and some target's probe names an address that did not
  -- answer. It writes the refusal of the network, or the failed probe, first in the journal
  -- exactly when it reports the network as not in order.
  pub preflight-report :
      (integrity : Integrity) (output : Option (OutputConfig A F)) (word : Bool)
      → let p = preflight net guard probe integrity output word in
        (p.report.integrity_verified ≡ satisfies_preflight integrity)
        × (p.report.network_ok ≡ not (on_wire net output && refused guard word))
        × (p.report.devices_present ≡ not (on_wire net output && looks_for output probe))
        × (tells_refusal p.notices ≡ not p.report.network_ok)
  unfolding preflight measured devices decidir_rede chaves
  preflight-report integrity none word = (refl, refl, refl, refl)
  preflight-report integrity (some cfg) word = elim (Bool-cases (todos_loopback net cfg)) [
    | inl here ↦ rw here (refl, refl, refl, refl)
    | inr wire ↦ elim (Bool-cases cfg.supports_discovery) [
      | inl asks ↦
          let present : (presenca_de_todos probe cfg).0 ≡ not (any_missing probe cfg.alvos) =
            presenca_de_todos-missing probe cfg in
          let (net_ok, told_first) = network-decided guard word (presenca_de_todos probe cfg).1 in
          rw (wire, asks) (refl, net_ok, present, told_first)
      | inr quiet ↦
          let (net_ok, told_first) = network-decided guard word (devices_unverified ∷ []) in
          rw (wire, quiet) (refl, net_ok, refl, told_first)
    ]
  ]

module _ {A : Type 0} (F : Type 0) (net : SocketAddr A) (guard : Option NetworkPolicyError)
    (probe : A → Presence) where
  -- Reports that a preflight made for an output on a network that the guard refuses.
  abbrev pub Refuses : PreflightReport → Type 0
  Refuses r =
      (integrity : Integrity) × (output : Option (OutputConfig A F)) × (word : Bool) × (r
        ≡ (preflight net guard probe integrity output word).report)
      × (on_wire net output ≡ true)
      × (refused guard word ≡ true)

  abbrev pub AllRefused : List (Command × ℕ) → Type 0
  AllRefused [] = Unit
  AllRefused ((cmd, now) ∷ cs) = ((r : PreflightReport) → cmd ≡ arm r → Refuses r) × AllRefused cs

  Refuses-unclear : (r : PreflightReport) → Refuses r → is_clear r ≡ false
  unfolding is_clear
  Refuses-unclear r (integrity, output, word, e, wire, no_way) =
      let (i, n, d, t) = preflight-report net guard probe integrity output word in
      let bad : (preflight net guard probe integrity output word).report.network_ok ≡ false =
        n ∙ rw (wire, no_way) refl in
      let bad' : r.network_ok ≡ false = ap (λ q. q.network_ok) e ∙ bad in ground arith

  refused-unarmed : (cs : List (Command × ℕ)) → AllRefused cs → HasArm cs → ⊥
  refused-unarmed [] h a = a
  refused-unarmed ((cmd, now) ∷ cs) (h, rest) (inl (r, e, clear)) =
      let unclear = Refuses-unclear r (h r e) in cc
  refused-unarmed ((cmd, now) ∷ cs) (h, rest) (inr later) = refused-unarmed cs rest later

  -- If every report that arms comes from a preflight for an output on a network while a wireless
  -- interface is up, or while the probe failed and the operator has not vouched, then no history
  -- of commands takes a run time from before arming to playing, or to any state after arming,
  -- whatever the operator said of the integrity and whatever the controllers answer.
  pub refused-run :
      (rt : ShowRuntime) (cs : List (Command × ℕ))
      → IsCoherent rt
      → unarmed rt.state ≡ true
      → AllRefused cs
      → unarmed (run rt cs).state ≡ true
  refused-run rt cs h u all = elim (Bool-cases (unarmed (run rt cs).state)) [
    | inl safe ↦ safe
    | inr armed ↦ absurd (refused-unarmed cs all (armed_needs_arm rt cs h u armed))
  ]
