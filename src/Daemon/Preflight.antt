-- ===== src/Daemon/Preflight.antt =====
-- crates/led-daemon-bin/src/preflight.rs, with `Integrity` of loader.rs. The network guard and the probe
-- of a controller are the arguments that the code injects; the journal's lines are their keys, without
-- the texts.
pub mod Decision
mod Tests
use led_platform.Prelude.{
  Bool, List, Option, [], false, if◌then◌else◌, none, not, some, true, ℕ, ◌++◌, ◌/◌, ◌==◌, ◌||◌,
  ◌∷◌,
}
use led_platform.Runtime.Types.{PreflightReport}
use led_platform.Protocols.Discovery.{DiscoveryResult}
use led_platform.Hal.NetworkGuard.{NetworkPolicyError, wifi_active, probe_unavailable, probe_failed}
use led_platform.Daemon.Output.Config.{SocketAddr, Alvo, OutputConfig, todos_loopback}

pub data Integrity : Type 0 where
  assumed_by_operator not_verified : Integrity

unfoldable pub satisfies_preflight : Integrity → Bool
satisfies_preflight assumed_by_operator = true
satisfies_preflight not_verified = false

pub data IpAddr : Type 0 where
  v4 v6 : ℕ → IpAddr

-- `IpAddr::is_loopback`: 127.0.0.0/8, or `::1`.
unfoldable pub ip_is_loopback : IpAddr → Bool
ip_is_loopback (v4 ip) = ip / 16777216 == 127
ip_is_loopback (v6 ip) = ip == 1

pub data Presence : Type 0 where
  all_present : Presence
  missing : List ℕ → Presence
  unavailable : Presence

-- What `discover_controllers` came to; `none` is an error.
abbrev pub discovered : Option DiscoveryResult → Presence
discovered none = unavailable
discovered (some r) = elim r.missing [ [] ↦ all_present | i ∷ is_ ↦ missing (i ∷ is_) ]

-- `ArtPollPresence::probe`.
unfoldable pub art_poll_probe : (List ℕ → Option DiscoveryResult) → IpAddr → Presence
unfolding ip_is_loopback
art_poll_probe discover (v6 ip) = unavailable
art_poll_probe discover (v4 ip) =
    if ip_is_loopback (v4 ip) then unavailable else discovered (discover (ip ∷ []))

pub data Fio : Type 0 where
  sem_saida so_loopback rede : Fio

pub data Sonda : Type 0 where
  nao_consultada mediu nao_suportada falhou : Sonda

pub data Veredito : Type 0 where
  without_output loopback verificado verificado_flag_sem_efeito wifi_ativo nao_verificado : Veredito
  sonda_falhou afirmado_pelo_operador : Veredito

-- The keys of the journal.
pub data Notice : Type 0 where
  preflight_vacuous network_local network_checked network_override_unused : Notice
  network_refused network_unverified network_probe_failed network_assumed_by_operator : Notice
  devices_checked devices_missing devices_unverified : Notice

unfoldable pub chaves : Veredito → List Notice
chaves without_output = preflight_vacuous ∷ []
chaves loopback = network_local ∷ []
chaves verificado = network_checked ∷ []
chaves verificado_flag_sem_efeito = network_checked ∷ network_override_unused ∷ []
chaves wifi_ativo = network_refused ∷ []
chaves nao_verificado = network_unverified ∷ []
chaves sonda_falhou = network_probe_failed ∷ []
chaves afirmado_pelo_operador = network_assumed_by_operator ∷ []

pub record DecisaoRede : Type 0 where
  pub network_ok : Bool
  pub override_usado : Bool
  pub veredito : Veredito

abbrev pub decided : Bool → Bool → Veredito → DecisaoRede
decided network_ok override_usado v = record {
  network_ok = network_ok;
  override_usado = override_usado;
  veredito = v;
}

-- The `match` on the wire, the probe, the active WiFi and the operator's word.
unfoldable pub decidir_rede : Fio → Sonda → Bool → Bool → DecisaoRede
decidir_rede fio sonda true afirma = decided false false wifi_ativo
decidir_rede sem_saida sonda false afirma = decided true false without_output
decidir_rede so_loopback sonda false afirma = decided true false loopback
decidir_rede rede mediu false false = decided true false verificado
decidir_rede rede mediu false true = decided true false verificado_flag_sem_efeito
decidir_rede rede nao_suportada false afirma = decided true false nao_verificado
decidir_rede rede nao_consultada false afirma = decided false false sonda_falhou
decidir_rede rede falhou false false = decided false false sonda_falhou
decidir_rede rede falhou false true = decided true true afirmado_pelo_operador

-- The guard's answer without its texts; `none` is that it found no wireless interface up.
unfoldable pub medir : Option NetworkPolicyError → Sonda × Bool
medir none = (mediu, false)
medir (some (wifi_active interfaces)) = (mediu, true)
medir (some probe_unavailable) = (nao_suportada, false)
medir (some probe_failed) = (falhou, false)

pub record Preflight : Type 0 where
  pub report : PreflightReport
  pub notices : List Notice

-- `AssumeNoWifi::da_linha_de_comando`: whether an argument is exactly the flag.
unfoldable pub da_linha_de_comando : {T : Type 0} → (T → Bool) → List T → Bool
da_linha_de_comando is_flag [] = false
da_linha_de_comando is_flag (a ∷ argv) = is_flag a || da_linha_de_comando is_flag argv

-- The three sums of the loop: whether some address is missing, and whether some probe could not be
-- made.
abbrev pub aggregate : List ℕ → Bool → Presence
aggregate (i ∷ is_) indeterminado = missing (i ∷ is_)
aggregate [] true = unavailable
aggregate [] false = all_present

abbrev pub sounded : Presence → List ℕ × Bool → List ℕ × Bool
sounded all_present sums = sums
sounded (missing a) (ausentes, indeterminado) = (ausentes ++ a, indeterminado)
sounded unavailable (ausentes, indeterminado) = (ausentes, true)

abbrev pub told : Presence → Bool × List Notice
told all_present = (true, devices_checked ∷ [])
told (missing a) = (false, devices_missing ∷ [])
told unavailable = (true, devices_unverified ∷ [])

abbrev pub summed : List ℕ × Bool → Bool × List Notice
summed (ausentes, indeterminado) = told (aggregate ausentes indeterminado)

module _ {A : Type 0} (probe : A → Presence) where
  unfoldable pub sound_all : List (Alvo A) → List ℕ × Bool → List ℕ × Bool
  sound_all [] sums = sums
  sound_all (a ∷ alvos) sums = sound_all alvos (sounded (probe a.addr) sums)

  unfoldable pub presenca_de_todos : {F : Type 0} → OutputConfig A F → Bool × List Notice
  unfolding sound_all
  presenca_de_todos cfg = summed (sound_all cfg.alvos ([], false))

module _ {A F : Type 0} (net : SocketAddr A) (guard : Option NetworkPolicyError)
    (probe : A → Presence) where
  unfoldable pub measured : Option (OutputConfig A F) → Fio × Sonda × Bool
  unfolding todos_loopback medir
  measured none = (sem_saida, nao_consultada, false)
  measured (some cfg) =
      if todos_loopback net cfg
      then (so_loopback, nao_consultada, false)
      else (rede, (medir guard).0, (medir guard).1)

  unfoldable pub devices : Option (OutputConfig A F) → Bool × List Notice
  unfolding presenca_de_todos todos_loopback
  devices none = (true, [])
  devices (some cfg) =
      if todos_loopback net cfg
      then (true, devices_unverified ∷ [])
      else if not cfg.supports_discovery
      then (true, devices_unverified ∷ [])
      else presenca_de_todos probe cfg

  unfoldable pub preflight : Integrity → Option (OutputConfig A F) → Bool → Preflight
  unfolding satisfies_preflight measured devices decidir_rede chaves
  preflight integrity output override_da_cli =
      let (fio, sonda, wifi) = measured output in
      let decisao = decidir_rede fio sonda wifi override_da_cli in
      let (devices_present, told_of) = devices output in
      record {
        report = record {
          integrity_verified = satisfies_preflight integrity;
          network_ok = decisao.network_ok;
          devices_present = devices_present;
        };
        notices = chaves decisao.veredito ++ told_of;
      }
