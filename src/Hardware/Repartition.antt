-- ===== src/Hardware/Repartition.antt =====
-- crates/led-hardware-profile/src/reparticao.rs: `repartir` and `repartir_portas_de`.
use led_platform.Prelude.{
  ok, err, Bool, List, Result, [], false, if◌then◌else◌, ltb, min, saturating_mul, suc, true, u16,
  u32, u64, zero, ◌&&◌, ◌*◌, ◌+◌, ◌-◌, ◌/◌, ◌==◌, ◌>>=◌, ◌∷◌, ℕ,
}

pub data UnidadeVazia : Type 0 where
  recusa aceita : UnidadeVazia

pub record Fatia : Type 0 where
  pub pixel_offset : ℕ
  pub pixel_count : ℕ

pub record FatiaDePorta : Type 0 where
  pub index : ℕ
  pub pixel_offset : ℕ
  pub pixel_count : ℕ
  pub universe_start : ℕ

pub data RepartirError : Type 0 where
  sem_unidades tecto_zero : RepartirError
  nao_cabe : ℕ → ℕ → ℕ → ℕ → RepartirError
  unidade_sem_pixeis : ℕ → ℕ → ℕ → ℕ → ℕ → RepartirError
  universo_fora_de_faixa : ℕ → ℕ → RepartirError

abbrev pub is_recusa : UnidadeVazia → Bool
is_recusa recusa = true
is_recusa aceita = false

-- `usize::div_ceil`.
abbrev pub div_ceil : ℕ → ℕ → ℕ
div_ceil a b = (a + (b - 1)) / b

abbrev pub push_fatia :
    Fatia → Result RepartirError (List Fatia) → Result RepartirError (List Fatia)
push_fatia f (ok fs) = ok (f ∷ fs)
push_fatia f (err e) = err e

-- The loop: the units left, and the index of the next.
unfoldable pub fatias_from : ℕ → ℕ → ℕ → ℕ → ℕ → UnidadeVazia → Result RepartirError (List Fatia)
fatias_from zero i total tecto unidades vazia = ok []
fatias_from (suc n) i total tecto unidades vazia =
    let inicio = u64 (i * tecto) in
    let conta = min (total - inicio) tecto in
    let rest = fatias_from n (suc i) total tecto unidades vazia in
    if conta == 0 && is_recusa vazia
    then err (unidade_sem_pixeis i total tecto unidades (div_ceil inicio tecto))
    else push_fatia (record { pixel_offset = u32 inicio; pixel_count = conta }) rest

unfoldable pub repartir : ℕ → ℕ → ℕ → UnidadeVazia → Result RepartirError (List Fatia)
unfolding fatias_from saturating_mul
repartir total tecto unidades vazia =
    let capacidade = saturating_mul tecto unidades in
    if unidades == 0
    then err sem_unidades
    else if tecto == 0
    then err tecto_zero
    else if ltb capacidade total
    then err (nao_cabe total tecto unidades capacidade)
    else fatias_from unidades 0 total tecto unidades vazia

-- The closure of the `map`: `u16::try_from` of the port's first universe.
unfoldable pub porta_of : ℕ → ℕ → ℕ → Fatia → Result RepartirError FatiaDePorta
porta_of k universos_por_porta first_universe f =
    let universo = u32 (first_universe + u32 (k * universos_por_porta)) in
    if ltb universo 65536
    then ok (record {
      index = u16 k;
      pixel_offset = f.pixel_offset;
      pixel_count = f.pixel_count;
      universe_start = universo;
    })
    else err (universo_fora_de_faixa (u16 k) universo)

-- `enumerate`, `map` and `collect`.
unfoldable pub portas_from : ℕ → ℕ → ℕ → List Fatia → Result RepartirError (List FatiaDePorta)
unfolding porta_of
portas_from k universos_por_porta first_universe [] = ok []
portas_from k universos_por_porta first_universe (f ∷ fs) =
    porta_of k universos_por_porta first_universe f >>= λ p.
    portas_from (suc k) universos_por_porta first_universe fs >>= λ ps. ok (p ∷ ps)

unfoldable pub repartir_portas_de : ℕ → ℕ → ℕ → ℕ → ℕ → Result RepartirError (List FatiaDePorta)
unfolding repartir portas_from
repartir_portas_de ports pixels_per_universe max_pixels pixeis_do_no first_universe =
    if ports == 0
    then err sem_unidades
    else if pixels_per_universe == 0
    then err tecto_zero
    else repartir pixeis_do_no (max_pixels / ports) ports aceita >>= λ fatias.
        portas_from 0 (div_ceil (max_pixels / ports) pixels_per_universe) first_universe fatias
