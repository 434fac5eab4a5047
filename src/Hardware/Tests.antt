-- ===== src/Hardware/Tests.antt =====
-- Twelve hundred pixels over three ports of five hundred and ten.
use led_platform.Prelude.{[], refl, ok, List, ◌∷◌, ◌≡◌, ℕ, arith, ◌≤◌, ◌+◌}
use led_platform.Hardware.Repartition.{
  recusa, repartir, repartir_portas_de, div_ceil, Fatia, FatiaDePorta, fatias_from,
}
use led_platform.Hardware.Ports.{portas-apart}

abbrev three : List Fatia
three =
    record { pixel_offset = 0; pixel_count = 510 }
    ∷ record { pixel_offset = 510; pixel_count = 510 }
    ∷ record { pixel_offset = 1020; pixel_count = 180 }
    ∷ []

three_shares : repartir 1200 510 3 recusa ≡ ok three
unfolding repartir fatias_from
three_shares = refl

abbrev port : ℕ → ℕ → ℕ → ℕ → FatiaDePorta
port k offset count start = record {
  index = k;
  pixel_offset = offset;
  pixel_count = count;
  universe_start = start;
}

abbrev ports : List FatiaDePorta
ports = port 0 0 510 7 ∷ port 1 510 510 10 ∷ port 2 1020 180 13 ∷ []

three_ports : repartir_portas_de 3 170 1530 1200 7 ≡ ok ports
unfolding repartir_portas_de
three_ports = refl

portas-apart_example : 7 + div_ceil 510 170 ≤ 13
portas-apart_example =
    portas-apart 3 170 1530 1200 7 ports (omega arith) (omega arith) three_ports 0 2
      (port 0 0 510 7) (port 2 1020 180 13) refl refl (omega arith)
