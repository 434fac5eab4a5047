-- ===== src/Protocols/Sacn/Tests.antt =====
-- Two frames' worth of one universe, then a universe that is too short, on a multicast sender.
use led_platform.Prelude.{List, [], arith, refl, replicate, true, ℕ, ◌∷◌, ◌≡◌}
use led_platform.Layout.Apply.{UniverseData}
use led_platform.Protocols.Sacn.Device.{send_physical, multicast, dest_for, SacnDevice}
use led_platform.Protocols.Sacn.Numbered.{
  send_physical-numbered, counted, verdict, prefix, AreNumbered, Counted,
}

abbrev full : ℕ → UniverseData
full b = record { universe = 300; data_bytes = replicate 512 b }

abbrev short : UniverseData
short = record { universe = 2; data_bytes = 1 ∷ [] }

abbrev universes : List UniverseData
universes = full 9 ∷ full 8 ∷ short ∷ full 7 ∷ []

abbrev sender : SacnDevice
sender = record {
  dest = multicast;
  cid = replicate 16 7;
  source_name = 76 ∷ 85 ∷ 77 ∷ [];
  priority = 100;
  seqs = λ u. 255;
  frames_sent = 4;
}

group : dest_for multicast 300 ≡ record { a = 239; b = 255; c = 1; d = 44; port = 5568 }
unfolding dest_for
group = refl

send_physical-numbered_example :
    AreNumbered multicast
      (λ u. 255)
      []
      (prefix universes)
      (send_physical (λ k. true) universes sender).datagrams
    × ((send_physical (λ k. true) universes sender).error ≡ verdict universes)
    × ((send_physical (λ k. true) universes sender).device.frames_sent
        ≡ counted (verdict universes) 4)
    × Counted sender (prefix universes) (send_physical (λ k. true) universes sender).device
send_physical-numbered_example =
    send_physical-numbered (λ k. true) (λ k. refl) universes sender refl
      (omega arith, (omega arith, (omega arith, (omega arith, tt))))
