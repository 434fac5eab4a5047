-- ===== src/Protocols/Tests.antt =====
-- A strip of three RGB pixels over datagrams of two, on a socket that takes everything.
use led_platform.Prelude.{[], length, ◌*◌, ◌+◌, ◌∷◌, List, ℕ, arith, ◌≡◌, true, refl, some}
use led_platform.Color.{PixelColor, ColorFormat, RgbOrder}
use led_platform.Protocols.Ddp.{build_ddp_packet_format, format_payload}
use led_platform.Protocols.DdpSend.{DdpDevice, max_pixels, finished, send_pixels, receive}
use led_platform.Protocols.DdpSend.Delivery.{send_pixels-receive}

abbrev px : ℕ → PixelColor
px n = record { r = n; g = n + 1; b = n + 2 }

abbrev strip : List PixelColor
strip = px 1 ∷ px 4 ∷ px 7 ∷ []

abbrev grb : ColorFormat
grb = ColorFormat.rgb RgbOrder.grb

abbrev device : DdpDevice
device = record { seq = 255; format = grb; pixel_offset = 10; max_px_override = some 2 }

two_datagrams : length (send_pixels (λ k. true) strip device).datagrams ≡ 2
unfolding send_pixels max_pixels build_ddp_packet_format
two_datagrams = refl

send_pixels-receive_example :
    ((send_pixels (λ k. true) strip device).sending ≡ finished)
    × (receive 255 (10 * 3) (send_pixels (λ k. true) strip device).datagrams
        ≡ some (format_payload grb strip))
send_pixels-receive_example =
    send_pixels-receive (λ k. true) (λ k. refl) strip device (unfold max_pixels in omega arith)
      (omega arith)
