-- ===== src/Player/OnWire.antt =====
-- An `OutputManager` whose nodes speak DDP: what the nodes receive of a frame.
use led_platform.Prelude.{
  All, Bool, List, [], ap, arith, drop, false, length, length-take, map, mul_mono, none, refl, some,
  subst, sym, true, ℕ, ◌*◌, ◌+◌, ◌<◌, ◌∙◌, ◌∷◌, ◌≡◌, ◌≤◌,
}
use led_platform.Color.{PixelColor, ColorFormat, channels}
use led_platform.Protocols.Ddp.{format_payload}
use led_platform.Protocols.DdpSend.{send_pixels, receive, max_pixels}
use led_platform.Protocols.DdpSend.Delivery.{send_pixels-receive}
use led_platform.Daemon.Output.Manager.{LogicalFrame, Saida, OutputManager}
use led_platform.Daemon.Output.Manager.Send.{send}
use led_platform.Daemon.Output.Manager.Delivery.{
  slice_of, corrected, concat, first_error, framed, answer,
}
use led_platform.Daemon.Output.Manager.Joined.{IsOpen, send-Sends}
use led_platform.Player.DdpOutput.{answer_of, DdpOutput, ddp_output, send_frame}

-- A node's output starts at the target's first pixel, writes in the show's format, has room for a
-- pixel in a datagram, and its byte offsets stay in 32 bits.
abbrev pub Faces : {A : Type 0} → ColorFormat → Saida A DdpOutput → Type 0
Faces f s =
    (s.out.dev.pixel_offset ≡ s.alvo.pixel_offset)
    × (s.out.dev.format ≡ f)
    × (0 < max_pixels s.out.dev)
    × ((s.alvo.pixel_offset + s.alvo.pixel_count) * channels f < 4294967296)

-- Each node's datagrams, from its next sequence number and its first byte on, give the bytes of its
-- own pixels.
abbrev pub AllReceive :
    {A : Type 0}
    → ColorFormat
    → List PixelColor
    → List (Saida A DdpOutput)
    → List DdpOutput
    → Type 0
AllReceive f pixels [] [] = Unit
AllReceive f pixels (s ∷ ss) (o ∷ os) =
    (receive s.out.dev.seq (s.alvo.pixel_offset * channels f) o.wire
      ≡ some (format_payload f (slice_of pixels s.alvo)))
    × AllReceive f pixels ss os
AllReceive f pixels _ _ = ⊥

module _ (accepts : ℕ → Bool) (all : (k : ℕ) → accepts k ≡ true) where
  node-receives :
      {A : Type 0} (f : ColorFormat) (frame : LogicalFrame) (s : Saida A DdpOutput)
      → Faces f s
      → let (o, r) = answer (ddp_output accepts) false frame s in
        (r ≡ none)
        × (receive s.out.dev.seq (s.alvo.pixel_offset * channels f) o.wire
            ≡ some (format_payload f (slice_of frame.pixels s.alvo)))
  unfolding send_frame
  node-receives f frame s (offset, format, room, small) =
      let px = slice_of frame.pixels s.alvo in
      let d = s.out.dev in
      let short : length px ≤ s.alvo.pixel_count =
        omega (arith, length-take s.alvo.pixel_count (drop s.alvo.pixel_offset frame.pixels)) in
      let wide =
        mul_mono (s.alvo.pixel_offset + length px) (s.alvo.pixel_offset + s.alvo.pixel_count)
          (channels f) (omega (arith, short)) in
      let fits : (s.alvo.pixel_offset + length px) * channels f < 4294967296 =
        omega (arith, wide, small) in
      let (done, bytes) = send_pixels-receive accepts all px d room (
        subst (λ n. (n + length px) * channels d.format < 4294967296) (sym offset)
          (subst (λ g. (s.alvo.pixel_offset + length px) * channels g < 4294967296) (sym format)
            fits)) in
      (
        ap answer_of done,
        subst
            (λ n.
              receive d.seq (n * channels f) (send_pixels accepts px d).datagrams
              ≡ some (format_payload f px))
            offset
            (subst
              (λ g.
                receive d.seq (d.pixel_offset * channels g) (send_pixels accepts px d).datagrams
                ≡ some (format_payload g px))
              format bytes),
      )

  nodes-AllReceive :
      {A : Type 0} (f : ColorFormat) (frame : LogicalFrame) (ss : List (Saida A DdpOutput))
      → All (Faces f) ss
      → AllReceive f frame.pixels ss (map (λ s. (answer (ddp_output accepts) false frame s).0) ss)
        × (first_error (map (λ s. (answer (ddp_output accepts) false frame s).1) ss) ≡ none)
  nodes-AllReceive f frame [] h = (tt, refl)
  nodes-AllReceive f frame (s ∷ ss) (h, rest) =
      let (fine, bytes) = node-receives f frame s h in
      let (further, no_error) = nodes-AllReceive f frame ss rest in
      ((bytes, further), rw fine no_error)

  -- On sockets that take every datagram, if the targets of a manager share the pixels of a frame
  -- out, each DDP output starts at its target's first pixel and has room for a pixel in a
  -- datagram, byte offsets stay below 2^32, and no blackout is on, then `send` succeeds, what each
  -- node receives at its own byte offset are the bytes of its own pixels of the frame, corrected
  -- where there is a table, and the pixels of all the nodes together are the corrected frame.
  pub send-AllReceive :
      {A F : Type 0} (f : ColorFormat) (limit : ℕ) (m : OutputManager A F DdpOutput)
      (frame : LogicalFrame)
      → IsOpen limit (length frame.pixels) m
      → m.blackout ≡ false
      → All (Faces f) m.saidas
      → let (m', r) = send (ddp_output accepts) m frame in
        let shown = corrected m.lut frame.pixels in
        (r ≡ none)
        × AllReceive f shown m.saidas (map (λ s. s.out) m'.saidas)
        × (concat (map (slice_of shown) (map (λ s. s.alvo) m.saidas)) ≡ shown)
  send-AllReceive f limit m frame w off faces =
      let shown = corrected m.lut frame.pixels in
      let out = ddp_output accepts in
      let ((outs, first, b, alvos, again), joined) = send-Sends out limit m frame w in
      let (bytes, no_error) = nodes-AllReceive f (framed frame shown) m.saidas faces in
      (
        first
            ∙ subst
                (λ b.
                  first_error (map (λ s. (answer out b (framed frame shown) s).1) m.saidas) ≡ none)
                (sym off) no_error,
        subst (AllReceive f shown m.saidas)
            (sym (
              subst
                (λ b.
                  map (λ s. s.out) (send out m frame).0.saidas
                  ≡ map (λ s. (answer out b (framed frame shown) s).0) m.saidas)
                off outs))
            bytes,
        joined,
      )
