-- ===== src/Kernel/Mouse.antt =====
-- kernel.c: mouse_read_packet, three bytes of the mouse to one movement, and the rounded boxes.
--
-- The answers of the two ports are arguments.
use os_from_scratch_graphic.Prelude.{
  ℕ, ◌+◌, ◌-◌, ◌*◌, Option, none, some, set, get_or, leb, ltb, ◌==◌, bit_and, if◌then◌else◌,
}
use os_from_scratch_graphic.Prelude.Int.{ℤ, pos, negsuc, pos_part, ◌+ℤ◌, ◌-ℤ◌, ◌*ℤ◌}
use os_from_scratch_graphic.Endian.{Bytes}
use os_from_scratch_graphic.Memory.{Memory}
use os_from_scratch_graphic.Graphics.{Mode, put_pixel, draw_rect, for_below}

-- The static variables.
pub record Decoder : Type 0 where
  pub pkt : Bytes
  pub idx : ℕ

pub record Movement : Type 0 where
  pub dx : ℤ
  pub dy : ℤ
  pub buttons : ℕ

-- `(signed char)`
abbrev pub signed_char : ℕ → ℤ
signed_char b = if ltb b 128 then pos b else negsuc (255 - b)

-- `inb(0x64)` and `inb(0x60)` give `status` and `data`.
unfoldable pub mouse_read_packet : ℕ → ℕ → Decoder → Option Movement × Decoder
mouse_read_packet status data_byte k =
    let pkt = set k.pkt k.idx data_byte in
    if bit_and status 1 == 0
    then (none, k)
    else if ltb (k.idx + 1) 3
    then (none, record { pkt = pkt; idx = k.idx + 1 })
    else (
      some (record {
        dx = signed_char (get_or pkt 1 0);
        dy = pos 0 -ℤ signed_char (get_or pkt 2 0);
        buttons = get_or pkt 0 0;
      }),
      record { pkt = pkt; idx = 0 },
    )

-- The four pixels of one step of the corners.
unfoldable pub corner_pixels : Mode → Memory → ℤ → ℤ → ℤ → ℤ → ℤ → ℕ → ℕ → ℕ → Memory
corner_pixels d m x y w h r col dx dy =
    let m1 = put_pixel d m (x +ℤ r -ℤ pos dx) (y +ℤ r -ℤ pos dy) col in
    let m2 = put_pixel d m1 (x +ℤ w -ℤ r +ℤ pos dx) (y +ℤ r -ℤ pos dy) col in
    let m3 = put_pixel d m2 (x +ℤ r -ℤ pos dx) (y +ℤ h -ℤ r +ℤ pos dy) col in
    put_pixel d m3 (x +ℤ w -ℤ r +ℤ pos dx) (y +ℤ h -ℤ r +ℤ pos dy) col

-- A radius that is not positive has no corners.
unfoldable pub draw_rounded : Mode → Memory → ℤ → ℤ → ℤ → ℤ → ℤ → ℕ → Memory
draw_rounded d m x y w h r col =
    let m1 = draw_rect d m (x +ℤ r) y (w -ℤ pos 2 *ℤ r) h col in
    let m2 = draw_rect d m1 x (y +ℤ r) r (h -ℤ pos 2 *ℤ r) col in
    let m3 = draw_rect d m2 (x +ℤ w -ℤ r) (y +ℤ r) r (h -ℤ pos 2 *ℤ r) col in
    let n = pos_part r in
    for_below n
      (λ dy m'.
        for_below n
          (λ dx m''.
            if leb (dx * dx + dy * dy) (n * n)
            then corner_pixels d m'' x y w h r col dx dy
            else m'')
          m')
      m3
