-- ===== src/Usb/Events.antt =====
-- usb/xhci.c: the event ring.
use os_from_scratch_graphic.Prelude.{
  ℕ, zero, suc, ◌+◌, ◌-◌, ◌*◌, ◌/◌, ◌%◌, ◌^◌, Bool, true, false, not, ◌&&◌, ◌||◌, Option, none,
  some, List, [], ◌∷◌, set, leb, ltb, ◌==◌, bit_or, if◌then◌else◌,
}
use os_from_scratch_graphic.Memory.{Memory, memcpy}
use os_from_scratch_graphic.Usb.Command.{Trb, no_trb, ring_trbs, Command, trb_at}

-- A read or a write of the controller: a port, or an address.
pub data Access : Type 0 where
  port mmio : ℕ → Access

-- The globals of the event ring. `er_buffer` and `erst` are addresses, 0 before they are allocated.
pub record Events : Type 0 where
  pub er_buffer : ℕ
  pub ring : List Trb
  pub erst : ℕ
  pub erst_size : ℕ
  pub er_dequeue_idx : ℕ
  pub er_expected_cycle : ℕ

-- struct xhci_context, with the place on the bus left out. `op_base` follows from it.
pub record Context : Type 0 where
  pub phys_base : ℕ
  pub cap_is_io : Bool
  pub caplen : ℕ
  pub num_ports : ℕ

-- The state of the driver, with the memory, the heap, the writes to the controller, last first, and the number of
-- looks at the event ring so far.
pub record Xhci : Type 0 where
  pub context : Context
  pub command : Command
  pub events : Events
  pub dcbaa : ℕ
  pub dev_ctx : ℕ
  pub ep0_ring : ℕ
  pub ep0_rst : ℕ
  pub slot_enabled : Bool
  pub hw_enable : Bool
  pub mem : Memory
  pub heap : ℕ
  pub writes : List (Access × ℕ)
  pub clock : ℕ

-- An operational register.
abbrev pub op_register : Xhci → ℕ → Access
op_register x off =
    if x.context.cap_is_io
    then port ((x.context.phys_base + x.context.caplen + off) % 2 ^ 16)
    else mmio ((x.context.phys_base + x.context.caplen + off) % 2 ^ 32)

abbrev pub cap_register : Xhci → ℕ → Access
cap_register x off =
    if x.context.cap_is_io
    then port ((x.context.phys_base + off) % 2 ^ 16)
    else mmio ((x.context.phys_base + off) % 2 ^ 32)

abbrev pub xhci_op_write32 : Xhci → ℕ → ℕ → Xhci
xhci_op_write32 x off val = record x { writes = (op_register x off, val) ∷ x.writes }

-- A value of 64 bits, the low half first.
abbrev pub xhci_op_write64 : Xhci → ℕ → ℕ → Xhci
xhci_op_write64 x off val =
    xhci_op_write32 (xhci_op_write32 x off (val % 2 ^ 32)) (off + 4) (val / 2 ^ 32 % 2 ^ 32)

abbrev pub xhci_ring_doorbell : Xhci → ℕ → ℕ → Xhci
xhci_ring_doorbell x db_index value = xhci_op_write32 x (0x1000 + db_index * 4) value

-- `dw3 != 0 && trb_cycle == (er_expected_cycle & 0x1u)`
abbrev pub has_event : Events → Bool
has_event e =
    let dw3 = (trb_at e.ring e.er_dequeue_idx).d in
    not (dw3 == 0) && (dw3 % 2 == e.er_expected_cycle % 2)

-- The entry is zeroed and the dequeue index moves on, with the cycle bit turned where it wraps.
unfoldable pub consume : Events → Events
consume e =
    let ring = set e.ring e.er_dequeue_idx no_trb in
    if leb ring_trbs (e.er_dequeue_idx + 1)
    then record e {
      ring = ring;
      er_dequeue_idx = 0;
      er_expected_cycle = (e.er_expected_cycle + 1) % 2;
    }
    else record e { ring = ring; er_dequeue_idx = e.er_dequeue_idx + 1 }

-- `er_buffer_phys + er_dequeue_idx * 16`
abbrev pub erdp : Events → ℕ
erdp e = e.er_buffer + e.er_dequeue_idx * 16

abbrev pub erdp_with_cycle : Events → ℕ
erdp_with_cycle e = bit_or (erdp e % 2 ^ 32) (e.er_expected_cycle % 2)

-- An entry consumed, and the controller told.
unfoldable pub dequeue : Xhci → Xhci
dequeue x =
    let e = consume x.events in
    xhci_op_write32 (xhci_op_write32 (record x { events = e }) 0x30 (erdp_with_cycle e)) 0x34
      (erdp e / 2 ^ 32 % 2 ^ 32)

-- `actual`: the length in dw2, or all of the data for 0, and no more than the data.
abbrev pub actual_length : ℕ → ℕ → ℕ
actual_length dw2 data_len =
    let n = dw2 % 2 ^ 16 in if n == 0 then data_len else if ltb data_len n then data_len else n

-- The copy of what the device sent.
unfoldable pub copy_in : Memory → ℕ → ℕ → ℕ → Bool → ℕ → Memory
copy_in m data_v user_buf data_len direction_in dw2 =
    if not (data_v == 0) && not (user_buf == 0) && ltb 0 data_len && direction_in
    then memcpy m user_buf data_v (actual_length dw2 data_len)
    else m

-- `timeout_ms * 1000 / 10`
abbrev pub poll_loops : ℕ → ℕ
poll_loops timeout_ms = timeout_ms * 1000 / 10

-- The completion code of a command, the slot that its pointer names, and the slot of its token.
abbrev pub comp_code : Trb → ℕ
comp_code t = t.c / 2 ^ 24 % 2 ^ 8

abbrev pub trb_type : Trb → ℕ
trb_type t = t.d / 2 ^ 10 % 2 ^ 6

abbrev pub is_completion : Trb → Bool
is_completion t = trb_type t == 0x21 || trb_type t == 0x20

unfoldable pub slot_by_pointer : Command → Trb → Option ℕ
slot_by_pointer r t =
    let cmd_ptr = t.b * 2 ^ 32 + t.a in
    if not (cmd_ptr == 0)
      && not (r.cmd_ring == 0)
      && leb r.cmd_ring cmd_ptr
      && ltb cmd_ptr (r.cmd_ring + ring_trbs * 16)
    then some ((cmd_ptr - r.cmd_ring) / 16)
    else none

-- The first slot that has the token, from slot `i` on.
unfoldable pub find_token : List ℕ → ℕ → ℕ → Option ℕ
find_token [] token i = none
find_token (t ∷ ts) token i =
    let rest = find_token ts token (suc i) in if t == token then some i else rest

unfoldable pub slot_by_token : Command → Trb → Option ℕ
slot_by_token r t = if t.a == 0 then none else find_token r.tokens t.a 0

-- What a completion does to the marks and tokens.
unfoldable pub complete : Command → Trb → Command
complete r t = elim (slot_by_pointer r t) [
  | some i ↦ record r { pending = set r.pending i false }
  | none ↦ elim (slot_by_token r t) [
    | some i ↦ record r { pending = set r.pending i false; tokens = set r.tokens i 0 }
    | none ↦ r
  ]
]

-- What the controller writes between two looks: entries of the ring, and data.
module _ (arrive : ℕ → List Trb × Memory → List Trb × Memory) where
  unfoldable pub look : Xhci → Xhci
  look x =
      let (ring, mem) = arrive x.clock (x.events.ring, x.mem) in
      record x { events = record (x.events) { ring = ring }; mem = mem; clock = x.clock + 1 }

  -- Whether a completion was seen within `loops` looks.
  unfoldable pub poll_loop : ℕ → Xhci → ℕ → ℕ → ℕ → Bool → Bool × Xhci
  poll_loop zero x data_v user_buf data_len direction_in = (false, x)
  poll_loop (suc loops) x data_v user_buf data_len direction_in =
      let x1 = look x in
      let t = trb_at x1.events.ring x1.events.er_dequeue_idx in
      let rest = poll_loop loops x1 data_v user_buf data_len direction_in in
      if has_event x1.events
      then (
        true,
        dequeue (record x1 { mem = copy_in x1.mem data_v user_buf data_len direction_in t.c }),
      )
      else rest

  unfoldable pub xhci_poll_event_ring : Xhci → ℕ → ℕ → ℕ → ℕ → Bool → Bool × Xhci
  xhci_poll_event_ring x timeout_ms data_v user_buf data_len direction_in =
      let polled = poll_loop (poll_loops timeout_ms) x data_v user_buf data_len direction_in in
      if x.events.er_buffer == 0 then (false, x) else polled

  -- The completion code, or none for a timeout. An event of another kind is consumed and passed over.
  unfoldable pub wait_loop : ℕ → Xhci → Option ℕ × Xhci
  wait_loop zero x = (none, x)
  wait_loop (suc loops) x =
      let x1 = look x in
      let t = trb_at x1.events.ring x1.events.er_dequeue_idx in
      let passed = wait_loop loops (dequeue x1) in
      let rest = wait_loop loops x1 in
      if not (has_event x1.events)
      then rest
      else if is_completion t
      then (some (comp_code t), dequeue (record x1 { command = complete x1.command t }))
      else passed

  unfoldable pub xhci_wait_for_command_completion : Xhci → ℕ → Option ℕ × Xhci
  xhci_wait_for_command_completion x timeout_ms =
      let waited = wait_loop (poll_loops timeout_ms) x in
      if x.events.er_buffer == 0 then (none, x) else waited
