-- ===== src/Usb/Tests.antt =====
-- usb/: the event ring with two events, a command ring at its end, and the descriptors of an Ethernet adapter.
use os_from_scratch_graphic.Prelude.{
  ℕ, zero, suc, ◌+◌, ◌*◌, ◌%◌, ◌≡◌, ◌≢◌, refl, true, false, none, some, List, [], ◌∷◌, arith,
  length-replicate, replicate, get_or, set,
}
use os_from_scratch_graphic.Endian.{Bytes}
use os_from_scratch_graphic.Memory.{Memory}
use os_from_scratch_graphic.Usb.Command.{Trb, no_trb, Command}
use os_from_scratch_graphic.Usb.Events.{
  Events, Xhci, op_register, erdp_with_cycle, xhci_wait_for_command_completion,
}
use os_from_scratch_graphic.Usb.Order.{IsRing, stamp, write_event, write_event-IsRing}
use os_from_scratch_graphic.Usb.Queue.{arrives, looks, ring_run, queue_run, ring_run-eq-queue_run}
use os_from_scratch_graphic.Usb.Completion.{PointsTo, xhci_wait_for_command_completion-completes}
use os_from_scratch_graphic.Usb.Published.{Published}
use os_from_scratch_graphic.Usb.Descriptors.{found_net}
use os_from_scratch_graphic.Usb.Interfaces.{laid, is_net, declares_net, found_net-laid}
use os_from_scratch_graphic.Usb.Program.{xhci_program_event_ring}
use os_from_scratch_graphic.Usb.Clobber.{last_written, xhci_program_event_ring-overwrites}

get_or-replicate : {A : Type 0} (n i : ℕ) (a : A) → get_or (replicate n a) i a ≡ a
get_or-replicate zero i a = refl
get_or-replicate (suc n) zero a = refl
get_or-replicate (suc n) (suc i) a = get_or-replicate n i a

-- An event ring at 1 MiB.
unfoldable fresh : Events
fresh = record {
  er_buffer = 0x100000;
  ring = replicate 256 no_trb;
  erst = 0x101000;
  erst_size = 1;
  er_dequeue_idx = 0;
  er_expected_cycle = 1;
}

fresh-IsRing : IsRing fresh 0 []
unfolding fresh
fresh-IsRing = record {
  size = length-replicate 256 no_trb;
  idx = refl;
  cycle = refl;
  few = omega arith;
  entries = λ k l. get_or-replicate 256 ((0 + k) % 256) no_trb;
  marked = λ k l. absurd (omega arith);
}

-- A change of a port, and the completion of the command in the first entry of the ring at 2 MiB, with code 1.
abbrev port_change : Trb
port_change = record { a = 0x01000000; b = 0; c = 0x01000000; d = 34 * 1024 }

abbrev completion : Trb
completion = record { a = 0x200000; b = 0; c = 0x01000000; d = 33 * 1024 }

-- The driver looks at an empty ring, the controller has two events, and the driver looks again.
ring_run-eq-queue_run_example :
    ring_run 0 fresh (looks ∷ (arrives port_change ∷ (arrives completion ∷ (looks ∷ []))))
    ≡ queue_run [] (looks ∷ (arrives port_change ∷ (arrives completion ∷ (looks ∷ []))))
ring_run-eq-queue_run_example =
    ring_run-eq-queue_run (looks ∷ (arrives port_change ∷ (arrives completion ∷ (looks ∷ []))))
      fresh 0 [] fresh-IsRing (omega arith, (omega arith, tt))

unfoldable two_events : Events
two_events = write_event (write_event fresh 0 port_change) 1 completion

two_events-IsRing : IsRing two_events 0 (stamp 0 port_change ∷ (stamp 1 completion ∷ []))
unfolding two_events
two_events-IsRing =
    write_event-IsRing (write_event fresh 0 port_change) 0 (stamp 0 port_change ∷ []) completion
      (write_event-IsRing fresh 0 [] port_change fresh-IsRing (omega arith) (omega arith))
      (omega arith) (omega arith)

unfoldable ring : Command
ring = record {
  cmd_ring = 0x200000;
  trbs = replicate 256 no_trb;
  pending = replicate 256 true;
  head = 255;
  cycle = 1;
  tokens = replicate 256 0;
  token_counter = 7;
  last_start = none;
  last_count = 0;
  last_token = 0;
}

abbrev zeros : Memory
zeros p = 0

unfoldable machine : Xhci
machine = record {
  context = record { phys_base = 0xfebf0000; cap_is_io = false; caplen = 0x40; num_ports = 8 };
  command = ring;
  events = two_events;
  dcbaa = 0;
  dev_ctx = 0;
  ep0_ring = 0;
  ep0_rst = 0;
  slot_enabled = false;
  hw_enable = true;
  mem = zeros;
  heap = 0x300000;
  writes = [];
  clock = 0;
}

machine_ready : machine.events.er_buffer ≢ 0
unfolding machine two_events fresh
machine_ready = omega arith

machine_erst : machine.events.erst ≢ 0
unfolding machine two_events fresh
machine_erst = omega arith

machine-PointsTo : PointsTo machine.command (stamp 1 completion) 0
unfolding machine ring
machine-PointsTo = (omega arith, omega arith, omega arith)

-- The port event is passed over, and the completion ends the wait.
xhci_wait_for_command_completion-completes_example :
    (after : Xhci) × ((xhci_wait_for_command_completion (λ i s. s) machine 2000 ≡ (some 1, after))
      × (IsRing after.events 2 []
          × (after.command
              ≡ record (machine.command) { pending = set machine.command.pending 0 false })))
unfolding machine
xhci_wait_for_command_completion-completes_example =
    xhci_wait_for_command_completion-completes (λ i s. s) (λ i s. refl) machine 2000 0 0
      (stamp 0 port_change ∷ []) (stamp 1 completion) [] machine_ready two_events-IsRing (refl, tt)
      refl machine-PointsTo (omega arith)

-- A configuration, an interface of the class 0x02 and an endpoint.
abbrev adapter : List Bytes
adapter =
    (9 ∷ 2 ∷ 25 ∷ 0 ∷ 1 ∷ 1 ∷ 0 ∷ 0x80 ∷ 50 ∷ [])
    ∷ ((9 ∷ 4 ∷ 0 ∷ 0 ∷ 1 ∷ 2 ∷ 6 ∷ 0 ∷ 0 ∷ []) ∷ ((7 ∷ 5 ∷ 0x81 ∷ 3 ∷ 16 ∷ 0 ∷ 9 ∷ []) ∷ []))

found_net-laid_example : found_net (laid adapter (4 ∷ [])) 25 ≡ some true
unfolding declares_net is_net
found_net-laid_example =
    found_net-laid adapter (4 ∷ [])
      ((omega arith, refl), ((omega arith, refl), ((omega arith, refl), tt)))

-- A controller whose registers all read as 0.
xhci_program_event_ring-overwrites_example :
    let y = (xhci_program_event_ring (λ ws r. 0) machine).1 in
    (last_written (op_register machine 0x30) y.writes ≡ some (erdp_with_cycle machine.events))
    × (last_written (op_register machine 0x38) y.writes ≡ some (erdp_with_cycle machine.events))
xhci_program_event_ring-overwrites_example =
    xhci_program_event_ring-overwrites (λ ws r. 0) machine machine_ready machine_erst
