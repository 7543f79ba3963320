-- ===== src/Usb/Command.antt =====
-- usb/xhci.c: the command ring. A slot is filled by xhci_prepare_control_transfer and handed over, with its
-- cycle bit, by xhci_submit_command_ring.
use os_from_scratch_graphic.Prelude.{
  ℕ, zero, suc, ◌+◌, ◌-◌, ◌*◌, ◌/◌, ◌%◌, ◌^◌, Bool, true, false, not, ◌&&◌, Option, none, some,
  List, get_or, set, replicate, leb, ltb, ◌==◌, bit_or, if◌then◌else◌,
}
use os_from_scratch_graphic.Alloc.{kmalloc}

-- struct xhci_trb
pub record Trb : Type 0 where
  pub a : ℕ
  pub b : ℕ
  pub c : ℕ
  pub d : ℕ

abbrev pub no_trb : Trb
no_trb = record { a = 0; b = 0; c = 0; d = 0 }

-- XHCI_CMD_RING_TRBS
abbrev pub ring_trbs : ℕ
ring_trbs = 256

-- The globals of the ring. `cmd_ring` is its address, 0 before it is allocated; `last_start` is none for -1.
pub record Command : Type 0 where
  pub cmd_ring : ℕ
  pub trbs : List Trb
  pub pending : List Bool
  pub head : ℕ
  pub cycle : ℕ
  pub tokens : List ℕ
  pub token_counter : ℕ
  pub last_start : Option ℕ
  pub last_count : ℕ
  pub last_token : ℕ

abbrev pub trb_at : List Trb → ℕ → Trb
trb_at trbs i = get_or trbs i no_trb

unfoldable pub xhci_cmd_mark_pending : Command → ℕ → Command
xhci_cmd_mark_pending r idx =
    if leb ring_trbs idx then r else record r { pending = set r.pending idx true }

-- Whether there is a ring afterwards, the ring and the heap.
unfoldable pub xhci_init_command_ring : Command → ℕ → Bool × Command × ℕ
xhci_init_command_ring r heap =
    let (p, heap') = kmalloc heap (ring_trbs * 16) in
    if not (r.cmd_ring == 0) then (true, r, heap) else if p == 0 then (false, r, heap') else (
      true,
      record r {
        cmd_ring = p;
        trbs = replicate ring_trbs no_trb;
        pending = replicate ring_trbs false;
        tokens = replicate ring_trbs 0;
        head = 0;
        cycle = 1;
      },
      heap',
    )

-- The low and the high half of a `(uint64_t)` address, which has 32 bits.
abbrev pub low_word : ℕ → ℕ
low_word p = p % 2 ^ 32

abbrev pub high_word : ℕ → ℕ
high_word p = p / 2 ^ 32 % 2 ^ 32

-- The types SETUP_STAGE, DATA_STAGE and STATUS_STAGE, in the place of the type.
abbrev pub setup_trb : ℕ → Trb
setup_trb phys = record { a = low_word phys; b = high_word phys; c = 8; d = 2 * 2 ^ 10 }

abbrev pub data_trb : ℕ → ℕ → Bool → Trb
data_trb phys len direction_in = record {
  a = low_word phys;
  b = high_word phys;
  c = len % 2 ^ 32;
  d = 1 * 2 ^ 10 + (if direction_in then 2 else 0);
}

abbrev pub status_trb : Trb
status_trb = record { a = 0; b = 0; c = 0; d = 3 * 2 ^ 10 }

-- The builders for one slot.
unfoldable pub build : Command → ℕ → Trb → Command
build r idx t = if r.cmd_ring == 0 then r else record r { trbs = set r.trbs idx t }

abbrev pub xhci_build_setup_trb : Command → ℕ → ℕ → ℕ → Command
xhci_build_setup_trb r idx phys len = build r idx (record (setup_trb phys) { c = len })

abbrev pub xhci_build_data_trb : Command → ℕ → ℕ → ℕ → Bool → Command
xhci_build_data_trb r idx phys len direction_in = build r idx (data_trb phys len direction_in)

abbrev pub xhci_build_status_trb : Command → ℕ → Command
xhci_build_status_trb r idx = build r idx status_trb

abbrev pub xhci_build_command_trb : Command → ℕ → ℕ → ℕ → ℕ → Command
xhci_build_command_trb r idx type lo hi =
    build r idx (record { a = lo; b = hi; c = 0; d = type * 2 ^ 10 % 2 ^ 32 })

-- `if(idx >= XHCI_CMD_RING_TRBS) idx = 0;`
abbrev pub wrapped : ℕ → ℕ
wrapped idx = if leb ring_trbs idx then 0 else idx

-- The entries that a transfer writes from the head on: two, or three with data.
unfoldable pub stage : Command → ℕ → Bool → ℕ → ℕ → Bool → Command
stage r setup_phys has_data data_phys len direction_in =
    let start = r.head in
    let second = wrapped (start + 1) in
    let third = wrapped (second + 1) in
    let trbs = set r.trbs start (setup_trb setup_phys) in
    if has_data && ltb 0 len
    then record r {
      trbs = set (set trbs second (data_trb data_phys len direction_in)) third status_trb;
      last_start = some start;
      last_count = 3;
    }
    else record r { trbs = set trbs second status_trb; last_start = some start; last_count = 2 }

-- The number of entries, or none for -1. `data_v` is the address of the data, 0 for none.
unfoldable pub xhci_prepare_control_transfer :
    Command → ℕ → ℕ → ℕ → ℕ → ℕ → Bool → Option ℕ × Command × ℕ
xhci_prepare_control_transfer r heap setup_phys data_v data_phys len direction_in =
    let (ok, r1, heap') = xhci_init_command_ring r heap in
    let staged = stage r1 setup_phys (not (data_v == 0)) data_phys len direction_in in
    if ok then (some staged.last_count, staged, heap') else (none, r1, heap')

-- The cycle bit in `d`.
abbrev pub with_cycle : ℕ → ℕ → ℕ
with_cycle cycle d = if cycle % 2 == 1 then bit_or d 1 else d / 2 * 2

-- `last_cmd_start + i`, less the size of the ring from its end on.
abbrev pub slot_of : ℕ → ℕ → ℕ
slot_of start i = if leb ring_trbs (start + i) then start + i - ring_trbs else start + i

-- One entry handed over: token, cycle bit and pending mark.
abbrev pub hand_over : Command → ℕ → ℕ → Command
hand_over r token dst =
    xhci_cmd_mark_pending
      (record r {
        trbs = set r.trbs dst (record (trb_at r.trbs dst) {
          a = token;
          d = with_cycle r.cycle (trb_at r.trbs dst).d;
        });
        tokens = set r.tokens dst token;
      })
      dst

-- `for(int i=0;i<last_cmd_trb_count;i++)`, with `n` entries left.
unfoldable pub hand_over_all : Command → ℕ → ℕ → ℕ → ℕ → Command
hand_over_all r start token i zero = r
hand_over_all r start token i (suc n) =
    hand_over_all (hand_over r token (slot_of start i)) start token (suc i) n

-- The head behind the entries, and the cycle bit turned where it wraps.
unfoldable pub advance : Command → Command
advance r =
    let head = r.head + r.last_count in
    if leb ring_trbs head
    then record r { head = head - ring_trbs; cycle = (r.cycle + 1) % 2 }
    else record r { head = head }

-- The part of xhci_submit_command_ring that finalizes the entries from a start on; none for its return of -1.
abbrev pub finalize_from : Command → Option ℕ → Option Command
finalize_from r none = none
finalize_from r (some start) =
    let token = (r.token_counter + 1) % 2 ^ 32 in
    let done = hand_over_all (record r { token_counter = token }) start token 0 r.last_count in
    if r.last_count == 0 then none else some (record (advance done) { last_token = token })

unfoldable pub finalize : Command → Option Command
finalize r = if r.cmd_ring == 0 then none else finalize_from r r.last_start

-- The dry run: the entries are marked and nothing is handed over.
unfoldable pub mark_all : Command → ℕ → ℕ → ℕ → Command
mark_all r start i zero = r
mark_all r start i (suc n) = mark_all (xhci_cmd_mark_pending r (slot_of start i)) start (suc i) n
