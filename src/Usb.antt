-- ===== src/Usb.antt =====
-- usb/: the xHCI host controller driver (xhci.c) and the layers above it.
--
-- A ring of transfer request blocks is the list of its entries. Pointers are addresses of 32 bits, and
-- physical addresses equal virtual ones, as in the build without VIRT_TO_PHYS. What the controller answers and
-- what it writes to the event ring and to memory are parameters. The text that goes to the serial line, the dumps
-- and the waits that only count are left out.
pub mod Command
pub mod Events
pub mod Order
pub mod Queue
pub mod Completion
pub mod Handover
pub mod Published
pub mod Program
pub mod Slot
pub mod Transfer
pub mod Descriptors
pub mod Probe
pub mod Host
pub mod Clobber
pub mod Interfaces
mod Tests
