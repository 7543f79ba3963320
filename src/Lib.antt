-- ===== src/Lib.antt =====
-- The network and system parts of a small x86 operating system in C.
--
-- The program is a freestanding kernel with a graphical desktop. Its browser asks dns.c for an
-- address and http.c for a page; http.c uses the one socket of tcp.c; dns.c and tcp.c send through
-- net.c, which adds IP and Ethernet headers, resolves addresses by ARP, and hands received frames
-- up again. endian.h and string.c serve all of them.
--
-- Files and what they model:
--   Endian     endian.h: htons, htonl and ip_checksum, as functions on words and runs of bytes.
--   Memory     string.c: memset, memcpy and memmove, on an address space.
--   Text       string.c: strlen, strchr, strstr, atoi, strcmp, strncmp, strncpy and snprintf.
--   Net        net.c: State holds the interface, the ARP cache, the packets that wait for an
--              address and the frames sent; Arp, Send and Rx hold the functions, under the names
--              of the source. net_rx acts on the stack as a whole, because it calls dns_on_response
--              and tcp_on_rx.
--   Tcp        tcp.c: State holds the socket over net.c's state; Segment is tcp_send_segment, Api
--              the calls of the application, Rx is tcp_on_rx.
--   Dns        dns.c: Cache holds the cache and the outstanding queries, Query the query packet and
--              dns_query_async, Response is dns_on_response, Wait dns_resolve.
--   Http       http.c: Parse holds the parsers of addresses and status lines, Redirect what becomes of
--              an answer, Client the exchange over the calls of tcp.c. What each rtl8139_poll brings
--              in is a parameter.
--   Rtl8139    rtl8139.c: Driver holds every function of the driver. What the ports answer is a
--              parameter, and the writes to them are a list. nic_tx takes the memory of its caller.
--   Graphics   graphics.c: put_pixel, get_pixel, draw_rect and xor_cursor on a memory of words; Draw
--              holds init_graphics, draw_char and draw_string, Font the table of font.c.
--   Exec       exec_elf.c: elf32_load is elf32_load_and_run up to the call of the entry.
--   Syscalls   syscalls.c: the console, the calls and the interrupt table; Stub is the entry of int
--              0x80 in irqstubs.S, Run is elf32_load_and_run, with the program as a parameter.
--   Alloc      kmalloc_stub.c: the allocator and the random numbers.
--   E1000e     drivers/e1000e.c: Driver holds every function of the driver, which a build takes in
--              the place of rtl8139.c.
--   Usb        usb/xhci.c: Command holds the command ring, Events the event ring and the waits,
--              Program the registers of the event ring, Slot the slot and the device context,
--              Transfer the control transfers, Descriptors the enumeration, Probe the search for
--              the controller. Host holds usb_host.c, usb_rndis.c, usb_core.c and nic_stub.c. The
--              reads of registers and what the controller writes to memory are parameters. Queue is
--              the queue that the event ring implements.
--   Pci        pci.c: the configuration reads and pci_find_device; what the bus answers is a
--              parameter. Scan is the search of xhci.c and e1000e.c for a class of devices.
--   Kernel     kernel.c: Cursor holds the software cursor, which saves the pixels under it;
--              Calculator holds calc_add to calc_eval, Url parse_url, Mouse the decoder of mouse
--              packets and the rounded boxes; Desktop the welcome screen and the desktop with its
--              menu, Keys the window of the calculator, Browser the fetch and the lines of a page,
--              Viewer the windows of the browser and of the viewer of JSON, Boot what kmain does
--              with the network cards. Menu is a machine of the start menu that the desktop
--              implements. Ports is mouse.c. The loops of the windows take the movements of the
--              mouse as a list.
--   Demo       net_demo.c: the datagram sent, and the titles shown of one received.
--
-- Correspondence. A function that changes globals takes them as a record and returns the new
-- record. A `uint16_t` or `uint32_t` is a natural number with its wrap-around written out. A frame
-- or a packet is the list of its bytes, and a header the concatenation of its fields in the order
-- of the packed struct; a word lies in it lowest byte first, as on the machine. A read behind the
-- end of a modelled buffer gives 0. A text is a list of bytes that ends at its first zero. A return
-- of 0 or -1 that stands for failure is `none` or the number, as noted at the function. The buffers
-- of net_send_ip, net_send_udp_ipv4 and tcp_send_segment take 1480, 1472 and 1460 bytes of payload and
-- no length is tested: a longer one sets the mark `overrun` of net.c's state, behind which nothing means
-- anything. What the memory in front of the table of font.c holds, which a char from 128 on reads, is a
-- parameter.
--
-- Bounds. Tables keep the sizes of the source (8 ARP entries, 8 waiting packets, 8 cached names, 8
-- queries). Loops over a table or a text recurse on it. Four loops run on fuel: the fold of the
-- checksum, for which 2 rounds are enough on 32 bits; the labels that pack_name writes, for which
-- one round more than the name has bytes is enough; the labels that the response parser skips, for
-- which the length of the packet is enough; the rounds of the calculator, for which the length of
-- the expression is enough. The digits of a result are written with fuel 20, the size of the
-- buffer, and a result that fits an int has fewer. The search of pci.c takes the number of buses
-- that it may visit as fuel, 256 for one round over all of them. The loops of http.c and rtl8139.c
-- that poll the hardware run on fuel too: 300000 rounds wait for a connection and 20000
-- for an answer of DNS, as in the source; the
-- receive loop of http.c, the wait for the reset of the card, the loop over the receive ring and the
-- search of the boot tags have no bound in the source, and `none` is a loop that has not ended. Six
-- requests are made at most, as in the source. The digits of an exit code have 16 places.
-- The waits of xhci.c take as many looks as the source, timeout * 1000 / 10, and its sweep over the
-- registers 122 rounds; the walk over a configuration descriptor has one round more than the
-- descriptor has bytes, and each round passes two bytes at least. A loop of a window that has no
-- movement left is `none`, as it has not ended; a wait of mouse.c for its controller has fuel.
--
-- Not modelled: prints on the serial line, dumps, and waits that only count; the bytes of a buffer
-- that a call leaves uninitialised; the endless loop of kmain over the windows, and the placeholders
-- of net/eth.c and net/dhcp.c. json.c does not fit json.h, the jsmn library, whose tokens are a
-- parameter of the viewer. tls_mbedtls.c is glue for mbedTLS, a parameter of the browser.
pub mod Prelude
pub mod Endian
pub mod Memory
pub mod Text
pub mod Net
pub mod Tcp
pub mod Dns
pub mod Alloc
pub mod Demo
pub mod E1000e
pub mod Exec
pub mod Graphics
pub mod Http
pub mod Kernel
pub mod Pci
pub mod Rtl8139
pub mod Syscalls
pub mod Usb
