-- ===== src/Kernel/Boot.antt =====
-- kernel.c: what kmain does with the network cards.
use os_from_scratch_graphic.Prelude.{
  ℕ, ◌+◌, ◌*◌, ◌^◌, ◌≡◌, refl, true, List, [], ◌∷◌, ◌++◌, take, replicate, if◌then◌else◌,
}
use os_from_scratch_graphic.Prelude.Int.{ℤ, pos}
use os_from_scratch_graphic.Endian.{Bytes, htons, ntohs, ntohl, le16}
use os_from_scratch_graphic.Text.Literals.{codes}
use os_from_scratch_graphic.Dns.Cache.{is_zero}
use os_from_scratch_graphic.Dns.Query.{Stack}
use os_from_scratch_graphic.Net.Arp.{net_set_ipv4}
use os_from_scratch_graphic.Net.Rx.{Datagram, net_rx, ip_rx, udp_rx}
use os_from_scratch_graphic.Usb.Host.{Nic, usb_nic_init, usb_nic_enable, usb_nic_inject_test_frame}

-- a.b.c.d as kmain builds it.
abbrev pub address : ℕ → ℕ → ℕ → ℕ → ℕ
address a b c d = a * 2 ^ 24 + b * 2 ^ 16 + c * 2 ^ 8 + d

-- test_frame: the two addresses and the type, the header of IP, the one of UDP, and the first 12 bytes of the text.
abbrev pub test_frame : Bytes
test_frame =
    (0x02 ∷ 0 ∷ 0 ∷ 0 ∷ 0 ∷ 0x01 ∷ 0x02 ∷ 0 ∷ 0 ∷ 0 ∷ 0 ∷ 0x02 ∷ 0x08 ∷ 0x00 ∷ [])
    ++ ((0x45 ∷ 0 ∷ [])
        ++ (le16 (htons (20 + 8 + 12))
            ++ ((0 ∷ 0 ∷ 0 ∷ 0 ∷ 64 ∷ 17 ∷ 0 ∷ 0 ∷ 192 ∷ 168 ∷ 31 ∷ 235 ∷ 10 ∷ 0 ∷ 2 ∷ 15 ∷ [])
                ++ (le16 (htons 6000)
                    ++ (le16 (htons 6001)
                        ++ (le16 (htons (8 + 12))
                            ++ (0
                                ∷ (0
                                    ∷ (take 12 (codes "{\"title\":\"USB\"}")
                                        ++ replicate 10 0)))))))))

-- What rtl8139_init returned decides: the address of the guest is set, or the USB card is used and given the frame.
unfoldable pub bring_up : ℤ → Nic → Stack → Nic × Stack × List Datagram
bring_up initialized n s =
    let net =
      net_set_ipv4 s.host.net (address 10 0 2 15) (address 255 255 255 0) (address 10 0 2 2) in
    let usb = usb_nic_enable (usb_nic_init n) in
    let (s1, got) = usb_nic_inject_test_frame usb s test_frame (42 + 12) in
    if is_zero initialized
    then (n, record s { host = record (s.host) { net = net } }, [])
    else (usb, s1, got)

-- The frame reaches UDP whatever the state of the stack is, and changes none of it; its text is cut.
pub bring_up-injects :
    (n : Nic) (s : Stack)
    → bring_up (pos 1) n s ≡ (
      record n { use_usb_nic = true; has_callback = true },
      s,
      record {
        src_ip = address 192 168 31 235;
        src_port = 6000;
        payload = codes "{\"title\":\"US" ++ replicate 10 0;
        len = 12;
      }
          ∷ [],
    )
unfolding bring_up usb_nic_inject_test_frame net_rx ip_rx udp_rx htons ntohs ntohl
bring_up-injects n s = refl
