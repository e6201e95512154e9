-- ===== src/Net/Tests.antt =====
-- Runs of net/ at small inputs, and its theorems at them.
use coffee_os_aurora_refresh.Base.{
  ℕ, ◌+◌, ◌-◌, ◌*◌, ◌≡◌, ◌≢◌, refl, true, false, some, none, List, [], ◌∷◌, ◌++◌, take, drop, Array,
  update, u32, arith,
}
use coffee_os_aurora_refresh.Base.Search.{first}
use coffee_os_aurora_refresh.Base.Bits.{test_bit}
use coffee_os_aurora_refresh.Net.Arp.{ArpEntry, arp_cache_update, arp_lookup}
use coffee_os_aurora_refresh.Net.Arp.Cache.{ticks, lookup-update, lookup-ticks}
use coffee_os_aurora_refresh.Net.Checksum.{
  sum_words, fold_sum, ip_checksum, put_word, ip_checksum-put_word,
}
use coffee_os_aurora_refresh.Net.Tcp.{
  TcpState, TcpSocket, Segment, tcp_rx_push, tcp_rx_take, is_syn_sent, receive_segment,
}
use coffee_os_aurora_refresh.Net.Tcp.Ring.{contents, waiting, RingOk, push-contents, take-contents}
use coffee_os_aurora_refresh.Net.Tcp.Receive.{receive_segment-bytes}
use coffee_os_aurora_refresh.Net.Udp.{UdpSocket, Datagram, udp_open, udp_receive}
use coffee_os_aurora_refresh.Net.Udp.Dispatch.{receive-open}

abbrev mac : List ℕ
mac = 2 ∷ 0 ∷ 0 ∷ 0 ∷ 0 ∷ 1 ∷ []

-- Sixteen entries, all in use.
abbrev full_cache : Array ArpEntry
full_cache i = record { ip = i; mac = mac; ttl = 7; valid = true }

lookup-update_example :
    arp_lookup (arp_cache_update full_cache 0x0a000001 mac) 0x0a000001 ≡ some mac
lookup-update_example = lookup-update full_cache 0x0a000001 mac

lookup-ticks_example : arp_lookup (ticks 7 full_cache) 3 ≡ none
lookup-ticks_example = lookup-ticks 7 full_cache 3 (omega arith) (λ i. omega arith)

-- Two words, of which the second is the checksum's place.
abbrev packet : Array ℕ
packet = update (update (λ i. 0) 0 0x45) 1 0x10

packet_sum : ip_checksum packet (2 * 2) ≡ some 0xbaef
unfolding ip_checksum sum_words fold_sum
packet_sum = refl

ip_checksum-put_word_example : ip_checksum (put_word packet (2 * 1) 0xbaef) (2 * 2) ≡ some 0
ip_checksum-put_word_example =
    ip_checksum-put_word packet 2 1 0xbaef (λ i. ground arith) (omega arith) (omega arith) refl
      packet_sum

-- A ring whose end is reached: two bytes wait, at 4095 and at 0.
abbrev socket : TcpSocket
socket = record {
  state = TcpState.established;
  local_ip = 0x0a00020f;
  local_port = 40000;
  remote_ip = 0x0a000202;
  remote_port = 80;
  seq_send = 9;
  seq_recv = 500;
  rx_buf = update (λ i. 0) 4095 72;
  rx_head = 1;
  rx_tail = 4095;
  open_flag = true;
}

socket-RingOk : RingOk socket
socket-RingOk = record { head_bound = omega arith; tail_bound = omega arith }

push-contents_example :
    (contents (tcp_rx_push socket (5 ∷ 6 ∷ []))
      ≡ contents socket ++ take (4095 - waiting socket) (5 ∷ 6 ∷ []))
    × RingOk (tcp_rx_push socket (5 ∷ 6 ∷ []))
push-contents_example = push-contents (5 ∷ 6 ∷ []) socket socket-RingOk

take-contents_example :
    ((tcp_rx_take 1 socket).0 ≡ take 1 (contents socket))
    × (contents (tcp_rx_take 1 socket).1 ≡ drop 1 (contents socket))
take-contents_example = take-contents 1 socket socket-RingOk

abbrev segment : Segment
segment = record {
  src_port = 80;
  dst_port = 40000;
  seq = 500;
  ack = 9;
  flags = 24;
  bytes = 5 ∷ 6 ∷ [];
}

receive_segment-bytes_example :
    (segment.seq ≡ socket.seq_recv
      → (contents (receive_segment (λ s. true) socket segment)
          ≡ contents socket ++ take (4095 - waiting socket) (5 ∷ 6 ∷ []))
        × ((receive_segment (λ s. true) socket segment).seq_recv ≡ u32 (socket.seq_recv + 2)))
    × (segment.seq ≢ socket.seq_recv → receive_segment (λ s. true) socket segment ≡ socket)
unfolding is_syn_sent test_bit
receive_segment-bytes_example =
    receive_segment-bytes (λ s. true) socket segment socket-RingOk refl refl refl (omega arith)

abbrev no_sockets : Array UdpSocket
no_sockets i = record { local_port = 0; callback = none; open_flag = false }

opens : (udp_open no_sockets 68 (some 1)).0 ≡ some 0
unfolding udp_open first
opens = refl

abbrev datagram : Datagram
datagram = record { src_port = 67; dst_port = 68; udp_len = 10; bytes = 7 ∷ 8 ∷ 9 ∷ [] }

receive-open_example :
    udp_receive (udp_open no_sockets 68 (some 1)).1 0x0a000202 datagram 11
    ≡ some (record {
      callback = some 1;
      src_ip = 0x0a000202;
      src_port = 67;
      bytes = take 2 (7 ∷ 8 ∷ 9 ∷ []);
    })
receive-open_example =
    receive-open no_sockets 68 1 0 0x0a000202 11 datagram opens refl (omega arith) (omega arith)
