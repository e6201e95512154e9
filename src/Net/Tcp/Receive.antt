-- ===== src/Net/Tcp/Receive.antt =====
-- What tcp_receive of net/tcp.c does with the bytes of a segment.
use coffee_os_aurora_refresh.Base.{
  ℕ, ◌+◌, ◌-◌, ◌≡◌, ◌≢◌, refl, ◌∙◌, ap, Bool, false, List, [], ◌∷◌, ◌++◌, length, take, ltb,
  if_intro, ==_ne, ==_self, u32,
}
use coffee_os_aurora_refresh.Base.Bits.{test_bit}
use coffee_os_aurora_refresh.Net.Tcp.{
  Segment, TcpSocket, tcp_mss, tcp_rx_push, tcp_send_segment, receive_bytes, is_syn_sent,
  receive_segment,
}
use coffee_os_aurora_refresh.Net.Tcp.Ring.{waiting, contents, RingOk, push-contents}

-- Sending leaves the receiving side of the socket alone.
send_keeps :
    (send : Segment → Bool) (sock : TcpSocket) (flags : ℕ) (bytes : List ℕ)
    → (contents (tcp_send_segment send sock flags bytes).1 ≡ contents sock)
      × ((tcp_send_segment send sock flags bytes).1.seq_recv ≡ sock.seq_recv)
unfolding tcp_send_segment
send_keeps send sock flags bytes =
    if_intro
      (λ (r : Bool × TcpSocket). (contents r.1 ≡ contents sock) × (r.1.seq_recv ≡ sock.seq_recv))
      (ltb tcp_mss (length bytes)) _ _ (λ e. (refl, refl))
      (λ e.
        if_intro
          (λ (r : Bool × TcpSocket).
            (contents r.1 ≡ contents sock) × (r.1.seq_recv ≡ sock.seq_recv))
          _ _ _ (λ f. (refl, refl)) (λ f. (refl, refl)))

push_seq : (bs : List ℕ) (sock : TcpSocket) → (tcp_rx_push sock bs).seq_recv ≡ sock.seq_recv
unfolding tcp_rx_push
push_seq [] sock = refl
push_seq (b ∷ bs) sock =
    let rest = push_seq bs _ in
    if_intro (λ (s : TcpSocket). s.seq_recv ≡ sock.seq_recv) _ sock _ (λ e. refl) (λ e. rest)

-- A segment with bytes and without the flags RST and FIN, for a socket that does not wait for the
-- answer to its SYN: when it is the next in sequence, as many of its bytes as there is room for are
-- put behind those that wait, and seq_recv moves on by all of its bytes, also by those that were
-- dropped; otherwise the socket does not change.
pub receive_segment-bytes :
    (send : Segment → Bool) (sock : TcpSocket) (s : Segment)
    → RingOk sock
    → is_syn_sent sock.state ≡ false
    → test_bit s.flags 2 ≡ 0
    → test_bit s.flags 0 ≡ 0
    → length s.bytes ≢ 0
    → (s.seq ≡ sock.seq_recv
        → (contents (receive_segment send sock s)
            ≡ contents sock ++ take (4095 - waiting sock) s.bytes)
          × ((receive_segment send sock s).seq_recv ≡ u32 (sock.seq_recv + length s.bytes)))
      × (s.seq ≢ sock.seq_recv → receive_segment send sock s ≡ sock)
unfolding receive_segment receive_bytes
receive_segment-bytes send sock s v h r f n =
    rw (r, f, h, ==_ne (length s.bytes) 0 n)
      (
        λ e. rw (e, ==_self sock.seq_recv) (stored.0, stored.1),
        λ e. rw (==_ne s.seq sock.seq_recv e) refl,
      )
  where
    pushed : TcpSocket
    pushed = tcp_rx_push sock s.bytes

    counted : TcpSocket
    counted = record pushed { seq_recv = u32 (pushed.seq_recv + length s.bytes) }

    stored :
        (contents (tcp_send_segment send counted 16 []).1
          ≡ contents sock ++ take (4095 - waiting sock) s.bytes)
        × ((tcp_send_segment send counted 16 []).1.seq_recv ≡ u32 (sock.seq_recv + length s.bytes))
    stored = (
      (send_keeps send counted 16 []).0 ∙ (push-contents s.bytes sock v).0,
      (send_keeps send counted 16 []).1
          ∙ ap (λ q. u32 (q + length s.bytes)) (push_seq s.bytes sock),
    )
