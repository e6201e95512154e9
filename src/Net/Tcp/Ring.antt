-- ===== src/Net/Tcp/Ring.antt =====
-- The receive ring of a socket of net/tcp.c is a queue of at most 4095 bytes.
use mathlib.Core.List.{append-nil, append_assoc}
use coffee_os_aurora_refresh.Base.{
  ℕ, zero, suc, ◌+◌, ◌-◌, ◌%◌, ◌≤◌, ◌<◌, ◌≡◌, ◌≢◌, refl, sym, ◌∙◌, ap, ap₂, List, [], ◌∷◌, ◌++◌,
  take, drop, Array, update, ◌==◌, if_intro, update_self, u32, arith,
}
use coffee_os_aurora_refresh.Net.Tcp.{TcpSocket, rx_buf_size, tcp_rx_push, tcp_rx_take}

-- n bytes of a ring, from place i on.
unfoldable pub read : Array ℕ → ℕ → ℕ → List ℕ
read buf zero i = []
read buf (suc n) i = buf i ∷ read buf n ((i + 1) % rx_buf_size)

-- How many bytes wait, and the bytes.
abbrev pub waiting : TcpSocket → ℕ
waiting sock = (sock.rx_head + rx_buf_size - sock.rx_tail) % rx_buf_size

abbrev pub contents : TcpSocket → List ℕ
contents sock = read sock.rx_buf (waiting sock) sock.rx_tail

pub record RingOk (sock : TcpSocket) : Type 0 where
  pub head_bound : sock.rx_head < rx_buf_size
  pub tail_bound : sock.rx_tail < rx_buf_size

-- Reading a byte more, at the end.
read_snoc :
    (buf : Array ℕ) (n i : ℕ)
    → i < rx_buf_size
    → read buf (suc n) i ≡ read buf n i ++ (buf ((i + n) % rx_buf_size) ∷ [])
unfolding read
read_snoc buf zero i h = ap (λ j. buf j ∷ []) (omega arith)
read_snoc buf (suc n) i h =
    ap (λ t. buf i ∷ t)
      (read_snoc buf n ((i + 1) % rx_buf_size) (omega arith)
        ∙ ap (λ j. read buf n ((i + 1) % rx_buf_size) ++ (buf j ∷ [])) (omega arith))

-- A write outside the places read.
read-update :
    (buf : Array ℕ) (b n i j : ℕ)
    → i < rx_buf_size
    → j < rx_buf_size
    → n ≤ (j + rx_buf_size - i) % rx_buf_size
    → read (update buf j b) n i ≡ read buf n i
unfolding read
read-update buf b zero i j h k l = refl
read-update buf b (suc n) i j h k l =
    ap₂ (λ x t. x ∷ t) (ground arith)
      (read-update buf b n ((i + 1) % rx_buf_size) j (omega arith) k (omega arith))

take_empty : (n : ℕ) → take {A = ℕ} n [] ≡ []
take_empty zero = refl
take_empty (suc n) = refl

-- One byte goes in: there is room, and the byte stands behind the others.
push_one :
    (sock : TcpSocket) (b : ℕ)
    → RingOk sock
    → u32 (sock.rx_head + 1) % rx_buf_size ≢ sock.rx_tail
    → (waiting sock < 4095)
      × (read
            (update sock.rx_buf sock.rx_head b)
            ((u32 (sock.rx_head + 1) % rx_buf_size + rx_buf_size - sock.rx_tail) % rx_buf_size)
            sock.rx_tail
          ≡ contents sock ++ (b ∷ []))
push_one sock b v n = (
  omega (arith, v.head_bound, v.tail_bound),
  ap (λ w. read buf w sock.rx_tail) {y = suc (waiting sock)}
        (omega (arith, v.head_bound, v.tail_bound))
      ∙ read_snoc buf (waiting sock) sock.rx_tail v.tail_bound
      ∙ ap₂ (λ t x. t ++ (x ∷ []))
          (read-update sock.rx_buf b (waiting sock) sock.rx_tail sock.rx_head v.tail_bound
            v.head_bound (omega arith))
          (ap buf {y = sock.rx_head} (omega (arith, v.head_bound, v.tail_bound))
            ∙ update_self sock.rx_buf sock.rx_head b),
)
  where
    buf : Array ℕ
    buf = update sock.rx_buf sock.rx_head b

full_ring :
    (sock : TcpSocket) (bs : List ℕ)
    → RingOk sock
    → u32 (sock.rx_head + 1) % rx_buf_size ≡ sock.rx_tail
    → contents sock ≡ contents sock ++ take (4095 - waiting sock) bs
full_ring sock bs v e =
    sym (append-nil (contents sock))
    ∙ ap (λ n. contents sock ++ take n bs) {x = 0} (omega (arith, v.head_bound, v.tail_bound))

take_cons : (n m b : ℕ) (bs : List ℕ) → n ≡ suc m → take n (b ∷ bs) ≡ b ∷ take m bs
take_cons n m b bs e = rw e refl

one_more :
    (sock : TcpSocket) (b : ℕ) (bs : List ℕ)
    → RingOk sock
    → u32 (sock.rx_head + 1) % rx_buf_size ≢ sock.rx_tail
    → read
          (update sock.rx_buf sock.rx_head b)
          ((u32 (sock.rx_head + 1) % rx_buf_size + rx_buf_size - sock.rx_tail) % rx_buf_size)
          sock.rx_tail
        ++ take
            (4095
              - (u32 (sock.rx_head + 1) % rx_buf_size + rx_buf_size - sock.rx_tail) % rx_buf_size)
            bs
      ≡ contents sock ++ take (4095 - waiting sock) (b ∷ bs)
one_more sock b bs v n =
    rw
      (
        (push_one sock b v n).1,
        take_cons (4095 - waiting sock) m b bs (omega (arith, (push_one sock b v n).0)),
      )
      (append_assoc (contents sock) (b ∷ []) (take left bs)
        ∙ ap (λ k. contents sock ++ (b ∷ take k bs)) {x = left} {y = m}
            (omega (arith, v.head_bound, v.tail_bound)))
  where
    m : ℕ
    m = 4094 - waiting sock

    left : ℕ
    left = 4095 - (u32 (sock.rx_head + 1) % rx_buf_size + rx_buf_size - sock.rx_tail) % rx_buf_size

-- What tcp_rx_push makes of the queue: bytes are put behind those that wait until 4095 wait.
pub push-contents :
    (bs : List ℕ) (sock : TcpSocket)
    → RingOk sock
    → (contents (tcp_rx_push sock bs) ≡ contents sock ++ take (4095 - waiting sock) bs)
      × RingOk (tcp_rx_push sock bs)
unfolding tcp_rx_push
push-contents [] sock v =
    (rw (take_empty (4095 - waiting sock)) (sym (append-nil (contents sock))), v)
push-contents (b ∷ bs) sock v =
    let pushed : TcpSocket = record sock {
      rx_buf = update sock.rx_buf sock.rx_head b;
      rx_head = u32 (sock.rx_head + 1) % rx_buf_size;
    } in
    let rest =
      push-contents bs pushed (record { head_bound = omega arith; tail_bound = v.tail_bound }) in
    if_intro
      (λ (s : TcpSocket).
        (contents s ≡ contents sock ++ take (4095 - waiting sock) (b ∷ bs)) × RingOk s)
      (u32 (sock.rx_head + 1) % rx_buf_size == sock.rx_tail) sock _
      (λ e. (full_ring sock (b ∷ bs) v (ground arith), v))
      (λ e. (rest.0 ∙ one_more sock b bs v (ground arith), rest.1))

contents_empty : (sock : TcpSocket) → RingOk sock → sock.rx_tail ≡ sock.rx_head → contents sock ≡ []
unfolding read
contents_empty sock v e =
    ap (λ w. read sock.rx_buf w sock.rx_tail) {x = waiting sock} {y = 0}
      (omega (arith, v.head_bound, v.tail_bound))

-- The bytes behind the first.
abbrev later : TcpSocket → List ℕ
later sock = contents (record sock { rx_tail = u32 (sock.rx_tail + 1) % rx_buf_size })

contents_cons :
    (sock : TcpSocket)
    → RingOk sock
    → sock.rx_tail ≢ sock.rx_head
    → contents sock ≡ sock.rx_buf sock.rx_tail ∷ later sock
unfolding read
contents_cons sock v n =
    ap (λ w. read sock.rx_buf w sock.rx_tail) {x = waiting sock} {y = suc w'}
      (omega (arith, v.head_bound, v.tail_bound))
    ∙ ap (λ i. sock.rx_buf sock.rx_tail ∷ read sock.rx_buf w' i)
        {x = (sock.rx_tail + 1) % rx_buf_size} {y = u32 (sock.rx_tail + 1) % rx_buf_size}
        (omega (arith, v.tail_bound))
  where
    w' : ℕ
    w' = waiting (record sock { rx_tail = u32 (sock.rx_tail + 1) % rx_buf_size })

-- What the inner loop of tcp_recv takes from the queue: the first n bytes, in order, or all that
-- wait; the others stay.
pub take-contents :
    (n : ℕ) (sock : TcpSocket)
    → RingOk sock
    → ((tcp_rx_take n sock).0 ≡ take n (contents sock))
      × (contents (tcp_rx_take n sock).1 ≡ drop n (contents sock))
unfolding tcp_rx_take
take-contents zero sock v = (refl, refl)
take-contents (suc n) sock v =
    let taken : TcpSocket = record sock { rx_tail = u32 (sock.rx_tail + 1) % rx_buf_size } in
    let rest =
      take-contents n taken (record { head_bound = v.head_bound; tail_bound = omega arith }) in
    if_intro
      (λ (r : List ℕ × TcpSocket).
        (r.0 ≡ take (suc n) (contents sock)) × (contents r.1 ≡ drop (suc n) (contents sock)))
      (sock.rx_tail == sock.rx_head) ([], sock) _
      (λ e. let empty = contents_empty sock v (ground arith) in rw empty (refl, refl))
      (λ e.
        let cons = contents_cons sock v (ground arith) in
        rw cons (ap (λ t. sock.rx_buf sock.rx_tail ∷ t) rest.0, rest.1))
