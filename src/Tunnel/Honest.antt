-- ===== src/Tunnel/Honest.antt =====
-- What desktop/internal/tunnel/handshake.go relies on in the Noise library when both ends follow the pattern XX, and
-- the delivery of one framed message.
use toppa.Base.{
  ◌+◌, ◌-◌, ◌%◌, ◌^◌, ◌≤◌, ◌<◌, ◌≡◌, Bool, true, false, Option, none, some, ◌++◌, append_assoc,
  arith,
}
use toppa.Base.Lists.{length}
use toppa.Base.Results.{ok}
use toppa.Base.Bytes.{Bytes, put_u16, be-put_u16, read_full-append, Writer, write}
use toppa.Tunnel.Noise.{Cipher, Paired, Handshaking}
use toppa.Tunnel.Framing.{send_frame, send_message, recv_frame, recv_header, recv_body}

-- The cipher states that a message comes with: none before the last, and then, on both ends, one for each direction.
pub data BothStates {C : Cipher} (P : Paired C)
    : Option (C.State × C.State) → Option (C.State × C.State) → Bool → Type 0 where
  not_yet : BothStates P none none false
  ready :
      (a0 a1 b0 b1 : C.State)
      → P.Pair a0 b0
      → P.Pair b1 a1
      → BothStates P (some (a0, a1)) (some (b0, b1)) true

-- A message that one end writes and the other one reads, and how both go on.
pub record Carried {C : Cipher} (P : Paired C) (N : Handshaking C) (last : Bool) (s t : N.State)
    (p : Bytes) (Next : N.State → N.State → Type 0) : Type 0 where
  pub s' : N.State
  pub t' : N.State
  pub msg : Bytes
  pub ours : Option (C.State × C.State)
  pub theirs : Option (C.State × C.State)
  pub writes : N.write_message s p ≡ some (s', msg, ours)
  pub reads : N.read_message t msg ≡ some (t', p, theirs)
  pub states : BothStates P ours theirs last
  pub some_byte : 0 < length msg
  pub bounded : length msg < 2 ^ 16
  pub next : Next s' t'

-- Two ends of one XX handshake: in turn the initiator, the responder and the initiator again write a message that carries
-- a payload of at most 32 bytes, the other end reads it, and behind the third both have the same channel binding.
pub record Honest {C : Cipher} (P : Paired C) (N : Handshaking C) : Type 1 where
  pub First : N.State → N.State → Type 0
  pub Second : N.State → N.State → Type 0
  pub Third : N.State → N.State → Type 0
  pub starts :
      (a b pa pb : Bytes)
      → N.public_from_private a ≡ some pa
      → N.public_from_private b ≡ some pb
      → (s : N.State) × (t : N.State) × (N.start true a pa ≡ some s)
        × (N.start false b pb ≡ some t)
        × First s t
  pub first :
      (s t : N.State) (p : Bytes)
      → First s t
      → length p ≤ 32
      → Carried P N false s t p (λ s' t'. Second t' s')
  pub second :
      (s t : N.State) (p : Bytes)
      → Second s t
      → length p ≤ 32
      → Carried P N false s t p (λ s' t'. Third t' s')
  pub third :
      (s t : N.State) (p : Bytes)
      → Third s t
      → length p ≤ 32
      → Carried P N true s t p (λ s' t'. N.channel_binding s' ≡ N.channel_binding t')
  pub public_size : (a pa : Bytes) → N.public_from_private a ≡ some pa → length pa ≡ 32

abbrev pub framed : Bytes → Bytes
framed msg = put_u16 (length msg) ++ msg

-- A message that went out whole.
pub record Sent (w : Writer) (msg : Bytes) : Type 0 where
  pub after : Writer
  pub done : send_frame w msg ≡ (after, none)
  pub sent : after.sent ≡ w.sent ++ framed msg
  pub room : after.room + (2 + length msg) ≡ w.room

pub framed-Sent :
    (w : Writer) (msg : Bytes) → length msg < 2 ^ 16 → 2 + length msg ≤ w.room → Sent w msg
unfolding send_frame send_message write
framed-Sent w msg h r = record {
  after = record {
    sent = (w.sent ++ put_u16 (length msg % 2 ^ 16)) ++ msg;
    room = w.room - 2 - length msg;
  };
  done = ground (arith, h, r);
  sent = ground (arith, h, append_assoc w.sent (put_u16 (length msg)) msg);
  room = omega (arith, r);
}

pub recv_frame-framed :
    (msg rest : Bytes)
    → 0 < length msg
    → length msg < 2 ^ 16
    → recv_frame (framed msg ++ rest) ≡ ok (msg, rest)
unfolding recv_frame recv_header recv_body
recv_frame-framed msg rest hp hl = ground (
  arith,
  be-put_u16 (length msg) hl,
  read_full-append (put_u16 (length msg)) (msg ++ rest),
  read_full-append msg rest,
)
