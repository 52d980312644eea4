-- ===== src/Relay/Dialer/Opening.antt =====
-- What a dial of `TunnelDialer` (desktop/internal/relay/dialer.go) that succeeds has sent, and the opening frame of a flow.
use toppa.Base.{
  ℕ, ◌+◌, ◌%◌, ◌^◌, ◌≤◌, ◌<◌, ◌≡◌, refl, sym, ap, ◌∙◌, subst, ◌⊎◌, inl, inr, Option, none, some, [],
  ◌∷◌, ◌++◌, append_assoc, append-nil, arith,
}
use toppa.Base.Tests.{if_split}
use toppa.Base.Lists.{length, length-append, All-append}
use toppa.Base.Results.{Result, ok, err, fst_eq, snd_eq}
use toppa.Base.Bytes.{Bytes, IsByte, AreBytes, u32_mod, Writer, write}
use toppa.Mux.Errors
use toppa.Mux.Frame.{Frame, IsWire, header, write_frame, validate_frame, has, has_other, flag_syn}
use toppa.Mux.Target.{Target, IsTarget, net_tcp, atyp_ipv4, atyp_ipv6, append_target, parse_target}
use toppa.Mux.Target.RoundTrip.{port_then, raw_block, parse_target-append_target}
use toppa.Mux.Session.State.{Session, stream, frame, session_write_frame}
use toppa.Mux.Session.Calls.{register, open_stream, opened}
use toppa.Mux.Session.Inbound.{handle_syn, syn_for, offer}
use toppa.Relay.Dialer.{
  Pacer, Error, acquire, release_pacer, Dialer, Ip, v4, v6, neither, Conn, connected, dial_target,
  dial_paced, dial_session, dial_with, target_of, dial_tcp,
}

-- What was written without an error is the encoding of the frame.
write_frame-none :
    (w w' : Writer) (f : Frame) (m : ℕ) (p : Bytes)
    → f.payload ≡ p
    → write_frame w f m ≡ (w', none)
    → w'.sent ≡ w.sent ++ (header f ++ f.payload)
unfolding write_frame write
write_frame-none w w' f m [] e h =
    ground (arith, h, e, append_assoc w.sent (header f) f.payload, append-nil (w.sent ++ header f))
write_frame-none w w' f m (b ∷ p) e h =
    ground (arith, h, e, append_assoc w.sent (header f) f.payload)

ok_conn : {a b : Conn} → ◌≡◌ {A = Result Error Conn} (ok a) (ok b) → a ≡ b
ok_conn e = cc

-- The call of `Open` that a successful dial has made.
connected-ok :
    (d d' : Dialer) (r : Session × Result toppa.Mux.Errors.Error ℕ) (c : Conn)
    → connected d r ≡ (d', ok c)
    → (s' : Session) × (r ≡ (s', ok c.stream)) × (d'.session ≡ some s')
unfolding connected
connected-ok d d' (s, err e) c h = absurd (ground (arith, snd_eq h))
connected-ok d d' (s, ok a) c h = (
  s,
  ap (λ n. (s, ok n)) (ap (λ (x : Conn). x.stream) (ok_conn (snd_eq h))),
  ap (λ (x : Dialer). x.session) (sym (fst_eq h)),
)

opened-none :
    (id b a : ℕ) (r : Session × Option toppa.Mux.Errors.Error) (s' : Session)
    → opened id b r ≡ (s', ok a)
    → r ≡ (s', none)
unfolding opened
opened-none id b a (s, none) s' h = ap (λ x. (x, none)) (fst_eq h)
opened-none id b a (s, some e) s' h = absurd (ground (arith, snd_eq h))

abbrev pub opening : Session → Target → Frame
opening s t = frame flag_syn s.next_id (append_target [] t)

session_write_frame-none :
    (s s' : Session) (f : Frame)
    → session_write_frame s f ≡ (s', none)
    → s'.conn.sent ≡ s.conn.sent ++ (header f ++ f.payload)
unfolding session_write_frame
session_write_frame-none s s' f =
    if_split (λ x. x ≡ (s', none) → s'.conn.sent ≡ s.conn.sent ++ (header f ++ f.payload)) s.closed
      (λ _ h. absurd (ground (arith, snd_eq h)))
      (λ _ h.
        let e : record s { conn = (write_frame s.conn f s.cfg.max_frame_payload).0 } ≡ s' =
          fst_eq h in
        let o : (write_frame s.conn f s.cfg.max_frame_payload).1 ≡ none = snd_eq h in
        write_frame-none s.conn s'.conn f s.cfg.max_frame_payload f.payload refl
          (λ i. ((e i).conn, o i)))

pub open_stream-ok :
    (s s' : Session) (t : Target) (a : ℕ)
    → open_stream s t ≡ (s', ok a)
    → s'.conn.sent ≡ s.conn.sent ++ (header (opening s t) ++ append_target [] t)
unfolding open_stream register
open_stream-ok s s' t a =
    let s1 = record (register s s.next_id t) { next_id = (s.next_id + 2) % u32_mod } in
    if_split
      (λ (r : Session × Result toppa.Mux.Errors.Error ℕ).
        r ≡ (s', ok a) → s'.conn.sent ≡ s.conn.sent ++ (header (opening s t) ++ append_target [] t))
      s.closed (λ _ h. absurd (ground (arith, snd_eq h)))
      (λ _ h.
        session_write_frame-none s1 s' (opening s t)
          (opened-none s.next_id (length s.objs) a (session_write_frame s1 (opening s t)) s' h))

-- What `To4` and `To16` give has four or sixteen bytes.
unfoldable pub IsIp : Ip → Type 0
IsIp (v4 a) = (length a ≡ 4) × AreBytes a
IsIp (v6 a) = (length a ≡ 16) × AreBytes a
IsIp neither = ⊥

-- The target that asks for an address and a port over TCP: the network 1, the address type 1 or 4, and sixteen bits of port.
abbrev pub AsksFor : Ip → ℕ → Target → Type 0
AsksFor (v4 a) port t = (t.network ≡ 1) × (t.atyp ≡ 1) × (t.address ≡ a) × (t.port ≡ port % 65536)
AsksFor (v6 a) port t = (t.network ≡ 1) × (t.atyp ≡ 4) × (t.address ≡ a) × (t.port ≡ port % 65536)
AsksFor neither port t = ⊥

abbrev pub target_v4 : Bytes → ℕ → Target
target_v4 a port = record { network = net_tcp; atyp = atyp_ipv4; address = a; port = port % 2 ^ 16 }

abbrev pub target_v6 : Bytes → ℕ → Target
target_v6 a port = record { network = net_tcp; atyp = atyp_ipv6; address = a; port = port % 2 ^ 16 }

-- The block of such a target.
pub block_bytes :
    (t : Target)
    → (t.atyp ≡ 1) ⊎ (t.atyp ≡ 4)
    → t.network < 256
    → length t.address ≤ 16
    → AreBytes t.address
    → AreBytes (append_target [] t) × (length (append_target [] t) ≤ 20)
block_bytes t h n l b =
    let e = sym (append-nil (append_target [] t)) ∙ raw_block t [] h in
    (
      subst AreBytes (sym e) (
        n,
        (
          omega (arith, h),
          All-append IsByte t.address (port_then t.port []) b (omega arith, (omega arith, tt)),
        ),
      ),
      omega (arith, ap length e, length-append t.address (port_then t.port []), l),
    )

-- The opening frame fits its types, and the bit rules allow it.
pub opening-IsWire :
    (s : Session) (t : Target)
    → s.next_id < u32_mod
    → AreBytes (append_target [] t)
    → length (append_target [] t) ≤ 20
    → IsWire (opening s t)
opening-IsWire s t n b l = record {
  version_one = refl;
  flags_byte = omega arith;
  id_u32 = n;
  size_u32 = omega (arith, l);
  payload_bytes = b;
}

pub opening_valid : (s : Session) (t : Target) → validate_frame (opening s t) ≡ ok tt
unfolding validate_frame has has_other
opening_valid s t = refl

-- The target of an address.
pub target_of-IsTarget :
    (ip : Ip) (port : ℕ)
    → IsIp ip
    → (t : Target) × (target_of ip port ≡ some t)
      × AsksFor ip port t
      × IsTarget t
      × ((t.atyp ≡ 1) ⊎ (t.atyp ≡ 4))
      × (t.network < 256)
      × (length t.address ≤ 16)
      × AreBytes t.address
unfolding target_of IsIp
target_of-IsTarget (v4 a) port (l, b) = (
  target_v4 a port,
  refl,
  (refl, refl, refl, refl),
  record {
    known_network = inl refl;
    sized = inl (refl, l);
    address_bytes = b;
    port_u16 = omega arith;
  },
  inl refl,
  omega arith,
  omega (arith, l),
  b,
)
target_of-IsTarget (v6 a) port (l, b) = (
  target_v6 a port,
  refl,
  (refl, refl, refl, refl),
  record {
    known_network = inl refl;
    sized = inr (inl (refl, l));
    address_bytes = b;
    port_u16 = omega arith;
  },
  inr refl,
  omega arith,
  omega (arith, l),
  b,
)
target_of-IsTarget neither port h = absurd h

release_pacer-ok :
    (r : Dialer × Result Error Conn) (d' : Dialer) (c : Conn)
    → release_pacer r ≡ (d', ok c)
    → (d : Dialer) × (r ≡ (d, ok c)) × (d'.session ≡ d.session)
unfolding release_pacer
release_pacer-ok (d, o) d' c h =
    (d, ap (λ x. (d, x)) (snd_eq h), ap (λ (x : Dialer). x.session) (sym (fst_eq h)))

-- The call of `Open` that a dial has made.
unfoldable pub Opens : Session → Target → Dialer → Conn → Type 0
Opens s t d' c = (s' : Session) × (open_stream s t ≡ (s', ok c.stream)) × (d'.session ≡ some s')

dial_paced-Opens :
    (d d' : Dialer) (s : Session) (t : Target) (r : Pacer × Option Error) (c : Conn)
    → dial_paced d s (some t) r ≡ (d', ok c)
    → Opens s t d' c
unfolding dial_paced dial_target Opens
dial_paced-Opens d d' s t (p, some e) c h = absurd (ground (arith, snd_eq h))
dial_paced-Opens d d' s t (p, none) c h =
    let d0 : Dialer = record d { pacer = some p } in
    let (d1, e, same) = release_pacer-ok (connected d0 (open_stream s t)) d' c h in
    let (s', o, at) = connected-ok d0 d1 (open_stream s t) c e in (s', o, same ∙ at)

dial_session-Opens :
    (d d' : Dialer) (s : Session) (t : Target) (o : Option Pacer) (c : Conn)
    → dial_session d (some t) s o ≡ (d', ok c)
    → Opens s t d' c
unfolding dial_session dial_target Opens
dial_session-Opens d d' s t none c h = connected-ok d d' (open_stream s t) c h
dial_session-Opens d d' s t (some p) c h = unfold Opens in dial_paced-Opens d d' s t (acquire p) c h

pub dial_tcp-Opens :
    (d d' : Dialer) (s : Session) (t : Target) (ip : Ip) (port : ℕ) (c : Conn)
    → d.session ≡ some s
    → target_of ip port ≡ some t
    → dial_tcp d ip port ≡ (d', ok c)
    → Opens s t d' c
unfolding dial_tcp dial_with
dial_tcp-Opens d d' s t ip port c live is h =
    dial_session-Opens d d' s t d.pacer c (
      ap (λ o. dial_with d (some t) o) (sym live)
      ∙ (ap (λ o. dial_with d o d.session) (sym is) ∙ h))

-- The peer's session takes the opening frame of an id that it does not have, while there is room in its accept queue.
pub arrives :
    (p s : Session) (t : Target)
    → IsTarget t
    → stream p s.next_id ≡ none
    → length p.accept_ch < p.cfg.accept_queue_depth
    → handle_syn p (opening s t)
      ≡ record (register p s.next_id t) { accept_ch = p.accept_ch ++ length p.objs ∷ [] }
unfolding handle_syn syn_for offer register
arrives p s t h free room =
    let parsed : parse_target (append_target [] t) ≡ ok t =
      ap parse_target (sym (append-nil (append_target [] t))) ∙ parse_target-append_target t [] h in
    rw (handle_syn, parsed, free, syn_for) (ground (arith, room))
