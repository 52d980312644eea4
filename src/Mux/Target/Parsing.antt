-- ===== src/Mux/Target/Parsing.antt =====
-- What `ParseTarget` of target.go accepts, and what `TCPFQDN` builds.
use toppa.Base.{
  ℕ, zero, suc, ◌+◌, ◌-◌, ◌≤◌, ◌<◌, ◌≡◌, sym, ap, ◌∙◌, subst, ◌⊎◌, inl, inr, [], ◌∷◌, ◌++◌, arith,
}
use toppa.Base.Lists.{length, get_or, take, drop, length-take, All-take}
use toppa.Base.Results.{ok}
use toppa.Base.Bytes.{Bytes, IsByte, AreBytes, slice}
use toppa.Mux.Target.{Target, IsTarget, append_target, parse_target, tcp_fqdn, be16}
use toppa.Mux.Target.RoundTrip.{port_then, raw_block, fqdn_block, parse_target-append_target}

-- The input is cut at the address and at the port behind it.
port_split :
    (k : ℕ) (r : Bytes)
    → AreBytes r
    → k + 2 ≤ length r
    → r ≡ take k r ++ port_then (be16 (take 2 (drop k r))) (drop 2 (drop k r))
port_split zero [] h l = absurd (omega arith)
port_split zero (a ∷ []) h l = absurd (omega arith)
port_split zero (a ∷ b ∷ r) (ha, (hb, hr)) l = ground (arith, ha, hb)
port_split (suc k) [] h l = absurd (omega arith)
port_split (suc k) (x ∷ r) (hx, hr) l = ap (◌∷◌ x) (port_split k r hr (omega arith))

port_bound : (k : ℕ) (r : Bytes) → AreBytes r → k + 2 ≤ length r → be16 (take 2 (drop k r)) < 65536
port_bound zero [] h l = absurd (omega arith)
port_bound zero (a ∷ []) h l = absurd (omega arith)
port_bound zero (a ∷ b ∷ r) (ha, (hb, hr)) l = omega (arith, ha, hb)
port_bound (suc k) [] h l = absurd (omega arith)
port_bound (suc k) (x ∷ r) (hx, hr) l = port_bound k r hr (omega arith)

abbrev Cut : ℕ → Bytes → Target → Type 0
Cut k r t = (k + 2 ≤ length r) × (t.address ≡ take k r) × (t.port ≡ be16 (take 2 (drop k r)))

-- The three kinds of address.
abbrev Kinds : ℕ → Bytes → Target → Type 0
Kinds a r t =
    ((a ≡ 1) × Cut 4 r t)
    ⊎ ((a ≡ 4) × Cut 16 r t)
    ⊎ ((a ≡ 3)
        × (0 < get_or r 0 0)
        × (get_or r 0 0 + 3 ≤ length r)
        × (t.address ≡ slice 1 (1 + get_or r 0 0) r)
        × (t.port ≡ be16 (slice (1 + get_or r 0 0) (3 + get_or r 0 0) r)))

parse_inversion :
    (n a : ℕ) (r : Bytes) (t : Target)
    → parse_target (n ∷ a ∷ r) ≡ ok t
    → ((n ≡ 1) ⊎ (n ≡ 2)) × (t.network ≡ n) × (t.atyp ≡ a) × Kinds a r t
unfolding parse_target
parse_inversion n a r t e = ground (arith, e)

-- Where a block was accepted: it starts the input, and other bytes may follow it.
abbrev pub Accepted : Bytes → Target → Type 0
Accepted b t = IsTarget t × ((rest : Bytes) × (b ≡ append_target [] t ++ rest))

raw_Accepted :
    (k n a : ℕ) (r : Bytes) (t : Target)
    → AreBytes r
    → IsTarget t
    → t.network ≡ n
    → t.atyp ≡ a
    → (a ≡ 1) ⊎ (a ≡ 4)
    → Cut k r t
    → Accepted (n ∷ a ∷ r) t
raw_Accepted k n a r t hr it en ea kind (room, addr, port) =
    let rest = drop 2 (drop k r) in
    let kind' : (t.atyp ≡ 1) ⊎ (t.atyp ≡ 4) = subst (λ x. (x ≡ 1) ⊎ (x ≡ 4)) (sym ea) kind in
    (
      it,
      (
        rest,
        rw (raw_block t rest kind', en, ea, addr, port)
            (ap (λ x. n ∷ a ∷ x) (port_split k r hr room)),
      ),
    )

fqdn_cut :
    (m : ℕ) (r : Bytes)
    → m + 3 ≤ length (m ∷ r)
    → (slice 1 (1 + m) (m ∷ r) ≡ take m r)
      × (be16 (slice (1 + m) (3 + m) (m ∷ r)) ≡ be16 (take 2 (drop m r)))
fqdn_cut m r h =
    let a : 1 + m - 1 ≡ m = omega arith in
    let b : (3 + m) - (1 + m) ≡ 2 = omega arith in
    let c : 1 + m ≡ suc m = omega arith in (rw a, rw (b, c))

Cut-bytes :
    (k : ℕ) (r : Bytes) (t : Target)
    → AreBytes r
    → Cut k r t
    → AreBytes t.address × (t.port < 65536) × (length t.address ≡ k)
Cut-bytes k r t hr (room, addr, port) = (
  subst AreBytes (sym addr) (All-take IsByte k r hr),
  rw port (port_bound k r hr room),
  ap length addr ∙ omega (arith, length-take k r),
)

fqdn_Accepted :
    (n a m : ℕ) (r : Bytes) (t : Target)
    → AreBytes (m ∷ r)
    → (n ≡ 1) ⊎ (n ≡ 2)
    → t.network ≡ n
    → t.atyp ≡ a
    → a ≡ 3
    → 0 < m
    → Cut m r t
    → Accepted (n ∷ a ∷ m ∷ r) t
fqdn_Accepted n a m r t (hm, hr) known en ea kind pos c =
    let rest = drop 2 (drop m r) in
    let (bs, port, len) = Cut-bytes m r t hr c in
    let le : length t.address ≤ 255 = omega arith in
    (
      record {
        known_network = ground (arith, known);
        sized = inr (inr (ea ∙ kind, omega arith, le));
        address_bytes = bs;
        port_u16 = port;
      },
      (
        rest,
        rw (fqdn_block t rest (ea ∙ kind) le, en, ea, len, c.1, c.2)
            (ap (λ x. n ∷ a ∷ m ∷ x) (port_split m r hr c.0)),
      ),
    )

by_kind :
    (n a : ℕ) (r : Bytes) (t : Target)
    → AreBytes r
    → (n ≡ 1) ⊎ (n ≡ 2)
    → t.network ≡ n
    → t.atyp ≡ a
    → Kinds a r t
    → Accepted (n ∷ a ∷ r) t
by_kind n a r t hr known en ea (inl (v4, c)) =
    let (bs, port, len) = Cut-bytes 4 r t hr c in
    raw_Accepted 4 n a r t hr
      (record {
        known_network = ground (arith, known);
        sized = inl (ea ∙ v4, len);
        address_bytes = bs;
        port_u16 = port;
      })
      en ea (inl v4) c
by_kind n a r t hr known en ea (inr (inl (v6, c))) =
    let (bs, port, len) = Cut-bytes 16 r t hr c in
    raw_Accepted 16 n a r t hr
      (record {
        known_network = ground (arith, known);
        sized = inr (inl (ea ∙ v6, len));
        address_bytes = bs;
        port_u16 = port;
      })
      en ea (inr v6) c
by_kind n a [] t hr known en ea (inr (inr (kind, pos, room, addr, port))) = absurd (omega arith)
by_kind n a (m ∷ r) t hr known en ea (inr (inr (kind, pos, room, addr, port))) =
    let (ea', ep) = fqdn_cut m r room in
    fqdn_Accepted n a m r t hr known en ea kind pos (omega arith, addr ∙ ea', port ∙ ep)

-- An input of bytes that is accepted is the encoding of the target, which is well formed, and
-- bytes that follow it.
pub parse_target_sound :
    (b : Bytes) (t : Target) → AreBytes b → parse_target b ≡ ok t → Accepted b t
parse_target_sound (n ∷ a ∷ r) t (hn, (ha, hr)) e =
    let (known, en, ea, kinds) = parse_inversion n a r t e in by_kind n a r t hr known en ea kinds
parse_target_sound [] t h e = unfold parse_target in ground (arith, e)
parse_target_sound (n ∷ []) t h e = unfold parse_target in ground (arith, e)

tcp_fqdn-IsTarget :
    (host : Bytes) (port : ℕ) (t : Target)
    → AreBytes host
    → port < 65536
    → tcp_fqdn host port ≡ ok t
    → IsTarget t
unfolding tcp_fqdn
tcp_fqdn-IsTarget host port t hb hp e = record {
  known_network = inl (ground (arith, e));
  sized = inr (inr (ground (arith, e), ground (arith, e), ground (arith, e)));
  address_bytes = subst AreBytes (ground (arith, e)) hb;
  port_u16 = ground (arith, e);
}

-- A target that `TCPFQDN` builds from a host of bytes and a 16-bit port reaches the peer
-- unchanged: its block, with anything behind it, parses to it.
pub tcp_fqdn-parse_target :
    (host : Bytes) (port : ℕ) (t : Target) (rest : Bytes)
    → AreBytes host
    → port < 65536
    → tcp_fqdn host port ≡ ok t
    → parse_target (append_target [] t ++ rest) ≡ ok t
tcp_fqdn-parse_target host port t rest hb hp e =
    parse_target-append_target t rest (tcp_fqdn-IsTarget host port t hb hp e)
