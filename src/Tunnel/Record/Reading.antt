-- ===== src/Tunnel/Record/Reading.antt =====
-- Reading from a connection whose transport holds whole records (secure.go).
use toppa.Base.{
  ℕ, ◌+◌, ◌^◌, ◌≤◌, ◌<◌, ◌≡◌, refl, sym, ap, ◌∙◌, some, [], ◌∷◌, ◌++◌, append_assoc, arith,
}
use toppa.Base.Lists.{length, take, drop, length-append, length-take, take-append-drop}
use toppa.Base.Results.{Result, ok}
use toppa.Base.Bytes.{Bytes, put_u24, be-put_u24, read_full-append}
use toppa.Tunnel.Noise.{Cipher}
use toppa.Tunnel.Record.{SecureConn, Error, secure_read, read_header, read_body, deliver}

-- The bytes on the transport hold records that a reading state opens in turn to the bytes of `p`.
pub data Carries (C : Cipher) (cap : ℕ) : C.State → Bytes → Bytes → C.State → Type 0 where
  nothing_left : (r : C.State) → Carries C cap r [] [] r
  one_record :
      (r r1 r' : C.State) (ct p wire q w all : Bytes)
      → C.decrypt r ct ≡ some (r1, p)
      → 0 < length p
      → 16 ≤ length ct
      → length ct ≤ cap + 16
      → Carries C cap r1 wire q r'
      → w ≡ put_u24 (length ct) ++ (ct ++ wire)
      → all ≡ p ++ q
      → Carries C cap r w all r'

-- Bytes to come begin with a record.
record Next (C : Cipher) (cap : ℕ) (r : C.State) (w q : Bytes) (r' : C.State) : Type 0 where
  state : C.State
  ct : Bytes
  plain : Bytes
  wire : Bytes
  more : Bytes
  opened : C.decrypt r ct ≡ some (state, plain)
  nonempty : 0 < length plain
  tagged : 16 ≤ length ct
  capped : length ct ≤ cap + 16
  carries : Carries C cap state wire more r'
  on_wire : w ≡ put_u24 (length ct) ++ (ct ++ wire)
  in_plain : q ≡ plain ++ more

Carries-Next :
    {C : Cipher} {cap : ℕ} {r r' : C.State} {w q : Bytes}
    → Carries C cap r w q r'
    → 0 < length q
    → Next C cap r w q r'
Carries-Next (nothing_left r) h = absurd (omega arith)
Carries-Next (one_record r r1 r' ct p wire q w all hd px lo hi more sw sq) h = record {
  state = r1;
  ct = ct;
  plain = p;
  wire = wire;
  more = q;
  opened = hd;
  nonempty = px;
  tagged = lo;
  capped = hi;
  carries = more;
  on_wire = sw;
  in_plain = sq;
}

pub Carries-empty :
    {C : Cipher} {cap : ℕ} {r r' : C.State} {w q : Bytes}
    → Carries C cap r w q r'
    → length q ≡ 0
    → (w ≡ []) × (r ≡ r')
Carries-empty (nothing_left r) h = (refl, refl)
Carries-empty (one_record r r1 r' ct p wire q w all hd px lo hi more sw sq) h =
    absurd (omega (arith, ap length sq, length-append p q))

module _ (C : Cipher) (cap : ℕ) (small : cap + 16 < 2 ^ 24) where
  -- The reader: what it has buffered, and the records still to come.
  pub record Pending (c : SecureConn C) (p tail : Bytes) (r' : C.State) : Type 0 where
    pub wire : Bytes
    pub rest : Bytes
    pub capped : c.max_payload ≡ cap
    pub carries : Carries C cap c.read_cs wire rest r'
    pub split : p ≡ c.rbuf ++ rest
    pub at : c.input ≡ wire ++ tail

  -- A read in progress: it gives bytes off the front.
  pub record Reads (n : ℕ) (p tail : Bytes) (r' : C.State) (r : SecureConn C × Result Error Bytes)
      : Type 0 where
    pub out : Bytes
    pub left : Bytes
    pub result : r.1 ≡ ok out
    pub front : p ≡ out ++ left
    pub some_out : 0 < length out
    pub bounded : length out ≤ n
    pub pending : Pending r.0 left tail r'

  open_record :
      (c : SecureConn C) (n : ℕ) (r1 : C.State) (ct p wire tail : Bytes)
      → c.max_payload ≡ cap
      → c.rbuf ≡ []
      → 0 < n
      → C.decrypt c.read_cs ct ≡ some (r1, p)
      → 16 ≤ length ct
      → length ct ≤ cap + 16
      → c.input ≡ put_u24 (length ct) ++ (ct ++ (wire ++ tail))
      → secure_read c n
        ≡ (record c { input = wire ++ tail; read_cs = r1; rbuf = drop n p }, ok (take n p))
  unfolding secure_read read_header read_body deliver
  open_record c n r1 ct p wire tail hc hb hn hd lo hi hi' = ground (
    arith,
    hb,
    hi',
    hd,
    read_full-append (put_u24 (length ct)) (ct ++ (wire ++ tail)),
    read_full-append ct (wire ++ tail),
    be-put_u24 (length ct) (omega (arith, small)),
  )

  buffered_read :
      (c : SecureConn C) (n b : ℕ) (bs : Bytes)
      → c.rbuf ≡ b ∷ bs
      → secure_read c n ≡ (record c { rbuf = drop n c.rbuf }, ok (take n c.rbuf))
  unfolding secure_read
  buffered_read c n b bs e = ground (arith, e)

  -- A read of some bytes from a connection with bytes to come gives some of them, in order.
  pub read_Reads :
      (c : SecureConn C) (n : ℕ) (p tail : Bytes) (r' : C.State) (buf : Bytes)
      → 0 < n
      → 0 < length p
      → c.rbuf ≡ buf
      → Pending c p tail r'
      → Reads n p tail r' (secure_read c n)
  read_Reads c n p tail r' (b ∷ bs) hn hp e h = rw (buffered_read c n b bs e) (record {
    out = take n c.rbuf;
    left = drop n c.rbuf ++ h.rest;
    result = refl;
    front =
        h.split
        ∙ (ap (λ x. x ++ h.rest) (sym (take-append-drop n c.rbuf))
            ∙ append_assoc (take n c.rbuf) (drop n c.rbuf) h.rest);
    some_out = omega (arith, length-take n c.rbuf, ap length e);
    bounded = omega (arith, length-take n c.rbuf);
    pending = record {
      wire = h.wire;
      rest = h.rest;
      capped = h.capped;
      carries = h.carries;
      split = refl;
      at = h.at;
    };
  })
  read_Reads c n p tail r' [] hn hp e h =
      let x =
        Carries-Next h.carries
          (omega (arith, ap length h.split, length-append c.rbuf h.rest, ap length e)) in
      rw
        (open_record c n x.state x.ct x.plain x.wire tail h.capped e hn x.opened x.tagged x.capped (
          h.at
          ∙ (ap (λ z. z ++ tail) x.on_wire
              ∙ ap (λ z. put_u24 (length x.ct) ++ z) (append_assoc x.ct x.wire tail))))
        (record {
          out = take n x.plain;
          left = drop n x.plain ++ x.more;
          result = refl;
          front =
              h.split
              ∙ (ap (λ z. z ++ h.rest) e
                  ∙ (x.in_plain
                      ∙ (ap (λ z. z ++ x.more) (sym (take-append-drop n x.plain))
                          ∙ append_assoc (take n x.plain) (drop n x.plain) x.more)));
          some_out = omega (arith, length-take n x.plain, x.nonempty);
          bounded = omega (arith, length-take n x.plain);
          pending = record {
            wire = x.wire;
            rest = x.more;
            capped = h.capped;
            carries = x.carries;
            split = refl;
            at = refl;
          };
        })
