-- ===== src/Tunnel/Examples.antt =====
-- The theorems on package tunnel over a cipher that puts a tag of sixteen zeros before the plaintext,
-- and a handshake whose messages are their payloads behind one byte.
use toppa.Base.{
  ℕ, zero, suc, ◌≤◌, ◌≡◌, refl, ap, sym, ◌∙◌, true, Option, none, some, [], ◌∷◌, ◌++◌, arith,
}
use toppa.Base.Lists.{length, drop, length-append}
use toppa.Base.Results.{ok, some_eq, snd_eq}
use toppa.Base.Bytes.{Bytes, AreBytes, Writer, write, read_full}
use toppa.Tunnel.Noise.{Cipher, Paired, Handshaking}
use toppa.Tunnel.Record.{SecureConn, secure_write, read_exact}
use toppa.Tunnel.Record.RoundTrip.{read_exact-secure_write}
use toppa.Tunnel.Framing.{send_frame, send_message, recv_frame, pinned_equal}
use toppa.Tunnel.Handshake.{HandshakeConfig, HandshakeResult, with_defaults, handshake}
use toppa.Tunnel.Admission.{Admits, handshake-Admits}

abbrev tag : Bytes
tag = 0 ∷ 0 ∷ 0 ∷ 0 ∷ 0 ∷ 0 ∷ 0 ∷ 0 ∷ 0 ∷ 0 ∷ 0 ∷ 0 ∷ 0 ∷ 0 ∷ 0 ∷ 0 ∷ []

abbrev pub plain : Cipher
plain = record {
  State = Unit;
  encrypt = λ s p. some (tt, tag ++ p);
  decrypt = λ s ct. some (tt, drop 16 ct);
}

tagged :
    (p ct : Bytes) (w w' : Unit {0})
    → ◌≡◌ {A = Option (Unit {0} × Bytes)} (some (w, tag ++ p)) (some (w', ct))
    → tag ++ p ≡ ct
tagged p ct w w' e = snd_eq (some_eq e)

plain-Paired : Paired plain
plain-Paired = record {
  Pair = λ w r. Unit;
  opens =
      λ w r w' p ct pair e. (tt, ap (λ b. some (tt, drop 16 b)) (sym (tagged p ct tt tt e)), tt);
  overhead =
      λ w w' p ct e. ap length (sym (tagged p ct tt tt e)) ∙ omega (arith, length-append tag p);
}

abbrev pub wide : Writer
wide = record { sent = []; room = 1000 }

abbrev conn : SecureConn plain
conn = record { out = wide; input = []; read_cs = tt; write_cs = tt; max_payload = 2; rbuf = [] }

read_exact-secure_write_example :
    ((secure_write conn (7 ∷ 8 ∷ 9 ∷ [])).1 ≡ 3)
    × ((wire : Bytes) × (d' : SecureConn plain) × ((secure_write conn (7 ∷ 8 ∷ 9 ∷ [])).0.out.sent
          ≡ wire)
        × (read_exact 3 3 (record conn { input = wire ++ (5 ∷ []) }) ≡ (d', ok (7 ∷ 8 ∷ 9 ∷ [])))
        × ((d'.rbuf ≡ []) × (d'.input ≡ 5 ∷ []) × Unit {0}))
unfolding secure_write write plain-Paired
read_exact-secure_write_example =
    read_exact-secure_write plain plain-Paired conn conn (7 ∷ 8 ∷ 9 ∷ []) (5 ∷ []) (omega arith)
      (omega arith) (omega arith) refl refl tt refl

abbrev one_two : Bytes
one_two = 1 ∷ 2 ∷ []

abbrev one_three : Bytes
one_three = 1 ∷ 3 ∷ []

zeros : ℕ → Bytes
zeros zero = []
zeros (suc n) = 0 ∷ zeros n

length-zeros : (n : ℕ) → length (zeros n) ≡ n
unfolding zeros
length-zeros zero = refl
length-zeros (suc n) = omega (arith, length-zeros n)

abbrev very_wide : Writer
very_wide = record { sent = []; room = 70000 }

send_frame-zeros :
    (n : ℕ)
    → n ≤ 65536
    → send_frame very_wide (zeros n) ≡ ((send_frame very_wide (zeros n)).0, none)
unfolding send_frame send_message write
send_frame-zeros n h = ground (arith, length-zeros n)

abbrev pub mirrored : Handshaking plain
mirrored = record {
  State = Unit;
  public_from_private = λ k. some k;
  start = λ initiator private public. some tt;
  write_message = λ s b. some (tt, 1 ∷ b, some (tt, tt));
  read_message = λ s m. some (tt, drop 1 m, some (tt, tt));
  channel_binding = λ s. [];
}

abbrev pub key : Bytes
key = 7 ∷ 7 ∷ 7 ∷ 7 ∷ 7 ∷ 7 ∷ 7 ∷ 7 ∷ tag ++ (7 ∷ 7 ∷ 7 ∷ 7 ∷ 7 ∷ 7 ∷ 7 ∷ 7 ∷ [])

abbrev config : HandshakeConfig
config = record { role = 1; static_private = key; pinned_peer = some key; max_payload = 0 }

abbrev pub digest : Bytes → Bytes
digest b = 1 ∷ 2 ∷ 3 ∷ 4 ∷ []

abbrev result : HandshakeResult plain mirrored digest
result = record {
  conn = record {
    out = record { sent = 0 ∷ 1 ∷ 1 ∷ 0 ∷ 33 ∷ 1 ∷ key; room = 962 };
    input = 5 ∷ [];
    read_cs = tt;
    write_cs = tt;
    max_payload = 262144;
    rbuf = [];
  };
  sas = 9 ∷ 0 ∷ 9 ∷ 0 ∷ 6 ∷ 0 ∷ [];
  peer_static = key;
}

key-AreBytes : AreBytes key
key-AreBytes = omega arith

handshake-Admits_example : Admits plain mirrored digest config result
unfolding handshake send_frame send_message write recv_frame read_full pinned_equal with_defaults
handshake-Admits_example =
    handshake-Admits plain mirrored digest true wide (0 ∷ 33 ∷ 1 ∷ (key ++ (5 ∷ []))) config result
      key-AreBytes key-AreBytes refl
