-- ===== src/Tunnel/AgreementExamples.antt =====
-- Two ends of desktop/internal/tunnel/handshake.go over a cipher whose records carry the number of their direction, and a
-- handshake in three phases whose messages are their payloads behind one byte.
use toppa.Base.{
  ℕ, suc, ◌≤◌, ◌<◌, ◌≡◌, refl, ap, sym, ◌∙◌, inl, inr, Bool, true, false, Option, none, some, [],
  ◌∷◌, ◌++◌, arith,
}
use toppa.Base.Tests.{◌==◌, if◌then◌else◌, ==_refl}
use toppa.Base.Lists.{length, drop, length-append}
use toppa.Base.Results.{some_eq, snd_eq}
use toppa.Base.Bytes.{Bytes, AreBytes, Writer, read_full, write}
use toppa.Tunnel.Noise.{Cipher, Paired, Handshaking}
use toppa.Tunnel.Framing.{send_frame, send_message, recv_frame, pinned_equal}
use toppa.Tunnel.Handshake.{HandshakeConfig, HandshakeResult, handshake, with_defaults}
use toppa.Tunnel.Honest.{BothStates, ready, not_yet, Carried, Honest}
use toppa.Tunnel.Runs.{Capped, unpinned, pinned}
use toppa.Tunnel.Agreement.{Agreement, handshakes_agree}

abbrev pub fifteen : Bytes
fifteen = 0 ∷ 0 ∷ 0 ∷ 0 ∷ 0 ∷ 0 ∷ 0 ∷ 0 ∷ 0 ∷ 0 ∷ 0 ∷ 0 ∷ 0 ∷ 0 ∷ 0 ∷ []

unfoldable pub opened : ℕ → Bytes → Option (ℕ × Bytes)
opened n [] = none
opened n (x ∷ ct) = if x == n then some (n, drop 15 ct) else none

abbrev pub numbered : Cipher
numbered = record { State = ℕ; encrypt = λ n p. some (n, n ∷ (fifteen ++ p)); decrypt = opened }

opened_own : (n : ℕ) (p : Bytes) → opened n (n ∷ (fifteen ++ p)) ≡ some (n, p)
unfolding opened
opened_own n p = ground (arith, ==_refl n)

written :
    (w w' : ℕ) (p ct : Bytes)
    → ◌≡◌ {A = Option (ℕ × Bytes)} (some (w, w ∷ (fifteen ++ p))) (some (w', ct))
    → (w ≡ w') × (w ∷ (fifteen ++ p) ≡ ct)
written w w' p ct e = (ap (λ (x : ℕ × Bytes). x.0) (some_eq e), snd_eq (some_eq e))

pub pairs : Paired numbered
pairs = record {
  Pair = λ w r. w ≡ r;
  opens = λ w r w' p ct same e. (
    r,
    ap (opened r) (sym (written w w' p ct e).1)
        ∙ (ap (λ n. opened r (n ∷ (fifteen ++ p))) same ∙ opened_own r p),
    sym (written w w' p ct e).0 ∙ same,
  );
  overhead = λ w w' p ct e.
      ap length (sym (written w w' p ct e).1) ∙ omega (arith, length-append fifteen p);
}

unfoldable pub states_at : ℕ → Option (ℕ × ℕ)
states_at n = if n == 2 then some (1, 2) else none

abbrev pub sized : Bytes → Option Bytes
sized k = if length k == 32 then some k else none

abbrev pub phased : Handshaking numbered
phased = record {
  State = ℕ;
  public_from_private = sized;
  start = λ initiator private public. some 0;
  write_message = λ n b. some (suc n, 1 ∷ b, states_at n);
  read_message = λ n m. some (suc n, drop 1 m, states_at n);
  channel_binding = λ n. [];
}

carried :
    (n : ℕ) (last : Bool) (s t : ℕ) (p : Bytes)
    → BothStates pairs (states_at n) (states_at n) last
    → s ≡ n
    → t ≡ n
    → length p ≤ 32
    → (Next : ℕ → ℕ → Type 0) → Next (suc s) (suc t)
    → Carried pairs phased last s t p Next
carried n last s t p b es et h Next next = record {
  s' = suc s;
  t' = suc t;
  msg = 1 ∷ p;
  ours = states_at n;
  theirs = states_at n;
  writes = ap (λ k. some (suc s, 1 ∷ p, states_at k)) es;
  reads = ap (λ k. some (suc t, p, states_at k)) et;
  states = b;
  some_byte = omega arith;
  bounded = omega (arith, h);
  next = next;
}

Both : ℕ → ℕ → ℕ → Type 0
Both n s t = (s ≡ n) × (t ≡ n)

honest : Honest pairs phased
unfolding Both pairs states_at
honest = record {
  First = Both 0;
  Second = Both 1;
  Third = Both 2;
  starts = λ a b pa pb ka kb. (0, 0, refl, refl, (refl, refl));
  first = λ s t p f h. carried 0 false s t p not_yet f.0 f.1 h _ (ap suc f.1, ap suc f.0);
  second = λ s t p f h. carried 1 false s t p not_yet f.0 f.1 h _ (ap suc f.1, ap suc f.0);
  third = λ s t p f h. carried 2 true s t p (ready 1 2 1 2 refl refl) f.0 f.1 h _ refl;
  public_size = λ a pa e. ground (arith, e);
}

abbrev pub eight : ℕ → Bytes
eight n = n ∷ n ∷ n ∷ n ∷ n ∷ n ∷ n ∷ n ∷ []

abbrev pub ours : Bytes
ours = eight 1 ++ (eight 2 ++ (eight 3 ++ eight 4))

abbrev pub theirs : Bytes
theirs = eight 5 ++ (eight 6 ++ (eight 7 ++ eight 8))

eight_bytes : (n : ℕ) (b : Bytes) → n < 256 → AreBytes b → AreBytes (eight n ++ b)
eight_bytes n b h rest = (h, (h, (h, (h, (h, (h, (h, (h, rest))))))))

theirs_bytes : AreBytes theirs
theirs_bytes = eight_bytes 5 (eight 6 ++ (eight 7 ++ eight 8)) (omega arith) (
    eight_bytes 6 (eight 7 ++ eight 8) (omega arith)
      (eight_bytes 7 (eight 8) (omega arith) (eight_bytes 8 [] (omega arith) tt)))

abbrev pub initiates : HandshakeConfig
initiates = record { role = 1; static_private = ours; pinned_peer = some theirs; max_payload = 0 }

abbrev pub responds : HandshakeConfig
responds = record { role = 2; static_private = theirs; pinned_peer = none; max_payload = 262144 }

abbrev pub open_wide : Writer
open_wide = record { sent = []; room = 300000 }

abbrev pub first_four : Bytes → Bytes
first_four b = 1 ∷ 2 ∷ 3 ∷ 4 ∷ []

handshakes_agree_example :
    Agreement numbered phased first_four pairs ours theirs []
      (9 ∷ [])
      open_wide
      open_wide
      initiates
      responds
unfolding Capped
handshakes_agree_example =
    handshakes_agree numbered phased first_four pairs honest ours theirs [] (9 ∷ []) open_wide
      open_wide initiates responds refl refl refl refl refl refl (pinned theirs_bytes) unpinned
      (inl refl) (inr (omega arith, omega arith)) (omega arith) (omega arith)

abbrev pub at_i : HandshakeResult numbered phased first_four
at_i = record {
  conn = record {
    out = record { sent = 0 ∷ 1 ∷ 1 ∷ 0 ∷ 33 ∷ 1 ∷ ours; room = 299962 };
    input = [];
    read_cs = 2;
    write_cs = 1;
    max_payload = 262144;
    rbuf = [];
  };
  sas = 9 ∷ 0 ∷ 9 ∷ 0 ∷ 6 ∷ 0 ∷ [];
  peer_static = theirs;
}

abbrev pub at_r : HandshakeResult numbered phased first_four
at_r = record {
  conn = record {
    out = record { sent = 0 ∷ 33 ∷ 1 ∷ theirs; room = 299965 };
    input = 9 ∷ [];
    read_cs = 1;
    write_cs = 2;
    max_payload = 262144;
    rbuf = [];
  };
  sas = 9 ∷ 0 ∷ 9 ∷ 0 ∷ 6 ∷ 0 ∷ [];
  peer_static = ours;
}

unfoldable pub agreed :
    Agreement numbered phased first_four pairs ours theirs []
      (9 ∷ [])
      open_wide
      open_wide
      initiates
      responds
unfolding handshake send_frame send_message write recv_frame read_full pinned_equal with_defaults
    pairs states_at
agreed = record {
  to_responder = 0 ∷ 1 ∷ 1 ∷ 0 ∷ 33 ∷ 1 ∷ ours;
  to_initiator = 0 ∷ 33 ∷ 1 ∷ theirs;
  at_i = at_i;
  at_r = at_r;
  initiator_ok = refl;
  responder_ok = refl;
  knows_responder = refl;
  knows_initiator = refl;
  same_sas = refl;
  out_pair = refl;
  in_pair = refl;
  sent_i = refl;
  sent_r = refl;
  cap_i = refl;
  cap_r = refl;
  fresh_i = refl;
  fresh_r = refl;
  left_i = refl;
  left_r = refl;
}
