-- ===== src/Daemon/Fitting.antt =====
-- A validated configuration as the session of desktop/internal/daemon/daemon.go gets it.
use native.Mathlib.Nat.{mod-eq_of_lt}
use toppa.Base.{ℕ, ◌*◌, ◌≤◌, ◌<◌, ◌≡◌, sym, ap, ◌∙◌, Bool, false, arith}
use toppa.Base.Tests.{◌==◌, ltb, if◌then◌else◌}
use toppa.Base.Bytes.{Writer, u32_mod}
use toppa.Base.Ints.{ℤ, pos, ltz}
use toppa.Config
use toppa.Config.Valid.{IsValid}
use toppa.Mux.Session.State.{Session, new, with_defaults}
use toppa.Daemon.Parts.{to_u32, seconds, mux_config}

-- The numbers of the configuration, unchanged, with a window that takes a whole frame.
pub record Fits (c : toppa.Config.Config) (s : Session) : Type 0 where
  pub payload : pos s.cfg.max_frame_payload ≡ c.tunnel.max_frame_payload
  pub window : pos s.cfg.initial_window ≡ c.tunnel.initial_stream_window
  pub one_frame : s.cfg.max_frame_payload ≤ s.cfg.initial_window
  pub low : 1024 ≤ s.cfg.max_frame_payload
  pub high : s.cfg.max_frame_payload ≤ 262144
  pub keep_alive : (n : ℕ) → c.tunnel.keep_alive_secs ≡ pos n → s.cfg.keep_alive ≡ n * 1000000000

to_u32_small : (n : ℕ) → n < u32_mod → to_u32 (pos n) ≡ n
unfolding to_u32
to_u32_small n h = mod-eq_of_lt h

seconds_small : (n : ℕ) → n ≤ 600 → seconds (pos n) ≡ n * 1000000000
unfolding seconds
seconds_small n h = omega (arith, h)

-- A number that is not zero is not replaced by its default.
kept :
    (v : ℤ) (n d : ℕ)
    → v ≡ pos n
    → 0 < n
    → n < u32_mod
    → (if to_u32 v == 0 then d else to_u32 v) ≡ n
kept v n d e z h = rw e (ground (arith, to_u32_small n h))

at_least : (v m : ℤ) (n k : ℕ) → ltz v m ≡ false → v ≡ pos n → m ≡ pos k → k ≤ n
at_least v m n k h e f =
    let q : ltb n k ≡ false = sym (ap (λ x. ltz x (pos k)) e) ∙ sym (ap (ltz v) f) ∙ h in
    ground (arith, q)

pos_eq : (a b : ℕ) → pos a ≡ pos b → a ≡ b
pos_eq a b h = cc

seconds_kept : (v : ℤ) (n m : ℕ) → v ≡ pos n → v ≡ pos m → n ≤ 600 → seconds v ≡ m * 1000000000
seconds_kept v n m e f h =
    let same = pos_eq n m (sym e ∙ f) in rw f (seconds_small m (omega (arith, same, h)))

-- For a configuration that `Validate` accepts and whose initial window is below 2^32, a session has the configured
-- numbers: none is cut by its conversion or replaced by a default, a frame's payload is at most 256 KiB, and the
-- initial window takes a whole frame.
pub valid_config-Fits :
    (c : toppa.Config.Config) (conn : Writer) (initiator : Bool) (now w : ℕ)
    → IsValid c
    → c.tunnel.initial_stream_window ≡ pos w
    → w < u32_mod
    → Fits c (new conn (mux_config c initiator) now)
unfolding new mux_config with_defaults
valid_config-Fits c conn initiator now w v e h =
    let p = v.max_frame_payload in
    let k = v.keep_alive_secs in
    let fits : p.value ≤ w =
      at_least c.tunnel.initial_stream_window c.tunnel.max_frame_payload w p.value
        v.initial_stream_window e p.is in
    let payload =
      kept c.tunnel.max_frame_payload p.value (64 * 1024) p.is (omega (arith, p.low))
        (omega (arith, p.high)) in
    let window =
      kept c.tunnel.initial_stream_window w (256 * 1024) e (omega (arith, p.low, fits)) h in
    record {
      payload = ap pos payload ∙ sym p.is;
      window = ap pos window ∙ sym e;
      one_frame = omega (arith, payload, window, fits);
      low = omega (arith, payload, p.low);
      high = omega (arith, payload, p.high);
      keep_alive = λ n f. seconds_kept c.tunnel.keep_alive_secs k.value n k.is f k.high;
    }
