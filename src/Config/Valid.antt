-- ===== src/Config/Valid.antt =====
-- What `Validate` accepts, and what `Load` returns.
use toppa.Base.{subst, inl, inr, ◌≡◌, ◌↔◌, refl, sym, ap, true, false, Option, List, [], ◌∷◌, arith}
use toppa.Base.Tests.{Bool-cases}
use toppa.Base.Bytes.{Bytes}
use toppa.Base.Results.{ok, ◌>>=◌, >>=-eq-ok}
use toppa.Base.Texts.{same_text, same_text_eq, same_text_refl}
use toppa.Base.Ints.{ltz, Within, outside-Within, Within-outside}
use toppa.Config.{
  Config, default_config, one_of, dns_modes, log_levels, log_formats, validate, validated, decoded,
  contents, load,
}

-- A string is an element of a list of strings.
pub data Among (s : Bytes) : List Bytes → Type 0 where
  here : {x : Bytes} {xs : List Bytes} → s ≡ x → Among s (x ∷ xs)
  later : {x : Bytes} {xs : List Bytes} → Among s xs → Among s (x ∷ xs)

-- The ranges and the admitted words that the errors of `Validate` name.
pub record IsValid (c : Config) : Type 0 where
  pub mtu : Within 576 65535 c.tunnel.mtu
  pub max_frame_payload : Within 1024 262144 c.tunnel.max_frame_payload
  pub initial_stream_window : ltz c.tunnel.initial_stream_window c.tunnel.max_frame_payload ≡ false
  pub keep_alive_secs : Within 0 600 c.tunnel.keep_alive_secs
  pub handshake_timeout_ms : Within 500 60000 c.tunnel.handshake_timeout_ms
  pub listen_port : Within 1024 65535 c.tunnel.listen_port
  pub max_streams : Within 1 65535 c.relay.max_streams
  pub buffer_kb : Within 4 8192 c.relay.buffer_kb
  pub mode : Among c.dns.mode dns_modes
  pub level : Among c.log.level log_levels
  pub format : Among c.log.format log_formats

one_of-Among : (xs : List Bytes) (s : Bytes) → one_of xs s ≡ true → Among s xs
unfolding one_of
one_of-Among [] s h = absurd cc
one_of-Among (x ∷ xs) s h = elim (Bool-cases (same_text s x)) [
  | inl e ↦ here (same_text_eq s x e)
  | inr e ↦ later (one_of-Among xs s (ground (arith, h, e)))
]

Among-one_of : (xs : List Bytes) (s : Bytes) → Among s xs → one_of xs s ≡ true
unfolding one_of
Among-one_of [] s a = elim a [ ]
Among-one_of (x ∷ xs) s (here e) = ground (arith, ap (same_text s) (sym e), same_text_refl s)
Among-one_of (x ∷ xs) s (later a) = ground (arith, Among-one_of xs s a)

validate-IsValid : (c : Config) → validate c ≡ ok tt → IsValid c
unfolding validate
validate-IsValid c h = record {
  mtu = outside-Within 576 65535 c.tunnel.mtu (ground (arith, h));
  max_frame_payload = outside-Within 1024 262144 c.tunnel.max_frame_payload (ground (arith, h));
  initial_stream_window = ground (arith, h);
  keep_alive_secs = outside-Within 0 600 c.tunnel.keep_alive_secs (ground (arith, h));
  handshake_timeout_ms = outside-Within 500 60000 c.tunnel.handshake_timeout_ms (ground (arith, h));
  listen_port = outside-Within 1024 65535 c.tunnel.listen_port (ground (arith, h));
  max_streams = outside-Within 1 65535 c.relay.max_streams (ground (arith, h));
  buffer_kb = outside-Within 4 8192 c.relay.buffer_kb (ground (arith, h));
  mode = one_of-Among dns_modes c.dns.mode (ground (arith, h));
  level = one_of-Among log_levels c.log.level (ground (arith, h));
  format = one_of-Among log_formats c.log.format (ground (arith, h));
}

IsValid-validate : (c : Config) → IsValid c → validate c ≡ ok tt
unfolding validate
IsValid-validate c v =
    rw
      (
        Within-outside _ _ c.tunnel.mtu v.mtu,
        Within-outside _ _ c.tunnel.max_frame_payload v.max_frame_payload,
        v.initial_stream_window,
        Within-outside _ _ c.tunnel.keep_alive_secs v.keep_alive_secs,
        Within-outside _ _ c.tunnel.handshake_timeout_ms v.handshake_timeout_ms,
        Within-outside _ _ c.tunnel.listen_port v.listen_port,
        Within-outside _ _ c.relay.max_streams v.max_streams,
        Within-outside _ _ c.relay.buffer_kb v.buffer_kb,
        Among-one_of dns_modes c.dns.mode v.mode,
        Among-one_of log_levels c.log.level v.level,
        Among-one_of log_formats c.log.format v.format,
      )
      refl

-- `Validate` returns nil exactly on the configurations whose numbers are in their ranges, whose window
-- is no smaller than a frame's payload, and whose words are among the admitted ones.
pub validate-iff-IsValid : (c : Config) → (validate c ≡ ok tt) ↔ IsValid c
validate-iff-IsValid c = (validate-IsValid c, IsValid-validate c)

validated-eq-ok : (c d : Config) → validated c ≡ ok d → (c ≡ d) × (validate c ≡ ok tt)
unfolding validated
validated-eq-ok c d h =
    let (_, v, e) = >>=-eq-ok (validate c) (λ _. ok c) h in (ground (arith, e), v)

-- Whatever the file system and the decoder do, a configuration that `Load` returns is a valid one; for
-- the empty path it is the default.
pub load-IsValid :
    (read_file : Bytes → Option Bytes) (decode : Bytes → Config → Option Config) (path : Bytes)
    (c : Config)
    → load read_file decode path ≡ ok c
    → IsValid c × (path ≡ [] → c ≡ default_config)
unfolding load
load-IsValid read_file decode [] c h =
    let (same, v) = validated-eq-ok default_config c h in
    (subst IsValid same (validate-IsValid default_config v), λ _. sym same)
load-IsValid read_file decode (x ∷ path) c h =
    let (raw, _, k) =
      >>=-eq-ok (contents (read_file (x ∷ path)))
        (λ r. decoded (decode r default_config) >>= validated) h in
    let (d, _, l) = >>=-eq-ok (decoded (decode raw default_config)) validated k in
    let (same, v) = validated-eq-ok d c l in
    (subst IsValid same (validate-IsValid d v), λ e. absurd cc)
