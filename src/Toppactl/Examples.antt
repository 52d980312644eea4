-- ===== src/Toppactl/Examples.antt =====
-- The theorem on the commands at two sessions with the peer of the tests of the handshake.
use toppa.Base.{ℕ, ◌++◌, Option, ◌≡◌, refl, true, false, none, some, [], ◌∷◌}
use toppa.Base.Lists.{length, take, drop, All}
use toppa.Base.Bytes.{Bytes, write, read_full}
use toppa.Base.Texts.{same_text}
use toppa.Base.Results.{Result, ok}
use toppa.Tunnel.Framing.{send_frame, send_message, recv_frame, pinned_equal}
use toppa.Tunnel.Handshake.{handshake, with_defaults}
use toppa.Tunnel.Examples.{plain, mirrored, digest, wide, key}
use toppa.Keys.Disk.{Disk, write_file}
use toppa.Keys.Store.{pin_peer, pinned_peer}
use toppa.Keys.Examples.{
  slashed, two_keys, timed_pin, timed_pin-Decodes, fresh_identity, empty_disk, store,
}
use toppa.Toppactl.Pairing.{default_name, Session, pinned_if, authenticated}
use toppa.Toppactl.Trust.{pinned_peers_only}
use toppa.Toppactl.Ping.{payload_from, bytes_equal, ping}
use toppa.Toppactl.Serve.{Server, serve_conns}
use toppa.Toppactl.Serving.{serving, answered}
use toppa.Toppactl.Repinning.{pinned_after, serve_repins}

abbrev session : Session
session = record {
  role = 1;
  fresh = some fresh_identity;
  dialled = true;
  deadline_set = true;
  out = wide;
  input = 0 ∷ 33 ∷ 1 ∷ key;
  now = 6;
}

abbrev pinned_disk : Disk
pinned_disk = (pin_peer slashed timed_pin store empty_disk default_name (some key) 5).0

pinned_first :
    pin_peer slashed timed_pin store empty_disk default_name (some key) 5 ≡ (pinned_disk, ok tt)
unfolding pin_peer write_file
pinned_first = refl

pinned_peers_only_example :
    All
      (λ k. pinned_equal k key ≡ true)
      (authenticated plain mirrored digest slashed timed_pin two_keys store pinned_disk
        (session ∷ session ∷ []))
unfolding same_text
pinned_peers_only_example =
    pinned_peers_only plain mirrored digest slashed timed_pin two_keys store empty_disk pinned_disk
      key 5 (session ∷ session ∷ []) timed_pin-Decodes refl refl pinned_first

abbrev calls : Session
calls = record session { input = 0 ∷ 1 ∷ 1 ∷ 0 ∷ 33 ∷ 1 ∷ key }

abbrev server : Server
server = record {
  store = store;
  id = record { private_key = some key; public_key = some key };
  pinned = some key;
  has = true;
}

abbrev trusting : Server
trusting = record server { pinned = none; has = false }

serve_repins_example :
    ((serve_conns plain mirrored digest slashed timed_pin trusting empty_disk (calls ∷ [])).1
      ≡ answered plain mirrored digest slashed timed_pin trusting (calls ∷ []))
    × (All
        (λ l. (serving plain mirrored digest slashed timed_pin trusting l).pinned_peer ≡ none)
        (calls ∷ []))
    × (pinned_peer slashed timed_pin store
          (serve_conns plain mirrored digest slashed timed_pin trusting empty_disk (calls ∷ [])).0
          default_name
        ≡ pinned_after plain mirrored digest slashed timed_pin
            (pinned_peer slashed timed_pin store empty_disk default_name)
            (answered plain mirrored digest slashed timed_pin trusting (calls ∷ [])))
serve_repins_example =
    serve_repins plain mirrored digest slashed timed_pin trusting empty_disk (calls ∷ [])
      timed_pin-Decodes (λ p. (_, refl)) refl refl refl

-- Both connections are served.
both_served :
    length
      (serve_conns plain mirrored digest slashed timed_pin server empty_disk (calls ∷ calls ∷ [])).1
    ≡ 2
unfolding serve_conns handshake send_frame send_message write recv_frame read_full pinned_equal
    with_defaults pinned_if
both_served = refl

-- A stream whose peer sends back what it gets, by the bytes on their way.
abbrev send_back : Bytes → Bytes → Bytes × Option (Unit {0})
send_back way b = (way ++ b, none)

abbrev take_back : Bytes → ℕ → Bytes × Result (Unit {0}) Bytes
take_back way n = (drop n way, ok (take n way))

pinged : ping send_back take_back 2 3 [] ≡ ([], none)
unfolding ping bytes_equal payload_from
pinged = refl
