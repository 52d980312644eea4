-- ===== src/Daemon/Doh.antt =====
-- How the DoH upstream of desktop/internal/resolver dials through the tunnel: the `Dial` that `connect` of
-- desktop/internal/daemon/daemon.go hands to it.
use toppa.Base.{ℕ, ◌-◌, ◌%◌, ◌^◌, ◌≡◌, refl, Option, none, some, List, [], ◌∷◌}
use toppa.Base.Lists.{All}
use toppa.Base.Bytes.{Bytes}
use toppa.Base.Ints.{ℤ, pos, negsuc}
use toppa.Base.Results.{Result, err}
use toppa.Mux.Session.State.{Session}
use toppa.Relay.Dialer.{
  Pacer, Error, acquire, release_pacer, Dialer, Ip, neither, Conn, dial_target, dial_paced,
  dial_session, dial_with, target_of, dial_tcp,
}
use toppa.Resolver.Tcp.{all_failed}
use toppa.Resolver.Doh.{Reply, doh_post, query_wire}
use toppa.Daemon.Parts.{host_of, port_of}

-- The port as `uint16` reads it: the bits of the `int`.
unfoldable pub port_bits : ℤ → ℕ
port_bits (pos n) = n
port_bits (negsuc n) = 2 ^ 64 - 1 - n % 2 ^ 64

-- `parse_ip` is `net.ParseIP`; the results of the other two are as in Daemon/Parts.
module _ (split : Bytes → Option (Bytes × Bytes)) (scan : Bytes → Option ℤ)
    (parse_ip : Bytes → Ip) where
  unfoldable pub doh_dial : Dialer → Bytes → Dialer × Result Error Conn
  unfolding port_bits
  doh_dial d addr = dial_tcp d (parse_ip (host_of split addr)) (port_bits (port_of split scan addr))

  -- A dial that has failed and left the session as it was.
  abbrev pub Refused : Dialer → Dialer × Result Error Conn → Type 0
  Refused d r = (r.0.session ≡ d.session) × ((e : Error) × (r.1 ≡ err e))

  dial_paced-Refused :
      (d : Dialer) (s : Session) (r : Pacer × Option Error) → Refused d (dial_paced d s none r)
  unfolding dial_paced release_pacer dial_target
  dial_paced-Refused d s (p, some e) = (refl, (e, refl))
  dial_paced-Refused d s (p, none) = (refl, (Error.bad_address, refl))

  dial_session-Refused :
      (d : Dialer) (s : Session) (o : Option Pacer) → Refused d (dial_session d none s o)
  unfolding dial_session dial_target
  dial_session-Refused d s none = (refl, (Error.bad_address, refl))
  dial_session-Refused d s (some p) = dial_paced-Refused d s (acquire p)

  dial_with-Refused : (d : Dialer) (o : Option Session) → Refused d (dial_with d none o)
  unfolding dial_with
  dial_with-Refused d none = (refl, (Error.no_session, refl))
  dial_with-Refused d (some s) = dial_session-Refused d s d.pacer

  named-Refused :
      (d : Dialer) (addr : Bytes)
      → parse_ip (host_of split addr) ≡ neither
      → Refused d (doh_dial d addr)
  unfolding doh_dial dial_tcp target_of
  named-Refused d addr h = rw h (dial_with-Refused d d.session)

  -- Where a POST fails whose dial fails: if the hosts of all servers are names and no IP addresses, then whatever the dialer is, every
  -- dial of every server fails and leaves the session as it was, and every query fails.
  pub named_servers_fail :
      {Server : Type 0} (post : Server → Bytes → Option Reply) (authority : Server → Bytes)
      (servers : List Server) (query : Bytes)
      → ((s : Server) → ((d : Dialer) → Refused d (doh_dial d (authority s))) → post s query ≡ none)
      → All (λ s. parse_ip (host_of split (authority s)) ≡ neither) servers
      → All (λ s. (d : Dialer) → Refused d (doh_dial d (authority s))) servers
        × (query_wire post servers query ≡ err all_failed)
  unfolding query_wire doh_post
  named_servers_fail post authority [] query fails named = (tt, refl)
  named_servers_fail post authority (s ∷ ss) query fails (n, named) =
      let refused = λ (d : Dialer). named-Refused d (authority s) n in
      let (all, rest) = named_servers_fail post authority ss query fails named in
      ((refused, all), rw (fails s refused) rest)
