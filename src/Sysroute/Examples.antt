-- ===== src/Sysroute/Examples.antt =====
-- The theorems on the route manager at a configurer that counts and a journal of one route.
use mathlib.Core.List.{reverse}
use toppa.Base.{ℕ, ◌+◌, refl, true, false, some, [], ◌∷◌}
use toppa.Base.Lists.{is_empty, All}
use toppa.Base.Bytes.{Bytes, codes}
use toppa.Base.Results.{Result, ok}
use toppa.Base.Ints.{pos}
use toppa.Failsafe.Journal.{pending, Entry, Journal, outstanding}
use toppa.Sysroute.Netsh.{IpNet, Error, Commands, NetConfigurer}
use toppa.Sysroute.Manager.{Desired, Host, apply, rollback}
use toppa.Sysroute.Applying.{Log, logging, Listed, AllButLast, apply_journals}
use toppa.Sysroute.Undoing.{Answers, log_run, ExecutedAll, OfWords, rollback_runs_words}

abbrev text_of : Bytes → Bytes
text_of ip = ip

abbrev net_text_of : IpNet → Bytes
net_text_of net = net.ip

abbrev counted : ℕ → ℕ × Result Error Commands
counted w = (w + 1, ok (record { apply = []; undo = codes "undo" ∷ [] }))

abbrev counting : NetConfigurer ℕ
counting = record {
  set_interface_ip = λ w i ip n. counted w;
  add_route = λ w dst i m. counted w;
  set_dns = λ w i s. counted w;
  list_interfaces = λ w. (w, ok (record { name = codes "wlan"; description = [] } ∷ []));
}

abbrev desired : Desired
desired = record {
  adapter_name = codes "Toppa";
  tunnel_ip = 10 ∷ 0 ∷ 0 ∷ 2 ∷ [];
  tunnel_prefix_len = pos 24;
  default_route_metric = pos 5;
  dns = (10 ∷ 0 ∷ 0 ∷ 2 ∷ []) ∷ [];
  rewrite_physical_dns = true;
}

abbrev numbered : ℕ → ℕ × ℕ
numbered n = (n, n)

-- The second write of the journal fails.
abbrev start : Host (ℕ × Log)
start = record {
  world = (0, []);
  journal = record { entries = []; file = []; disk = true ∷ false ∷ [] };
  drawn = 0;
}

start-Listed : Listed start
start-Listed = record { listed = refl; synced = refl }

apply_journals_example :
    AllButLast (apply numbered text_of net_text_of (some (logging counting)) desired start)
apply_journals_example =
    apply_journals numbered text_of net_text_of counting desired start start-Listed

abbrev route : Entry
route = record {
  id = 1;
  description = codes "route";
  apply = [];
  undo = codes "route" ∷ codes "delete" ∷ codes "0.0.0.0" ∷ [];
  state = pending;
  created_at = 0;
}

abbrev one_route : Journal
one_route = record { entries = route ∷ []; file = route ∷ []; disk = [] }

route_words : All OfWords (outstanding one_route.entries)
unfolding outstanding
route_words = (
  (
    (refl, (refl, (refl, (refl, (refl, (refl, tt)))))),
    (
      (refl, (refl, (refl, (refl, (refl, (refl, (refl, tt))))))),
      ((refl, (refl, (refl, (refl, (refl, (refl, (refl, (refl, tt)))))))), tt),
    ),
  ),
  tt,
)

-- Only the first command succeeds.
abbrev first_only : Answers
first_only w name args = is_empty w

rollback_runs_words_example :
    ExecutedAll first_only []
      (reverse (outstanding one_route.entries))
      (rollback (log_run first_only) [] one_route).world
unfolding outstanding
rollback_runs_words_example = rollback_runs_words first_only [] one_route route_words
