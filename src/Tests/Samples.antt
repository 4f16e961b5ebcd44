-- ===== src/Tests/Samples.antt =====
-- Concrete prefixes, surroundings, an engine and a controller for the tests.
use rtbh_panel.Common.{
  Bool, true, false, none, some, [], ◌∷◌, if◌then◌else◌, ite, str_eq, refl, arith,
}
use rtbh_panel.Net.Addr.{Addr, ip4}
use rtbh_panel.Net.Prefix.{Prefix, p4, discrete}
use rtbh_panel.Common.{ℕ_discrete}
use rtbh_panel.Common.Lists.{distinct, member}
use rtbh_panel.Common.Assoc.{lookup}
use rtbh_panel.Net.Prefix.{masked}
use rtbh_panel.PolicyStore.Invariant.{IsValid}
use rtbh_panel.PolicyStore.Disk.{System}
use rtbh_panel.PolicyStore.Mutate.{Stored}
use rtbh_panel.Controller.Interface.{RouteEngine, Laws}
use rtbh_panel.Controller.Apply.{SqlStore, Controller}

-- 10.0.0.0/24, 10.0.0.0/25, 192.0.2.0/24
abbrev pub ten : Prefix
ten = p4 0x0a000000 24

abbrev pub half : Prefix
half = p4 0x0a000000 25

abbrev pub docs : Prefix
docs = p4 0xc0000200 24

abbrev pub system : System
system = record {
  now = 5;
  fails = λ _. false;
  parse = λ text.
      if str_eq text "10.0.0.0/24"
      then some ten
      else if str_eq text "192.0.2.0/24"
      then some docs
      else none;
  print = λ p. ite (discrete p ten) "10.0.0.0/24" "192.0.2.0/24";
}

-- An empty store without a file, and one that blocks 10.0.0.0/24 and allows 192.0.2.0/24.
abbrev pub empty_store : Stored
empty_store = record {
  store = record { path = ""; blocklist = []; whitelist = []; expirations = []; audit = [] };
  file = none;
}

abbrev pub two_lists : Stored
two_lists = record {
  store = record {
    path = "";
    blocklist = ten ∷ [];
    whitelist = docs ∷ [];
    expirations = [];
    audit = [];
  };
  file = none;
}

pub two_lists-IsValid : IsValid two_lists.store
unfolding distinct member lookup masked discrete ℕ_discrete
two_lists-IsValid = record {
  blocked_distinct = refl;
  allowed_distinct = refl;
  blocked_stored = (record { canonical = refl; valid = refl }, tt);
  allowed_stored = (record { canonical = refl; valid = refl }, tt);
  expiring_distinct = refl;
  expiring_blocked = λ p t h. absurd (ground arith);
}

abbrev pub next_hop : Addr
next_hop = ip4 0xc0000201

-- An engine that is the test of which prefixes it advertises, and accepts every call.
abbrev pub Table : Type 0
Table = Prefix → Bool

abbrev pub table : RouteEngine Table
table = record {
  announce = λ r e. (true, λ p. ite (discrete r.prefix p) true (e p));
  withdraw = λ r e. (true, λ p. ite (discrete r.prefix p) false (e p));
}

abbrev pub table_laws : Laws table
table_laws = record {
  advertised = λ e p. e p;
  announced = λ r e p h. refl;
  not_announced = λ r e p h. absurd (ground arith);
  withdrawn = λ r e p h. refl;
  not_withdrawn = λ r e p h. absurd (ground arith);
}

-- No SQL store is in use.
abbrev pub no_sql : SqlStore Unit
no_sql = record {
  add_policy = λ m d. (true, d);
  remove_policy = λ m d. (true, d);
  record_audit = λ m d. d;
  all_prefixes = λ l d. [];
}

abbrev pub controller_of : Stored → Controller Table Unit
controller_of s = record {
  stored = s;
  sql = none;
  engine = λ p. false;
  dry_run = false;
  next_hop_v4 = next_hop;
  next_hop_v6 = next_hop;
  publishes = false;
  published = [];
  active = [];
  wake = false;
}
