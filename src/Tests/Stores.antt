-- ===== src/Tests/Stores.antt =====
-- The policy store.
use rtbh_panel.Common.{ℕ_discrete, ◌≡◌, refl, true, none, List, [], ◌∷◌, arith}
use rtbh_panel.Common.Lists.{member, All, index}
use rtbh_panel.Common.Assoc.{lookup, insert}
use rtbh_panel.Net.Prefix.{p4, discrete, masked}
use rtbh_panel.Policy.{blocklist, add}
use rtbh_panel.PolicyStore.State.{Store, new, ok}
use rtbh_panel.PolicyStore.Disk.{System, DiskState, persist}
use rtbh_panel.PolicyStore.Mutate.{Stored, mutate, finish, commit, assign, edit, target}
use rtbh_panel.PolicyStore.Load.{
  content, open_store, validate_state, validate_prefixes, validate_expirations, validate_expiration,
  validate_audit,
}
use rtbh_panel.PolicyStore.Invariant.{IsValid, mutate-IsValid, new-IsValid}
use rtbh_panel.PolicyStore.Effects.{mutate_effect}
use rtbh_panel.PolicyStore.Replay.{
  new-IsRecorded, IsRecorded, IsLogged, Call, adds, removes, adds_until, run, run-replay,
}
use rtbh_panel.PolicyStore.Recovery.{open_store-mutate, file_of}
use rtbh_panel.PolicyStore.Accepted.{open_store-IsValid}
use rtbh_panel.Tests.Samples.{ten, docs, system, empty_store}

mutate-IsValid_example : IsValid (mutate system add blocklist ten empty_store).1.store
unfolding new
mutate-IsValid_example = mutate-IsValid system add blocklist ten empty_store (new-IsValid "")

mutate_effect_example :
    member discrete ten (target blocklist (mutate system add blocklist ten empty_store).1.store)
    ≡ true
unfolding mutate finish edit index commit assign masked member discrete ℕ_discrete new
mutate_effect_example =
    mutate_effect system add blocklist ten ten empty_store true (new-IsValid "") refl

abbrev calls : List (System × Call)
calls =
    (system, adds blocklist ten)
    ∷ (system, adds_until blocklist docs 9)
    ∷ (system, removes blocklist ten)
    ∷ []

run-replay_example :
    IsValid (run calls (record { store = new ""; file = none })).store
    × IsRecorded (run calls (record { store = new ""; file = none })).store
run-replay_example =
    run-replay "" none calls
      (λ h. absurd (ground arith), (λ h. absurd (ground arith), (λ h. absurd (ground arith), tt)))

-- A store with a file that is not there yet.
abbrev filed : Stored
filed = record {
  store = record { path = "p.json"; blocklist = []; whitelist = []; expirations = []; audit = [] };
  file = none;
}

open_store-mutate_example :
    open_store system "p.json" (file_of (mutate system add blocklist ten filed).1.file)
    ≡ ok (mutate system add blocklist ten filed).1.store
unfolding new mutate finish edit index commit assign persist
open_store-mutate_example =
    open_store-mutate system add blocklist ten filed (new-IsValid "p.json")
      (new-IsRecorded "p.json") (λ h. absurd (ground arith)) refl refl tt

-- A file with one prefix that is not masked, and what Open makes of it.
abbrev on_disk : DiskState
on_disk = record {
  blocklist = p4 0x0a000007 24 ∷ [];
  whitelist = [];
  audit = [];
  expirations = ("10.0.0.0/24", 9) ∷ [];
}

abbrev opened : Store
opened = record {
  path = "p.json";
  blocklist = ten ∷ [];
  whitelist = [];
  expirations = (ten, 9) ∷ [];
  audit = [];
}

open_store-IsValid_example : IsValid opened × All IsLogged opened.audit
unfolding open_store validate_state validate_prefixes validate_expirations validate_expiration
    validate_audit lookup insert member discrete ℕ_discrete masked
open_store-IsValid_example = open_store-IsValid system "p.json" (content on_disk) opened refl
