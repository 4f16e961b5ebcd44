-- ===== src/PolicyStore/Accepted.antt =====
-- Open accepts only files whose content makes a valid store.
use rtbh_panel.Common.{
  String, Bool, true, false, ◌≡◌, ◌≢◌, refl, subst, some, List, [], ◌∷◌, ◌++◌, arith, Bool-cases,
  Option-cases, inl, inr, str_eq,
}
use rtbh_panel.Common.Results.{ok_injective}
use rtbh_panel.Common.Lists.{All, All-append_one, member, distinct, distinct-append_one}
use rtbh_panel.Common.Assoc.{keys, lookup, lookup-insert, distinct-keys-insert}
use rtbh_panel.Net.Prefix.{Prefix, is_valid, masked, discrete}
use rtbh_panel.Net.Overlap.{masked-masked, is_valid-masked}
use rtbh_panel.Policy.{Time}
use rtbh_panel.PolicyStore.State.{
  AuditEvent, Error, Store, ok, err, >>=-eq-ok, check, invalid_audit, new, read, decode,
}
use rtbh_panel.PolicyStore.Disk.{System, DiskState}
use rtbh_panel.PolicyStore.Load.{
  validate_prefixes, validate_expiration, validate_expirations, validate_audit, valid_event,
  validate_state, open_store, File, content, missing, unreadable, malformed,
}
use rtbh_panel.PolicyStore.Invariant.{IsValid, IsStored, masked-IsStored, new-IsValid}
use rtbh_panel.PolicyStore.Replay.{IsLogged}

abbrev Listed : List Prefix → Type 0
Listed ps = (distinct discrete ps ≡ true) × All IsStored ps

no_prefixes : Listed []
unfolding distinct
no_prefixes = (refl, tt)

validate_prefixes-Listed :
    (done ps r : List Prefix) → Listed done → validate_prefixes done ps ≡ ok r → Listed r
unfolding validate_prefixes
validate_prefixes-Listed done [] r h e = ground arith
validate_prefixes-Listed done (p ∷ ps) r h e = elim (Bool-cases (is_valid p)) [
  | inr f ↦ absurd (ground arith)
  | inl f ↦ elim (Bool-cases (member discrete (masked p) done)) [
    | inl m ↦ absurd (ground arith)
    | inr m ↦
        validate_prefixes-Listed (done ++ masked p ∷ []) ps r
          (
            distinct-append_one discrete (masked p) done h.0 m,
            All-append_one IsStored done (masked p) h.1 (masked-IsStored p f),
          )
          (ground arith)
  ]
]

pub record Expiring (blocklist : List Prefix) (m : List (Prefix × Time)) : Type 0 where
  pub once : distinct discrete (keys m) ≡ true
  pub blocked :
      (p : Prefix) (t : Time)
      → lookup discrete p m ≡ some t
      → (member discrete p blocklist ≡ true) × (t ≢ 0)

no_expiries : (blocklist : List Prefix) → Expiring blocklist []
unfolding distinct lookup
no_expiries blocklist = record { once = refl; blocked = λ p t h. cc }

validate_expiration-Expiring :
    (sys : System) (bl : List Prefix) (done r : List (Prefix × Time)) (key : String) (t : Time)
    → Expiring bl done
    → validate_expiration sys bl done key t ≡ ok r
    → Expiring bl r
unfolding validate_expiration
validate_expiration-Expiring sys bl done r key t h e = elim (Option-cases (sys.parse key)) [
  | inl n ↦ absurd (ground arith)
  | inr (p, n) ↦ record {
    once = ground (arith, distinct-keys-insert discrete (masked p) t done h.once);
    blocked = λ q u k. ground (arith, lookup-insert discrete (masked p) q t done, h.blocked q u);
  }
]

validate_expirations-Expiring :
    (sys : System) (bl : List Prefix) (done r : List (Prefix × Time)) (m : List (String × Time))
    → Expiring bl done
    → validate_expirations sys bl done m ≡ ok r
    → Expiring bl r
unfolding validate_expirations
validate_expirations-Expiring sys bl done r [] h e = ground arith
validate_expirations-Expiring sys bl done r ((key, t) ∷ m) h e =
    let (next, f, k) = >>=-eq-ok (validate_expiration sys bl done key t) _ e in
    validate_expirations-Expiring sys bl next r m
      (validate_expiration-Expiring sys bl done next key t h f) k

check-true : (b : Bool) (e : Error) {u : Unit {0}} → check b e ≡ ok u → b ≡ true
check-true true e h = refl
check-true false e h = cc

event-IsLogged :
    (e : AuditEvent) → valid_event e ≡ true → IsLogged (record e { prefix = masked e.prefix })
unfolding valid_event
event-IsLogged e h = record {
  valid = ground (arith, is_valid-masked e.prefix);
  canonical = masked-masked e.prefix;
}

validate_audit-IsLogged : (log r : List AuditEvent) → validate_audit log ≡ ok r → All IsLogged r
unfolding validate_audit
validate_audit-IsLogged [] r e = subst (All IsLogged) (ok_injective e) tt
validate_audit-IsLogged (e ∷ log) r h =
    let (_, valid, k) = >>=-eq-ok (check (valid_event e) invalid_audit) _ h in
    let (rest, f, last) = >>=-eq-ok (validate_audit log) _ k in
    subst (All IsLogged) (ok_injective last) (
      event-IsLogged e (check-true (valid_event e) invalid_audit valid),
      validate_audit-IsLogged log rest f,
    )

validate_state-IsValid :
    (sys : System) (path : String) (d : DiskState) (s : Store)
    → validate_state sys path d ≡ ok s
    → IsValid s × All IsLogged s.audit
unfolding validate_state
validate_state-IsValid sys path d s h =
    let (bl, f, h1) = >>=-eq-ok (validate_prefixes [] d.blocklist) _ h in
    let (wl, g, h2) = >>=-eq-ok (validate_prefixes [] d.whitelist) _ h1 in
    let (ex, k, h3) = >>=-eq-ok (validate_expirations sys bl [] d.expirations) _ h2 in
    let (log, l, h4) = >>=-eq-ok (validate_audit d.audit) _ h3 in
    let denied = validate_prefixes-Listed [] d.blocklist bl no_prefixes f in
    let allowed = validate_prefixes-Listed [] d.whitelist wl no_prefixes g in
    let expiring = validate_expirations-Expiring sys bl [] ex d.expirations (no_expiries bl) k in
    subst (λ t. IsValid t × All IsLogged t.audit) (ok_injective h4)
      (
        record {
          blocked_distinct = denied.0;
          allowed_distinct = allowed.0;
          blocked_stored = denied.1;
          allowed_stored = allowed.1;
          expiring_distinct = expiring.once;
          expiring_blocked = expiring.blocked;
        },
        validate_audit-IsLogged d.audit log l,
      )

accepted :
    (sys : System) (path : String) (file : File) (s : Store)
    → elim file [
      | missing ↦ ok (new path)
      | unreadable ↦ err read
      | malformed ↦ err decode
      | content state ↦ validate_state sys path state
    ]
      ≡ ok s
    → IsValid s × All IsLogged s.audit
accepted sys path missing s h =
    subst (λ t. IsValid t × All IsLogged t.audit) (ok_injective h)
      (new-IsValid path, unfold new in tt)
accepted sys path unreadable s h = absurd (ground arith)
accepted sys path malformed s h = absurd (ground arith)
accepted sys path (content d) s h = validate_state-IsValid sys path d s h

-- A store that Open returns is valid and its audit events are well formed, whatever the file held.
pub open_store-IsValid :
    (sys : System) (path : String) (file : File) (s : Store)
    → open_store sys path file ≡ ok s
    → IsValid s × All IsLogged s.audit
unfolding open_store
open_store-IsValid sys path file s h = elim (Bool-cases (str_eq path "")) [
  | inl e ↦ absurd (ground arith)
  | inr e ↦ accepted sys path file s (ground arith)
]
