-- ===== src/Controller/Expired.antt =====
-- What the removal of expired prefixes leaves in the policy file's store.
use rtbh_panel.Common.{
  Bool, true, false, not, ◌&&◌, ◌||◌, ◌≡◌, refl, sym, subst, ite, Option, none, some, List, [], ◌∷◌,
  arith, leb, Bool-cases, Option-cases, inl, inr, if◌then◌else◌,
}
use rtbh_panel.Common.Lists.{member, distinct, All}
use rtbh_panel.Common.Assoc.{keys, lookup}
use rtbh_panel.Net.Prefix.{Prefix, discrete, masked}
use rtbh_panel.Policy.{Time}
use rtbh_panel.PolicyStore.Disk.{System}
use rtbh_panel.PolicyStore.Invariant.{IsValid}
use rtbh_panel.Controller.Interface.{RouteEngine}
use rtbh_panel.Controller.Routes.{expired_at}
use rtbh_panel.Controller.Apply
use rtbh_panel.Controller.Apply.{
  SqlStore, Controller, Proposal, changed, unchanged, unsupported, propose, routes, deliver,
  persist_policy, carry_out, apply_locked,
}
use rtbh_panel.Controller.Service.{remove_expired, apply_expired}
use rtbh_panel.Controller.Removal.{removal, apply_locked-Removed}

module _ {E D : Type 0} (g : RouteEngine E) (q : SqlStore D) where
  -- Whether a prefix stands in a list of expiries with one that has passed.
  unfoldable expired_in : Time → List (Prefix × Time) → Prefix → Bool
  expired_in now [] x = false
  expired_in now ((p, t) ∷ rest) x =
      ite (discrete p x) (leb t now || expired_in now rest x) (expired_in now rest x)

  record Remaining (now : Time) (l : List (Prefix × Time)) (c next : Controller E D) : Type 0 where
    valid : IsValid next.stored.store
    listed :
        (x : Prefix)
        → member discrete x next.stored.store.blocklist
          ≡ member discrete x c.stored.store.blocklist && not (expired_in now l x)
    expiring :
        (x : Prefix)
        → lookup discrete x next.stored.store.expirations
          ≡ (if expired_in now l x then none else lookup discrete x c.stored.store.expirations)

  -- The prefixes of the expiries are masked, and their texts parse back.
  abbrev pub IsPrinted : System → List (Prefix × Time) → Type 0
  IsPrinted sys = All (λ e. (masked e.0 ≡ e.0) × (sys.parse (sys.print e.0) ≡ some e.0))

  remove_expired-Remaining :
      (sys : System) (l : List (Prefix × Time)) (c : Controller E D)
      → IsValid c.stored.store
      → IsPrinted sys l
      → (remove_expired g q sys l c).0 ≡ none
      → Remaining sys.now l c (remove_expired g q sys l c).1
  unfolding remove_expired expired_in
  remove_expired-Remaining sys [] c v k h = record {
    valid = v;
    listed = λ x. ground arith;
    expiring = λ x. refl;
  }
  remove_expired-Remaining sys ((p, t) ∷ rest) c v ((m, k), ks) h =
      elim (Bool-cases (leb t sys.now)) [
        | inr late ↦
            let step : remove_expired g q sys ((p, t) ∷ rest) c ≡ remove_expired g q sys rest c =
              ground arith in
            let r = remove_expired-Remaining sys rest c v ks (ground arith) in
            subst
              (λ (o : Option Apply.Failure × Controller E D).
                Remaining sys.now ((p, t) ∷ rest) c o.1)
              (sym step)
              (record {
                valid = r.valid;
                listed = λ x. ground (arith, r.listed x);
                expiring = λ x. ground (arith, r.expiring x);
              })
        | inl past ↦
            let one = apply_locked g q sys sys.now (removal g q sys p) c in
            let sound : one.0 ≡ none = elim (Option-cases one.0) [
              | inl n ↦ n
              | inr (f, n) ↦ absurd (ground arith)
            ] in
            let step : remove_expired g q sys ((p, t) ∷ rest) c
                ≡ remove_expired g q sys rest one.1 =
              ground arith in
            let first = apply_locked-Removed g q sys p c v m k sound in
            let r = remove_expired-Remaining sys rest one.1 first.valid ks (ground arith) in
            subst
              (λ (o : Option Apply.Failure × Controller E D).
                Remaining sys.now ((p, t) ∷ rest) c o.1)
              (sym step)
              (record {
                valid = r.valid;
                listed = λ x. ground (arith, r.listed x, first.listed x);
                expiring = λ x. ground (arith, r.expiring x, first.expiring x);
              })
      ]

  expired_in-keys :
      (now : Time) (l : List (Prefix × Time)) (x : Prefix)
      → member discrete x (keys l) ≡ false
      → expired_in now l x ≡ false
  unfolding expired_in member
  expired_in-keys now [] x h = refl
  expired_in-keys now ((p, t) ∷ rest) x h = ground (arith, expired_in-keys now rest x)

  -- In a map each prefix has one expiry.
  expired_in-lookup :
      (now : Time) (l : List (Prefix × Time)) (x : Prefix)
      → distinct discrete (keys l) ≡ true
      → expired_in now l x ≡ expired_at now (lookup discrete x l)
  unfolding expired_in distinct lookup
  expired_in-lookup now [] x h = refl
  expired_in-lookup now ((p, t) ∷ rest) x h = elim (discrete p x) [
    | yes e ↦ ground (arith, expired_in-keys now rest p)
    | no n ↦ ground (arith, expired_in-lookup now rest x)
  ]

  -- An applyExpired on a valid store, whose prefixes have texts that parse back, that reports no
  -- error leaves a valid store: exactly the prefixes whose expiry has passed are gone from the
  -- blocklist and from the expiries, and every other one is as it was.
  pub apply_expired_remaining :
      (sys : System) (c : Controller E D)
      → IsValid c.stored.store
      → IsPrinted sys c.stored.store.expirations
      → (apply_expired g q sys c).0 ≡ none
      → IsValid (apply_expired g q sys c).1.stored.store
        × ((x : Prefix)
            → (member discrete x (apply_expired g q sys c).1.stored.store.blocklist
                ≡ member discrete x c.stored.store.blocklist
                  && not (expired_at sys.now (lookup discrete x c.stored.store.expirations)))
              × (lookup discrete x (apply_expired g q sys c).1.stored.store.expirations ≡ (
                  if expired_at sys.now (lookup discrete x c.stored.store.expirations)
                  then none
                  else lookup discrete x c.stored.store.expirations)))
  unfolding apply_expired
  apply_expired_remaining sys c v k h =
      let r = remove_expired-Remaining sys c.stored.store.expirations c v k h in
      (
        r.valid,
        λ x.
            let same = expired_in-lookup sys.now c.stored.store.expirations x v.expiring_distinct in
            (ground (arith, r.listed x, same), ground (arith, r.expiring x, same)),
      )
