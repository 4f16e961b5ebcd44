-- ===== src/Engine/Peers.antt =====
-- sessionPolicy: which dynamic peers may stay established.
use rtbh_panel.Common.{
  ℕ, ◌≤◌, String, Bool, true, false, not, ◌≡◌, ◌≢◌, Option, none, some, List, [], ◌∷◌,
  if◌then◌else◌, ◌==◌, leb, arith, Option-cases, Bool-cases, inl, inr, ◌⊎◌,
}
use rtbh_panel.Common.{ℕ_discrete}
use rtbh_panel.Common.Texts.{string_discrete}
use rtbh_panel.Common.Lists.{length, member}
use rtbh_panel.Common.Assoc.{
  lookup, insert, delete, lookup-insert, lookup-delete, length-insert-le, length-delete-le,
}

pub record SessionPolicy : Type 0 where
  pub allowed : List ℕ
  pub max : ℕ
  pub peers : List (String × ℕ)

-- newSessionPolicy; the set of allowed numbers is the list that it is built from
unfoldable pub new : List ℕ → ℕ → SessionPolicy
new allowed max = record { allowed = allowed; max = max; peers = [] }

-- Whether the list of allowed numbers lets a peer in; the empty list lets every peer in.
abbrev pub permits : List ℕ → ℕ → Bool
permits [] asn = true
permits (a ∷ rest) asn = member ℕ_discrete asn (a ∷ rest)

unfoldable pub admit_peer : SessionPolicy → String → ℕ → SessionPolicy × Bool
admit_peer p address asn = elim (lookup string_discrete address p.peers) [
  | some current ↦ (p, current == asn)
  | none ↦
      if not (permits p.allowed asn)
      then (p, false)
      else if leb p.max (length p.peers)
      then (p, false)
      else (record p { peers = insert string_discrete address asn p.peers }, true)
]

unfoldable pub release_peer : SessionPolicy → String → SessionPolicy
release_peer p address = record p { peers = delete string_discrete address p.peers }

pub data State : Type 0 where
  established not_established : State

pub data PeerEvent : Type 0 where
  update : State → String → ℕ → PeerEvent

-- onPeerUpdate: the policy afterwards, and the address of the peer to reset, if any
unfoldable pub on_peer_update : SessionPolicy → PeerEvent → SessionPolicy × Option String
on_peer_update p (update not_established address asn) = (release_peer p address, none)
on_peer_update p (update established address asn) =
    let (q, admitted) = admit_peer p address asn in (q, if admitted then none else some address)

unfoldable pub run : SessionPolicy → List PeerEvent → SessionPolicy
run p [] = p
run p (e ∷ es) = run (on_peer_update p e).0 es

-- The number of sessions stays within the limit, and every session's number is allowed.
pub record IsBounded (p : SessionPolicy) : Type 0 where
  pub few : length p.peers ≤ p.max
  pub permitted :
      (address : String) (asn : ℕ)
      → lookup string_discrete address p.peers ≡ some asn
      → permits p.allowed asn ≡ true

admit_peer-IsBounded :
    (p : SessionPolicy) (address : String) (asn : ℕ)
    → IsBounded p
    → IsBounded (admit_peer p address asn).0
unfolding admit_peer
admit_peer-IsBounded p address asn v = record {
  few = ground (arith, length-insert-le string_discrete address asn p.peers);
  permitted =
      λ a n h. ground (arith, lookup-insert string_discrete address a asn p.peers, v.permitted a n);
}

release_peer-IsBounded :
    (p : SessionPolicy) (address : String) → IsBounded p → IsBounded (release_peer p address)
unfolding release_peer
release_peer-IsBounded p address v = record {
  few = omega (arith, length-delete-le string_discrete address p.peers);
  permitted =
      λ a n h. ground (arith, lookup-delete string_discrete address a p.peers, v.permitted a n);
}

pub on_peer_update-IsBounded :
    (p : SessionPolicy) (e : PeerEvent) → IsBounded p → IsBounded (on_peer_update p e).0
unfolding on_peer_update
on_peer_update-IsBounded p (update established a n) v = admit_peer-IsBounded p a n v
on_peer_update-IsBounded p (update not_established a n) v = release_peer-IsBounded p a v

run-IsBounded : (p : SessionPolicy) (es : List PeerEvent) → IsBounded p → IsBounded (run p es)
unfolding run
run-IsBounded p [] v = v
run-IsBounded p (e ∷ es) v =
    run-IsBounded (on_peer_update p e).0 es (on_peer_update-IsBounded p e v)

-- From a new session policy, after any sequence of peer events there are at most max sessions,
-- each with a permitted number.
pub run-new :
    (allowed : List ℕ) (max : ℕ) (es : List PeerEvent) → IsBounded (run (new allowed max) es)
unfolding new lookup
run-new allowed max es =
    run-IsBounded (new allowed max) es
      (record { few = omega arith; permitted = λ a n h. absurd (ground arith) })

-- A session that is established is kept with its number, or the peer is reset and the table left
-- as it was, because the peer was there with another number, its number is not permitted, or the
-- limit is reached.
pub on_peer_update-established :
    (p : SessionPolicy) (address : String) (asn : ℕ)
    → (((on_peer_update p (update established address asn)).1 ≡ none)
        × (lookup string_discrete address
              (on_peer_update p (update established address asn)).0.peers
            ≡ some asn))
      ⊎ (((on_peer_update p (update established address asn)).1 ≡ some address)
          × ((on_peer_update p (update established address asn)).0 ≡ p)
          × (((n : ℕ) × (lookup string_discrete address p.peers ≡ some n) × (n ≢ asn))
              ⊎ (permits p.allowed asn ≡ false)
              ⊎ (p.max ≤ length p.peers)))
unfolding on_peer_update admit_peer
on_peer_update-established p address asn =
    elim (Option-cases (lookup string_discrete address p.peers)) [
      | inr (n, e) ↦ elim (Bool-cases (n == asn)) [
        | inl same ↦ inl (ground arith, ground arith)
        | inr differs ↦ inr (ground arith, ground arith, inl (n, e, ground arith))
      ]
      | inl e ↦ elim (Bool-cases (permits p.allowed asn)) [
        | inr f ↦ inr (ground arith, ground arith, inr (inl f))
        | inl f ↦ elim (Bool-cases (leb p.max (length p.peers))) [
          | inl g ↦ inr (ground arith, ground arith, inr (inr (ground arith)))
          | inr g ↦ inl (
            ground arith,
            ground (arith, lookup-insert string_discrete address address asn p.peers),
          )
        ]
      ]
    ]
