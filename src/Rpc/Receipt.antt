-- ===== src/Rpc/Receipt.antt =====
-- What Receive has checked of a policy that it returns.
use rtbh_panel.Common.{
  ℕ, ◌+◌, ◌<◌, ◌^◌, ◌≡◌, refl, ap, suc, ◌∙◌, subst, none, some, List, [], ◌∷◌, arith, inl, inr,
}
use rtbh_panel.Common.Lists.{length, All}
use rtbh_panel.PolicyStore.Disk.{System}
use rtbh_panel.Adapter.{PolicyChange}
use rtbh_panel.Rpc.Message.{Message, Payload, one, Frame, policy_type, validate_policy}
use rtbh_panel.Rpc.Session.{
  Session, Wire, Received, received, failed, Round, returns, fails, continues, on_message,
  receive_from, write,
}
use rtbh_panel.Rpc.Bounds.{on_frame_cases}

-- A server's frames carry, under each sequence number, the policy that it gave the number.
abbrev pub Consistent : (ℕ → PolicyChange) → Payload → Type 0
Consistent stream (one m) = (c : PolicyChange) → m.policy ≡ some c → c ≡ stream m.sequence
Consistent stream _ = Unit

abbrev pub AllConsistent : (ℕ → PolicyChange) → List Frame → Type 0
AllConsistent stream = All (λ f. Consistent stream f.payload)

-- What holds of a returned message: a policy is the stream's next one, and is valid.
pub record Receipt (sys : System) (stream : ℕ → PolicyChange) (n : ℕ) (cursor : ℕ) (m : Message)
    (t : Session) : Type 0 where
  pub cursor_kept : t.applied_cursor ≡ cursor
  pub shorter : length t.incoming < n
  pub consistent : AllConsistent stream t.incoming
  pub in_order :
      (c : PolicyChange)
      → m.kind ≡ policy_type
      → m.policy ≡ some c
      → (m.sequence ≡ cursor + 1)
        × (m.sequence < 2 ^ 64)
        × (c ≡ stream (cursor + 1))
        × (validate_policy sys c ≡ none)

module _ (sys : System) (wire : Wire) (m x : Message) (s t : Session) where
  on_message_returned :
      on_message sys wire m s ≡ returns x t
      → (x ≡ m) × (t.applied_cursor ≡ s.applied_cursor) × (t.incoming ≡ s.incoming)
  unfolding on_message write
  on_message_returned h = (ground arith, ground arith, ground arith)

  on_message_in_order :
      (c : PolicyChange)
      → on_message sys wire m s ≡ returns x t
      → s.applied_cursor < 2 ^ 64
      → m.kind ≡ policy_type
      → m.policy ≡ some c
      → (m.sequence ≡ s.applied_cursor + 1) × (m.sequence < 2 ^ 64) × (validate_policy sys c ≡ none)
  unfolding on_message write
  on_message_in_order c h b k p = (ground arith, ground arith, ground arith)

  on_message_continued :
      on_message sys wire m s ≡ continues t
      → (t.applied_cursor ≡ s.applied_cursor) × (t.incoming ≡ s.incoming)
  unfolding on_message write
  on_message_continued h = (ground arith, ground arith)

module _ (sys : System) (wire : Wire) (stream : ℕ → PolicyChange) where
  after_message :
      (m x : Message) (s t : Session) (r : Round) (rest : List Frame)
      → on_message sys wire m s ≡ r
      → s.incoming ≡ rest
      → s.applied_cursor < 2 ^ 64
      → Consistent stream (one m)
      → AllConsistent stream rest
      → ((u : Session)
          → u.applied_cursor < 2 ^ 64
          → receive_from sys wire rest u ≡ received x t
          → Receipt sys stream (length rest) u.applied_cursor x t)
      → (elim r as (λ _. Received) [
        | returns m t ↦ received m t
        | fails e t ↦ failed e t
        | continues t ↦ receive_from sys wire rest t
      ])
        ≡ received x t
      → Receipt sys stream (suc (length rest)) s.applied_cursor x t
  after_message m x s t (returns y u) rest h q b k ks next e =
      let (same, kept, frames) = on_message_returned sys wire m y s u h in
      record {
        cursor_kept = ground arith;
        shorter = ground arith;
        consistent = subst (AllConsistent stream) (ground arith) ks;
        in_order = λ c kind policy.
            (let (n, l, v) =
                on_message_in_order sys wire m y s u c h b (ground arith) (ground arith) in
              (ground arith, ground arith, k c (ground arith) ∙ ap stream n, v));
      }
  after_message m x s t (fails f u) rest h q b k ks next e = absurd (ground arith)
  after_message m x s t (continues u) rest h q b k ks next e =
      let (kept, frames) = on_message_continued sys wire m m s u h in
      let r = next u (ground arith) e in
      record {
        cursor_kept = r.cursor_kept ∙ kept;
        shorter = omega (arith, r.shorter);
        consistent = r.consistent;
        in_order =
            subst
              (λ n.
                (c : PolicyChange)
                → x.kind ≡ policy_type
                → x.policy ≡ some c
                → (x.sequence ≡ n + 1)
                  × (x.sequence < 2 ^ 64)
                  × (c ≡ stream (n + 1))
                  × (validate_policy sys c ≡ none))
              kept r.in_order;
      }

  pub receive_from-Receipt :
      (frames : List Frame) (x : Message) (s t : Session)
      → s.applied_cursor < 2 ^ 64
      → AllConsistent stream frames
      → receive_from sys wire frames s ≡ received x t
      → Receipt sys stream (length frames) s.applied_cursor x t
  unfolding receive_from
  receive_from-Receipt [] x s t b k h = absurd (ground arith)
  receive_from-Receipt (f ∷ rest) x s t b k h =
      elim (on_frame_cases sys wire f (record s { incoming = rest })) [
        | inl (e, q) ↦ absurd (ground arith)
        | inr (m, p, q) ↦
            after_message m x (record s { incoming = rest }) t _ rest refl refl b
              (subst (Consistent stream) p k.0) k.1 (λ u c. receive_from-Receipt rest x u t c k.1)
              (rw (q, receive_from) at h)
      ]
