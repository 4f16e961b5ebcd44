-- ===== src/Rpc/Bounds.antt =====
-- The number of policies in flight, and the order in which a session hands policies out.
use rtbh_panel.Common.{
  ℕ, suc, ◌≤◌, not, ◌≡◌, sym, subst, some, List, [], ◌∷◌, ◌++◌, arith, Option-cases, inl, inr, ◌⊎◌,
  ℕ_discrete, if◌then◌else◌, leb, ◌==◌,
}
use rtbh_panel.Common.Lists.{length, member, length-append, length-filter-le}
use rtbh_panel.PolicyStore.Disk.{System}
use rtbh_panel.Adapter.{PolicyChange}
use rtbh_panel.Rpc.Message.{Message, Frame, Failure, one, no_header, read_frame}
use rtbh_panel.Rpc.Session.{
  Config, Resume, Session, Wire, new_session, write, send_policy, Received, received, failed, Round,
  returns, fails, continues, on_message, on_frame, receive_from, receive, ack,
}

pub data Call : Type 0 where
  send : PolicyChange → Call
  receives : Call
  acks : ℕ → Call

abbrev session_of : Round → Session
session_of (returns m s) = s
session_of (fails e s) = s
session_of (continues s) = s

abbrev left_by : Received → Session
left_by (received m s) = s
left_by (failed e s) = s

unfoldable pub step : System → Wire → Call → Session → Session
step sys wire (send change) s = (send_policy sys wire change s).1
step sys wire receives s = left_by (receive sys wire s)
step sys wire (acks n) s = (ack wire n s).1

unfoldable pub run : System → Wire → List Call → Session → Session
run sys wire [] s = s
run sys wire (c ∷ calls) s = run sys wire calls (step sys wire c s)

abbrev pub InFlight : Session → Type 0
InFlight s = length s.pending ≤ s.config.max_in_flight

write-InFlight :
    (wire : Wire) (m : Message) (s : Session) → InFlight s → InFlight (write wire m s).1
unfolding write
write-InFlight wire m s h = ground arith

length-put_le :
    (n : ℕ) (l : List ℕ)
    → length (if member ℕ_discrete n l then l else l ++ n ∷ []) ≤ suc (length l)
length-put_le n l = ground (arith, length-append l (n ∷ []))

write-fields :
    (wire : Wire) (m : Message) (s : Session)
    → ((write wire m s).1.pending ≡ s.pending)
      × ((write wire m s).1.config ≡ s.config)
      × ((write wire m s).1.applied_cursor ≡ s.applied_cursor)
unfolding write
write-fields wire m s = (ground arith, ground arith, ground arith)

send_policy-InFlight :
    (sys : System) (wire : Wire) (change : PolicyChange) (s : Session)
    → InFlight s
    → InFlight (send_policy sys wire change s).1
unfolding send_policy write
send_policy-InFlight sys wire change s h = ground (
  arith,
  length-put_le s.next_sequence s.pending,
  length-filter-le (λ m. not (m == s.next_sequence))
      (if member ℕ_discrete s.next_sequence s.pending
        then s.pending
        else s.pending ++ s.next_sequence ∷ []),
)

on_message-InFlight :
    (sys : System) (wire : Wire) (m : Message) (s : Session)
    → InFlight s
    → InFlight (session_of (on_message sys wire m s))
unfolding on_message write
on_message-InFlight sys wire m s h =
    ground (arith, length-filter-le (λ n. not (leb n m.cursor)) s.pending)

-- What a round does with a frame: it fails on the frame, or handles the message in it.
pub on_frame_cases :
    (sys : System) (wire : Wire) (f : Frame) (s : Session)
    → ((e : Failure) × (on_frame sys wire f s ≡ fails e s))
      ⊎ ((m : Message) × (f.payload ≡ one m) × (on_frame sys wire f s ≡ on_message sys wire m s))
unfolding on_frame read_frame
on_frame_cases sys wire f s = elim (Option-cases (read_frame s.config.max_message_bytes f).1) [
  | inr (m, e) ↦ inr (m, ground arith, ground arith)
  | inl n ↦ elim (Option-cases (read_frame s.config.max_message_bytes f).0) [
    | inl k ↦ inl (no_header, ground arith)
    | inr (e, k) ↦ inl (e, ground arith)
  ]
]

on_frame-InFlight :
    (sys : System) (wire : Wire) (f : Frame) (s : Session)
    → InFlight s
    → InFlight (session_of (on_frame sys wire f s))
on_frame-InFlight sys wire f s h = elim (on_frame_cases sys wire f s) [
  | inl (e, k) ↦ subst (λ r. InFlight (session_of r)) (sym k) h
  | inr (m, _, k) ↦
      subst (λ r. InFlight (session_of r)) (sym k) (on_message-InFlight sys wire m s h)
]

receive_from-InFlight :
    (sys : System) (wire : Wire) (frames : List Frame) (s : Session)
    → InFlight s
    → InFlight (left_by (receive_from sys wire frames s))
unfolding receive_from
receive_from-InFlight sys wire [] s h = h
receive_from-InFlight sys wire (f ∷ rest) s h =
    after (λ t. receive_from-InFlight sys wire rest t)
      (on_frame sys wire f (record s { incoming = rest }))
      (on_frame-InFlight sys wire f (record s { incoming = rest }) h)
  where
    after :
        ((t : Session) → InFlight t → InFlight (left_by (receive_from sys wire rest t)))
        → (r : Round) → InFlight (session_of r)
        → InFlight (
            left_by (elim r as (λ _. Received) [
              | returns m t ↦ received m t
              | fails e t ↦ failed e t
              | continues t ↦ receive_from sys wire rest t
            ]))
    after next (returns m t) h = h
    after next (fails e t) h = h
    after next (continues t) h = next t h

step-InFlight :
    (sys : System) (wire : Wire) (c : Call) (s : Session)
    → InFlight s
    → InFlight (step sys wire c s)
unfolding step receive ack write
step-InFlight sys wire (send change) s h = send_policy-InFlight sys wire change s h
step-InFlight sys wire receives s h = receive_from-InFlight sys wire s.incoming s h
step-InFlight sys wire (acks n) s h = ground arith

run-InFlight :
    (sys : System) (wire : Wire) (calls : List Call) (s : Session)
    → InFlight s
    → InFlight (run sys wire calls s)
unfolding run
run-InFlight sys wire [] s h = h
run-InFlight sys wire (c ∷ calls) s h =
    run-InFlight sys wire calls (step sys wire c s) (step-InFlight sys wire c s h)

-- Whatever the calls and whatever the peer sends, a session that NewSession has made never has
-- more policies in flight than its limit.
pub run-new_session :
    (sys : System) (wire : Wire) (frames : List Frame) (config : Config) (resume : Resume)
    (s : Session) (calls : List Call)
    → (new_session frames config resume).1 ≡ some s
    → length (run sys wire calls s).pending ≤ (run sys wire calls s).config.max_in_flight
unfolding new_session
run-new_session sys wire frames config resume s calls h =
    run-InFlight sys wire calls s (ground arith)
