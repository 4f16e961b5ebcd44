-- ===== src/Server/Connections/Round.antt =====
-- What a round of handleSync does to the queue: it removes the first change, or nothing.
use rtbh_panel.Common.{
  ℕ, ◌≡◌, inl, inr, refl, ap, sym, subst, Option, none, some, List, [], ◌∷◌, arith, Bool-cases, not,
  ◌||◌, ltb,
}
use text.Mathlib.TextEquality.{eq_iff}
use rtbh_panel.Adapter.{PolicyChange}
use rtbh_panel.Queue.{change_of, PolicyQueue, publish, commit, commit_pending}
use rtbh_panel.Queue
use rtbh_panel.Rpc.Message
use rtbh_panel.Rpc.Message.{Frame, Message}
use rtbh_panel.Rpc.Session.{Session, Received, received, failed, send_policy, receive}
use rtbh_panel.Agent.Cursor
use rtbh_panel.Agent.Cursor.{CursorFile, save_cursor}
use rtbh_panel.Server.Sync.{
  Environment, SyncState, Stop, waiting, serve_one, sent, acknowledged, saved, is_ack,
}

module _ (env : Environment) where
  -- What a round does to the queue.
  abbrev pub IsRound : SyncState → Option Stop × SyncState → Type 0
  IsRound s (none, t) = (c : PolicyChange) × (s.queue.pending ≡ c ∷ t.queue.pending)
  IsRound s (some stop, t) = t.queue.pending ≡ s.queue.pending

  saved-IsRound :
      (o s : SyncState) (c : PolicyChange) (rest : List PolicyChange) (m : Message)
      (w : Option Cursor.Failure × CursorFile)
      → o.queue.pending ≡ c ∷ rest
      → s.queue ≡ o.queue
      → IsRound o (saved env c m w s)
  unfolding commit
  saved-IsRound o s c rest m (some e, f) h k = ap (λ (q : PolicyQueue). q.pending) k
  saved-IsRound o s c rest m (none, f) h k =
      let same = (eq_iff c.idempotency_key c.idempotency_key).1 refl in (c, ground (arith, same))

  acknowledged-IsRound :
      (o s : SyncState) (c : PolicyChange) (rest : List PolicyChange) (n : ℕ) (r : Received)
      → o.queue.pending ≡ c ∷ rest
      → s.queue ≡ o.queue
      → IsRound o (acknowledged env c n r s)
  acknowledged-IsRound o s c rest n (failed e t) h k = ap (λ (q : PolicyQueue). q.pending) k
  acknowledged-IsRound o s c rest n (received m t) h k =
      elim (Bool-cases (not (is_ack m.kind) || ltb m.cursor n)) [
        | inl bad ↦ rw (bad, acknowledged) (ap (λ (q : PolicyQueue). q.pending) k)
        | inr good ↦
            rw (good, acknowledged)
              (saved-IsRound o (record s { session = t }) c rest m
                (save_cursor env.save_fails m.cursor s.file) h k)
      ]

  sent-IsRound :
      (o s : SyncState) (c : PolicyChange) (rest : List PolicyChange) (n : ℕ)
      (w : Option Message.Failure × Session)
      → o.queue.pending ≡ c ∷ rest
      → s.queue ≡ o.queue
      → IsRound o (sent env c n w s)
  sent-IsRound o s c rest n (some e, t) h k = ap (λ (q : PolicyQueue). q.pending) k
  sent-IsRound o s c rest n (none, t) h k =
      acknowledged-IsRound o (record s { session = t }) c rest n (receive env.system env.wire t) h k

  pub serve_one-IsRound :
      (s : SyncState) (l : List PolicyChange) → s.queue.pending ≡ l → IsRound s (serve_one env s)
  unfolding serve_one Queue.next
  serve_one-IsRound s [] h =
      let step : serve_one env s ≡ (some waiting, s) = ground arith in
      subst (IsRound s) (sym step) refl
  serve_one-IsRound s (c ∷ rest) h =
      let step : serve_one env s
          ≡ sent env c s.session.next_sequence (send_policy env.system env.wire c s.session) s =
        ground arith in
      subst (IsRound s) (sym step) (
        sent-IsRound s s c rest s.session.next_sequence
          (send_policy env.system env.wire c s.session) h refl)
