-- ===== src/Server/Connections/Serial.antt =====
-- One handler at a time, and no change that is lost between connections.
use rtbh_panel.Common.{
  ℕ, ◌+◌, ◌%◌, ◌^◌, ◌≡◌, ◌≢◌, ◌⊎◌, inl, inr, refl, ap, sym, ◌∙◌, subst, false, Option, none, some,
  List, [], ◌∷◌, ◌++◌, arith,
}
use mathlib.Core.List.{append_assoc}
use rtbh_panel.Policy.{Mutation}
use rtbh_panel.Queue.{change_of, publish}
use rtbh_panel.Config.Settings.{Config}
use rtbh_panel.Rpc.Message
use rtbh_panel.Rpc.Message.{Frame, Message}
use rtbh_panel.Rpc.Session.{Session}
use rtbh_panel.Agent.Cursor.{CursorFile}
use rtbh_panel.Server.Create.{open_session}
use rtbh_panel.Server.Sync.{Environment, SyncState, Stop, waiting, serve_one}
use rtbh_panel.Server.Connections.{
  Accepting, Handler, accepting, returned, spawn, with_session, round, after_round, publishing,
  view, IsDone, Step, accepts_first, accepts_next, replaces, accept_fails, returns_idle, returns,
  serves, gives_up, publishes, Reach, here, next, listening,
}
use rtbh_panel.Server.Connections.Round.{IsRound, serve_one-IsRound}

module _ (env : Environment) (config : Config) where
  -- The handler that runs, if one does, is that of the active connection.
  abbrev pub IsSingle : Accepting → Type 0
  IsSingle s =
      (s.handlers ≡ []) ⊎ ((h : Handler) × (s.handlers ≡ h ∷ []) × (s.active ≡ some h.number))

  pub record IsSerial (s : Accepting) : Type 0 where
    pub single : IsSingle s
    pub quiet : (s.phase ≢ returned) ⊎ (s.active ≡ none)
    pub kept : s.published ≡ s.committed ++ s.queue.pending

  spawn-IsSerial :
      (incoming : List Frame) (s : Accepting)
      → s.handlers ≡ []
      → s.published ≡ s.committed ++ s.queue.pending
      → IsSerial (spawn env config incoming s)
  unfolding spawn
  spawn-IsSerial incoming s none_left k = kept (open_session incoming config s.cursor)
    where
      kept :
          (o : Option Message.Failure × Option Session)
          → IsSerial
              (record (with_session o
                (record s { phase = accepting; active = some s.next_number; cancelled = false })) {
                  next_number = s.next_number + 1;
                })
      kept (some e, session) = record {
        single = inl none_left;
        quiet = inl (λ x. absurd (ground arith));
        kept = k;
      }
      kept (none, none) = record {
        single = inl none_left;
        quiet = inl (λ x. absurd (ground arith));
        kept = k;
      }
      kept (none, some session) = record {
        single = inr (
          record { number = s.next_number; session = session },
          ap (λ l. l ++ record { number = s.next_number; session = session } ∷ []) none_left,
          refl,
        );
        quiet = inl (λ x. absurd (ground arith));
        kept = k;
      }

  -- Where a handler runs, no other one does.
  single_split :
      (s : Accepting) (before : List Handler) (h : Handler) (after : List Handler)
      → IsSingle s
      → s.handlers ≡ before ++ h ∷ after
      → (before ≡ []) × (after ≡ []) × (s.active ≡ some h.number)
  single_split s before h after (inl e) k = absurd (split before (sym e ∙ k))
    where
      split : (before : List Handler) → [] ≡ before ++ h ∷ after → ⊥
      split [] e = absurd (ground arith)
      split (x ∷ xs) e = absurd (ground arith)
  single_split s [] h after (inr (x, e, a)) k = ground arith
  single_split s (y ∷ ys) h after (inr (x, e, a)) k = absurd (split ys (sym e ∙ k))
    where
      split : (ys : List Handler) → x ∷ [] ≡ y ∷ (ys ++ h ∷ after) → ⊥
      split [] e = absurd (ground arith)
      split (z ∷ zs) e = absurd (ground arith)

  idle_none : (s : Accepting) → IsSingle s → s.active ≡ none → s.handlers ≡ []
  idle_none s (inl e) a = e
  idle_none s (inr (h, e, b)) a = absurd (ground arith)

  done_none :
      (s : Accepting) (n : ℕ)
      → IsSingle s
      → s.active ≡ some n
      → IsDone n s.handlers
      → s.handlers ≡ []
  done_none s n (inl e) a d = e
  done_none s n (inr (h, e, b)) a d = absurd ((subst (IsDone n) e d).0 (ground arith))

  round-IsSerial :
      (before : List Handler) (h : Handler) (after : List Handler) (s : Accepting)
      → s.handlers ≡ before ++ h ∷ after
      → IsSerial s
      → IsSerial (round env config before h after s)
  unfolding round
  round-IsSerial before h after s k i =
      let (lone, last, mine) = single_split s before h after i.single k in
      kept (serve_one env (view h s)) (serve_one-IsRound env (view h s) s.queue.pending refl) lone
        last mine
    where
      kept :
          (o : Option Stop × SyncState)
          → IsRound env (view h s) o
          → before ≡ []
          → after ≡ []
          → s.active ≡ some h.number
          → IsSerial (after_round env config before h after o s)
      kept (none, u) (c, r) lone last mine = record {
        single = inr (record h { session = u.session }, ground arith, mine);
        quiet = i.quiet;
        kept = i.kept ∙ ground (arith, append_assoc s.committed (c ∷ []) u.queue.pending);
      }
      kept (some waiting, u) r lone last mine = i
      kept (some stop, u) r lone last mine = record {
        single = inl (ground arith);
        quiet = i.quiet;
        kept = i.kept ∙ ap (λ l. s.committed ++ l) (sym r);
      }

  gives_up-IsSerial :
      (before : List Handler) (h : Handler) (after : List Handler) (s : Accepting)
      → s.handlers ≡ before ++ h ∷ after
      → IsSerial s
      → IsSerial (record s { handlers = before ++ after })
  gives_up-IsSerial before h after s k i =
      let (lone, last, mine) = single_split s before h after i.single k in
      record { single = inl (ground arith); quiet = i.quiet; kept = i.kept }

  publishing-IsSerial :
      (m : Mutation) (s : Accepting) → IsSerial s → IsSerial (publishing env config m s)
  unfolding publishing publish
  publishing-IsSerial m s i = record {
    single = i.single;
    quiet = i.quiet;
    kept =
        ap (λ l. l ++ change_of env.dashboard_id ((s.queue.next_id + 1) % 2 ^ 64) m ∷ []) i.kept
        ∙ append_assoc s.committed s.queue.pending
            (change_of env.dashboard_id ((s.queue.next_id + 1) % 2 ^ 64) m ∷ []);
  }

  Step-IsSerial : {s t : Accepting} → Step env config s t → IsSerial s → IsSerial t
  Step-IsSerial {s = s} (accepts_first incoming p a e) i =
      subst IsSerial (sym e) (spawn-IsSerial incoming s (idle_none s i.single a) i.kept)
  Step-IsSerial (accepts_next incoming n p a e) i =
      subst IsSerial (sym e)
        (record { single = i.single; quiet = inl (λ x. absurd (ground arith)); kept = i.kept })
  Step-IsSerial {s = s} (replaces incoming n p a d e) i =
      subst IsSerial (sym e) (spawn-IsSerial incoming s (done_none s n i.single a d) i.kept)
  Step-IsSerial (accept_fails ctx_done f p e) i =
      subst IsSerial (sym e)
        (record { single = i.single; quiet = inl (λ x. absurd (ground arith)); kept = i.kept })
  Step-IsSerial (returns_idle p a e) i =
      subst IsSerial (sym e) (record { single = i.single; quiet = inr a; kept = i.kept })
  Step-IsSerial {s = s} (returns n p a d e) i =
      subst IsSerial (sym e)
        (record { single = inl (done_none s n i.single a d); quiet = inr refl; kept = i.kept })
  Step-IsSerial {s = s} (serves before h after k e) i =
      subst IsSerial (sym e) (round-IsSerial before h after s k i)
  Step-IsSerial {s = s} (gives_up before h after k e) i =
      subst IsSerial (sym e) (gives_up-IsSerial before h after s k i)
  Step-IsSerial {s = s} (publishes m e) i = subst IsSerial (sym e) (publishing-IsSerial m s i)

  Reach-IsSerial : {s t : Accepting} → Reach env config s t → IsSerial s → IsSerial t
  Reach-IsSerial here i = i
  Reach-IsSerial (next r st) i = Step-IsSerial st (Reach-IsSerial r i)

  -- However connections are accepted and fail, handlers go on, give up and return, and changes are
  -- published meanwhile: from the start of acceptSync, at most one handler runs at a time, that of
  -- the active connection; none runs once acceptSync has returned; and the changes that were
  -- published are those committed after an acknowledgement, in the order of their publication,
  -- followed by those pending, so that no change is lost or sent by two sessions at once.
  pub reach_serial :
      (cursor : ℕ) (file : CursorFile) (t : Accepting)
      → Reach env config (listening cursor file) t
      → IsSingle t
        × ((t.phase ≢ returned) ⊎ (t.handlers ≡ []))
        × (t.published ≡ t.committed ++ t.queue.pending)
  reach_serial cursor file t r =
      let i = Reach-IsSerial r (record { single = inl refl; quiet = inr refl; kept = refl }) in
      (i.single, quiet t i.single i.quiet, i.kept)
    where
      quiet :
          (t : Accepting)
          → IsSingle t
          → (t.phase ≢ returned) ⊎ (t.active ≡ none)
          → (t.phase ≢ returned) ⊎ (t.handlers ≡ [])
      quiet t i (inl busy) = inl busy
      quiet t i (inr a) = inr (idle_none t i a)
