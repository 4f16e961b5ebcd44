-- ===== src/Agent/Run.antt =====
-- Agent.Run: connect, consume, and wait before the next attempt, longer each time.
use rtbh_panel.Common.{
  ℕ, suc, ◌+◌, ◌-◌, ◌*◌, ◌/◌, ◌%◌, ◌^◌, ◌≤◌, ◌<◌, Bool, ◌||◌, Option, none, some, List, [], ◌∷◌,
  if◌then◌else◌, leb, ltb, arith,
}
use rtbh_panel.Common.Lists.{length, All}
use rtbh_panel.Common.Results.{Attempt, ok, err, ◌>>◌, check}
use rtbh_panel.Config.Settings.{Config, Library, ConfigError, millisecond}
use rtbh_panel.Config.Checks.{validate_common, validate_agent}
use rtbh_panel.Rpc.Message.{Frame}
use rtbh_panel.Rpc.Message
use rtbh_panel.Rpc.Session.{Session, new_session}
use rtbh_panel.Agent.Consume.{Agent, Environment, consume}

pub data NewFailure : Type 0 where
  adapter_required : NewFailure
  bad_config : ConfigError → NewFailure

abbrev accepted : Attempt ConfigError (Unit {0}) → Attempt NewFailure (Unit {0})
accepted (err e) = err (bad_config e)
accepted (ok _) = ok tt

-- NewAgent: whether it gets an adapter. Without one it observes, in dry-run mode only.
unfoldable pub new_agent : Library → Bool → Config → Attempt NewFailure (Unit {0})
new_agent lib has_adapter c =
    check (has_adapter || c.dry_run) adapter_required
    >> accepted (validate_common lib c >> validate_agent lib c)

-- An int64 is written as its residue modulo 2 ^ 64.
abbrev pub is_negative : ℕ → Bool
is_negative n = leb (2 ^ 63) n

-- min(delay*2, c.ReconnectMax)
unfoldable pub longer : ℕ → ℕ → ℕ
longer reconnect_max delay =
    let doubled = (delay * 2) % 2 ^ 64 in
    if is_negative doubled || ltb doubled reconnect_max then doubled else reconnect_max

-- jitter, with the number that rand.Int64N draws below its bound.
unfoldable pub jitter : (ℕ → ℕ) → ℕ → ℕ
jitter draw delay =
    if is_negative delay || leb delay millisecond
    then delay
    else (delay / 2) + draw ((delay - (delay / 2)) + 1)

-- What happens to an attempt to connect: it is refused, or frames arrive over the connection.
pub data Dial : Type 0 where
  refused : Dial
  connected : List Frame → Dial

pub record State (A : Type 0) : Type 0 where
  pub agent : Agent A
  pub delay : ℕ

-- consume gets more fuel than frames arrive.
abbrev started :
    {A : Type 0}
    → Environment A
    → List Frame
    → Option Message.Failure × Option Session
    → Agent A
    → Agent A
started env frames (_, none) a = a
started env frames (_, some s) a = (consume env (suc (length frames)) (record a { session = s })).1

abbrev session_of :
    {A : Type 0} → Config → List Frame → Agent A → Option Message.Failure × Option Session
session_of c frames a =
    new_session frames
      (record {
        max_message_bytes = c.sync_max_message_bytes;
        max_in_flight = c.sync_max_in_flight;
      })
      (record { applied_cursor = a.cursor; peer_cursor = 0; next_sequence = 0 })

module _ {A : Type 0} (env : Environment A) (c : Config) where
  -- A round of the loop that the context does not end: how long it sleeps, and the next state. A
  -- connection always ends with an error, since consume returns with one only.
  unfoldable pub attempt : (ℕ → ℕ) → Dial → State A → ℕ × State A
  attempt draw refused s =
      (jitter draw s.delay, record s { delay = longer c.reconnect_max s.delay })
  attempt draw (connected frames) s = (
    jitter draw c.reconnect_min,
    record {
      agent = started env frames (session_of c frames s.agent) s.agent;
      delay = longer c.reconnect_max c.reconnect_min;
    },
  )

  -- The sleeps of Run, over the attempts to connect.
  unfoldable pub sleeps : (ℕ → ℕ) → List Dial → State A → List ℕ
  sleeps draw [] s = []
  sleeps draw (dial ∷ dials) s =
      let (sleep, next) = attempt draw dial s in sleep ∷ sleeps draw dials next

  longer_bounds :
      (delay : ℕ)
      → c.reconnect_min ≤ delay
      → delay ≤ c.reconnect_max
      → c.reconnect_max < 2 ^ 62
      → (c.reconnect_min ≤ longer c.reconnect_max delay)
        × (longer c.reconnect_max delay ≤ c.reconnect_max)
  unfolding longer
  longer_bounds delay low high small = (ground arith, ground arith)

  jitter_bounds :
      (draw : ℕ → ℕ) (delay : ℕ)
      → draw ((delay - (delay / 2)) + 1) < (delay - (delay / 2)) + 1
      → delay < 2 ^ 63
      → (delay / 2 ≤ jitter draw delay) × (jitter draw delay ≤ delay)
  unfolding jitter
  jitter_bounds draw delay drawn small = (ground arith, ground arith)

  -- Between two attempts to connect the agent sleeps for at least half of the least delay of its
  -- configuration and for at most the greatest, however often it is refused, where the least is not
  -- above the greatest, the greatest is below 2 ^ 62, and a draw lies below its bound.
  pub sleeps_bounds :
      (draw : ℕ → ℕ)
      → ((n : ℕ) → 0 < n → draw n < n)
      → c.reconnect_min ≤ c.reconnect_max
      → c.reconnect_max < 2 ^ 62
      → (dials : List Dial) (s : State A) → c.reconnect_min ≤ s.delay
      → s.delay ≤ c.reconnect_max
      → All
          (λ sleep. (c.reconnect_min / 2 ≤ sleep) × (sleep ≤ c.reconnect_max))
          (sleeps draw dials s)
  unfolding sleeps attempt
  sleeps_bounds draw draws ordered small [] s low high = tt
  sleeps_bounds draw draws ordered small (refused ∷ dials) s low high =
      let drawn = draws ((s.delay - (s.delay / 2)) + 1) (omega arith) in
      let below : s.delay < 2 ^ 63 = omega (arith, high, small) in
      let jittered = jitter_bounds draw s.delay drawn below in
      let next = longer_bounds s.delay low high small in
      (
        (omega (arith, jittered, low), omega (arith, jittered, high)),
        sleeps_bounds draw draws ordered small dials _ next.0 next.1,
      )
  sleeps_bounds draw draws ordered small (connected frames ∷ dials) s low high =
      let least = c.reconnect_min in
      let drawn = draws ((least - (least / 2)) + 1) (omega arith) in
      let below : least < 2 ^ 63 = omega (arith, ordered, small) in
      let jittered = jitter_bounds draw least drawn below in
      let next = longer_bounds least (omega arith) ordered small in
      (
        (omega (arith, jittered), omega (arith, jittered, ordered)),
        sleeps_bounds draw draws ordered small dials _ next.0 next.1,
      )
