-- ===== src/Chatstate/Store.antt =====
-- gateway/internal/chatstate/store.go: the state, its limits and the cleanup that most operations
-- begin with. `s.now()` is an argument of each operation, one for each reading that it makes.
use codex_runtime.Base.{
  ℕ, ◌+◌, ◌*◌, ◌/◌, Text, or_default, Bool, true, false, not, ◌&&◌, Option, none, some, List, [],
  Map, refine, count_values, length, ltb, if◌then◌else◌,
}
use codex_runtime.Chatstate.Types.{
  LimitOptions, Limits, Scope, RunRecord, EventRecord, expired, PendingRecord, IdempotencyState,
  in_flight, IdempotencyEntry, DiagnosticRecord,
}
use codex_runtime.Chatstate.Keys.{is_empty, is_open}

-- `panicked` is where a second close, or a send after a close, leaves the program.
pub data ChannelStatus : Type 0 where
  unmade open_channel closed_channel panicked : ChannelStatus

-- A Go channel with a buffer.
pub record Channel : Type 0 where
  pub status : ChannelStatus
  pub capacity : ℕ
  pub queue : List EventRecord

pub record ReplayBuffer : Type 0 where
  pub events : List EventRecord
  pub bytes : ℕ
  pub start_evicted_before_event_id : ℕ

-- `subscribers` holds the ids of `map[uint64]chan EventRecord` for each run, and `channels` the
-- channel that each id was given, which its receiver holds too.
pub record Store : Type 0 where
  pub epoch : Text
  pub limits : Limits
  pub next_event_id : ℕ
  pub next_subscriber_id : ℕ
  pub active_runs : Map RunRecord
  pub active_run_reservations : Map Scope
  pub replay : Map ReplayBuffer
  pub subscribers : Map (List ℕ)
  pub channels : ℕ → Channel
  pub pending : Map PendingRecord
  pub idempotency : Map IdempotencyEntry
  pub diagnostics : List DiagnosticRecord

abbrev pub millisecond : ℕ
millisecond = 1000000

-- `t.UnixMilli()`
abbrev pub unix_ms : ℕ → ℕ
unix_ms t = t / 1000000

-- `time.UnixMilli(ms)`
abbrev pub of_unix_ms : ℕ → ℕ
of_unix_ms ms = ms * 1000000

abbrev pub default_replay_max_events : ℕ
default_replay_max_events = 2000

-- 8 * domain.MiB
abbrev pub default_replay_max_bytes : ℕ
default_replay_max_bytes = 8388608

-- 30 minutes, for the replay buffer and for pending requests.
abbrev pub default_ttl : ℕ
default_ttl = 1800000000000

abbrev pub default_subscriber_queue : ℕ
default_subscriber_queue = 256

unfoldable pub normalize_limits : LimitOptions → Limits
normalize_limits limits = record {
  replay_max_events = or_default limits.replay_max_events default_replay_max_events;
  replay_max_bytes = or_default limits.replay_max_bytes default_replay_max_bytes;
  replay_ttl = or_default limits.replay_ttl default_ttl;
  pending_ttl = or_default limits.pending_ttl default_ttl;
  diagnostics_cap = or_default limits.diagnostics_cap 256;
  active_runs_cap = or_default limits.active_runs_cap 1000;
  pending_cap = or_default limits.pending_cap 1000;
  idempotency_cap = or_default limits.idempotency_cap 1000;
  subscriber_queue = or_default limits.subscriber_queue default_subscriber_queue;
}

abbrev pub no_channel : Channel
no_channel = record { status = unmade; capacity = 0; queue = [] }

-- `fmt_epoch` is `fmt.Sprintf("epoch-%d", …)`, applied to the clock where no epoch is given.
unfoldable pub new_store : (ℕ → Text) → ℕ → Text → LimitOptions → Store
new_store fmt_epoch now epoch limits = record {
  epoch = if is_empty epoch then fmt_epoch now else epoch;
  limits = normalize_limits limits;
  next_event_id = 0;
  next_subscriber_id = 0;
  active_runs = [];
  active_run_reservations = [];
  replay = [];
  subscribers = [];
  channels = λ id. no_channel;
  pending = [];
  idempotency = [];
  diagnostics = [];
}

-- The status that the passing of time leaves a pending request in.
unfoldable pub expire_pending : ℕ → PendingRecord → PendingRecord
expire_pending now r =
    if is_open r.status && ltb r.expires_at_unix_ms (unix_ms now)
    then record r { status = expired }
    else r

-- How long a request that is no longer open is kept.
unfoldable pub retain_until : ℕ → PendingRecord → ℕ
retain_until pending_ttl r =
    if ltb 0 r.resolved_at_unix_ms
    then of_unix_ms r.resolved_at_unix_ms + pending_ttl
    else of_unix_ms r.expires_at_unix_ms

-- The body of the first loop: the record to keep, or none to delete it.
unfoldable pub cleanup_pending : ℕ → ℕ → PendingRecord → Option PendingRecord
cleanup_pending now pending_ttl r =
    let r' = expire_pending now r in
    if not (is_open r'.status) && ltb (retain_until pending_ttl r') now then none else some r'

abbrev pub is_in_flight : IdempotencyState → Bool
is_in_flight in_flight = true
is_in_flight _ = false

-- The body of the second loop.
unfoldable pub cleanup_idempotency : ℕ → ℕ → IdempotencyEntry → Option IdempotencyEntry
cleanup_idempotency now replay_ttl entry =
    if not (is_in_flight entry.state) && ltb (of_unix_ms entry.updated_at_unix_ms + replay_ttl) now
    then none
    else some entry

unfoldable pub cleanup : ℕ → Store → Store
cleanup now s = record s {
  pending = refine (cleanup_pending now s.limits.pending_ttl) s.pending;
  idempotency = refine (cleanup_idempotency now s.limits.replay_ttl) s.idempotency;
}

abbrev pub is_open_pending : PendingRecord → Bool
is_open_pending r = is_open r.status

abbrev pub active_pending_count : Store → ℕ
active_pending_count s = count_values is_open_pending s.pending

abbrev pub active_run_capacity_used : Store → ℕ
active_run_capacity_used s = length s.active_runs + length s.active_run_reservations
