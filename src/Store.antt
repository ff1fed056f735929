-- ===== src/Store.antt =====
-- The data of package store: store/store.go, store/member.go and store/schedule.go.
-- A Go string is a list of bytes. A time.Time is the integer of nanoseconds since the zero Time, and
-- a time.Duration an integer of nanoseconds; both are unbounded here. An ETag is an int64 that is
-- only compared for equality and incremented, so it is kept as its 64-bit pattern. The `error` of
-- ctx.Err() is an argument of each method. A value copied by `clone` is the value itself.
pub mod Keyed
pub mod Records
pub mod Members
pub mod Reminders
pub mod Sqlite
use gor.Prelude.{
  ℕ, ◌+◌, ◌%◌, ◌^◌, ℤ, ℤ-discrete, ℕ_discrete, Option, none, some, List, [], Map, Text,
  Text-discrete,
}

pub record GrainId : Type 0 where
  pub grain_type : Text
  pub grain_key : Text

unfoldable pub GrainId-discrete : Discrete GrainId
unfolding Text-discrete
GrainId-discrete = hlevel Text-discrete

abbrev pub Time : Type 0
Time = ℤ

abbrev pub Duration : Type 0
Duration = ℤ

abbrev pub ETag : Type 0
ETag = ℕ

-- An int64 increment, on the bit pattern.
unfoldable pub next_etag : ETag → ETag
next_etag e = (e + 1) % 2 ^ 64

-- ErrConflict, and every other error by a code.
pub data Error : Type 0 where
  conflict : Error
  other : ℕ → Error

pub data Result {ℓ} (A : Type ℓ) : Type ℓ where
  ok : A → Result A
  err : Error → Result A

pub record Record : Type 0 where
  pub content : List ℕ
  pub etag : ETag

pub data MemberStatus : Type 0 where
  joining active dead : MemberStatus

pub record MemberId : Type 0 where
  pub node_addr : Text
  pub generation : Text

unfoldable pub MemberId-discrete : Discrete MemberId
unfolding Text-discrete
MemberId-discrete = hlevel Text-discrete

pub record SuspectVote : Type 0 where
  pub expires_at : Time

unfoldable pub SuspectVote-discrete : Discrete SuspectVote
unfolding ℤ-discrete
SuspectVote-discrete = hlevel ℤ-discrete

pub record Member : Type 0 where
  pub node_addr : Text
  pub generation : Text
  pub status : MemberStatus
  pub iam_alive_at : Time
  pub suspect_votes : Map MemberId SuspectVote
  pub etag : ETag

pub record MemberSnapshot : Type 0 where
  pub members : List Member
  pub table_now : Time

pub record Reminder : Type 0 where
  pub identity : GrainId
  pub name : Text
  pub method : Text
  pub first_tick_time : Time
  pub due_at : Time
  pub interval : Duration
  pub etag : ETag

pub record ReminderKey : Type 0 where
  pub identity : GrainId
  pub name : Text

unfoldable pub ReminderKey-discrete : Discrete ReminderKey
unfolding GrainId-discrete Text-discrete
ReminderKey-discrete = hlevel (GrainId-discrete, Text-discrete)

-- Memory: the three maps, and the reading of the member clock. The lock makes each method one step.
pub record Memory : Type 0 where
  pub records : Map GrainId Record
  pub reminders : Map ReminderKey Reminder
  pub members : Map MemberId Member
  pub clock_now : Time

-- NewMemory.
unfoldable pub new_memory : Time → Memory
new_memory now = record { records = []; reminders = []; members = []; clock_now = now }
