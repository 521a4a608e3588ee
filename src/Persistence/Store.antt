-- ===== src/Persistence/Store.antt =====
-- The state of the store of matrix files (pkg/persistence/store.go). What the code calls is a parameter: msgpack
-- and JSON, functions of package strings, and the clock.
pub mod Files
pub mod Index
pub mod Calls
pub mod Opening
pub mod Log
pub mod Writing
pub mod Appending
pub mod Flushing
pub mod Recording
pub mod Replaying
pub mod Reading
pub mod Starting
pub mod Sessions
pub mod Recovery
pub mod Reopening
pub mod Ending
mod Examples
use qubicdb.Prelude.{
  ℕ, zero, suc, ◌+◌, ◌*◌, ◌/◌, ◌%◌, ◌^◌, Bool, true, false, ◌||◌, Option, none, some, List, [], ◌∷◌,
  ◌++◌, Text, bytes, text_eq, if◌then◌else◌, leb,
}
use qubicdb.Persistence.Codec.{Library}
use qubicdb.Persistence.Wal.{WalLibrary}

-- a time.Duration in nanoseconds; `negsuc n` is -(n + 1)
pub data ℤ : Type 0 where
  pos negsuc : ℕ → ℤ

abbrev pub is_positive : ℤ → Bool
is_positive (pos zero) = false
is_positive (pos (suc n)) = true
is_positive (negsuc n) = false

abbrev pub is_negative : ℤ → Bool
is_negative (pos n) = false
is_negative (negsuc n) = true

-- `now.Sub(last) >= d`
unfoldable pub at_least : ℤ → ℕ → ℕ → Bool
at_least (pos d) last now = leb (last + d) now
at_least (negsuc d) last now = leb last (now + suc d)

pub record DurabilityConfig : Type 0 where
  pub wal_enabled : Bool
  pub fsync_policy : Text
  pub fsync_interval : ℤ
  pub checksum_validation_interval : ℤ
  pub startup_repair : Bool

abbrev pub fsync_policy_always : Text
fsync_policy_always = bytes "always"

abbrev pub fsync_policy_interval : Text
fsync_policy_interval = bytes "interval"

abbrev pub fsync_policy_off : Text
fsync_policy_off = bytes "off"

abbrev pub one_second : ℤ
one_second = pos 1000000000

abbrev pub default_durability_config : DurabilityConfig
default_durability_config = record {
  wal_enabled = true;
  fsync_policy = fsync_policy_interval;
  fsync_interval = one_second;
  checksum_validation_interval = pos 0;
  startup_repair = true;
}

pub record ManifestEntry : Type 0 where
  pub version : ℕ
  pub checkpoint : Text
  pub created_at : ℕ

-- What the store calls, over the values `X` that it stores and their snapshots `S`; `none` is an
-- error. The clock gives its readings one after another, in nanoseconds.
pub record Setup (X S : Type 0) : Type 0 where
  pub codec : Library X
  pub compress : Bool
  pub wal : WalLibrary
  pub create_snapshot : X → S
  pub snapshot_id : S → Text
  pub marshal_snapshots : List S → Option Text
  pub unmarshal_snapshots : Text → Option (List S)
  pub marshal_manifest : ManifestEntry → Option Text
  pub unmarshal_manifest : Text → Option ManifestEntry
  pub trim_space : Text → Text
  pub to_lower : Text → Text
  pub clock : ℕ → ℕ

-- The files under the base path, each directory by the names in it (of data/, without the extension),
-- and what the process keeps in memory. The temporary files of writeAtomically are left out: nothing
-- reads them.
pub record FileStore (X S : Type 0) : Type 0 where
  pub wal_file : Option Text
  pub data_files : List (Text × Text)
  pub current_file : Option Text
  pub manifest_files : List (Text × Text)
  pub checkpoint_files : List (Text × Text)
  pub index_file : Option Text
  pub durability : DurabilityConfig
  pub index : List (Text × S)
  pub pending_writes : List (Text × X)
  pub total_writes : ℕ
  pub total_reads : ℕ
  pub last_sync : Option ℕ
  pub manifest_version : ℕ
  pub readings : ℕ

-- nothing stored yet
abbrev pub no_files : {X S : Type 0} → FileStore X S
no_files = record {
  wal_file = none;
  data_files = [];
  current_file = none;
  manifest_files = [];
  checkpoint_files = [];
  index_file = none;
  durability = default_durability_config;
  index = [];
  pending_writes = [];
  total_writes = 0;
  total_reads = 0;
  last_sync = none;
  manifest_version = 0;
  readings = 0;
}

-- `%020d`
unfoldable pub decimal : ℕ → ℕ → Text
decimal zero n = []
decimal (suc w) n = decimal w (n / 10) ++ (48 + n % 10) ∷ []

module _ {X S : Type 0} (setup : Setup X S) where
  unfoldable pub normalized : DurabilityConfig → DurabilityConfig
  normalized c =
      let policy = setup.to_lower (setup.trim_space c.fsync_policy) in
      let is_known =
        text_eq policy fsync_policy_always
        || (text_eq policy fsync_policy_interval || text_eq policy fsync_policy_off) in
      record c {
        fsync_policy = if is_known then policy else fsync_policy_interval;
        fsync_interval = if is_positive c.fsync_interval then c.fsync_interval else one_second;
        checksum_validation_interval =
            if is_negative c.checksum_validation_interval
            then pos 0
            else c.checksum_validation_interval;
      }
