-- ===== src/FdCache/Table.antt =====
-- src/fd_cache.h and src/fd_cache.c: the cache of open file descriptors. An operation takes the
-- file's static variables and what the system calls answer during it, and returns them changed.
use nfsrods.Prelude.{
  ℕ, suc, ◌+◌, ◌-◌, ◌%◌, Bool, true, false, not, ◌&&◌, ◌||◌, ◌==◌, if◌then◌else◌, List, [], ◌∷◌,
  Option, none, some, set, get_elem?, replicate,
}
use nfsrods.Backend.{FilePath, Stat}
use nfsrods.Fh.Handles.{Handle}

-- `FD_ENTRIES`, `INACTIVE_TIMEOUT`, `PENDING_ERROR_TIMEOUT`.
abbrev pub fd_entries : ℕ
fd_entries = 256

abbrev pub inactive_timeout : ℕ
inactive_timeout = 2

abbrev pub pending_error_timeout : ℕ
pending_error_timeout = 7200

-- `UNFS3_FD_READ`, `UNFS3_FD_WRITE`.
pub data Kind : Type 0 where
  read write : Kind

abbrev pub kind_eq : Kind → Kind → Bool
kind_eq Kind.read Kind.read = true
kind_eq Kind.write Kind.write = true
kind_eq _ _ = false

-- `fd_cache_t`; the descriptor -1 is `none`.
pub record Entry : Type 0 where
  pub fd : Option ℕ
  pub kind : Kind
  pub use_time : ℕ
  pub dev : ℕ
  pub ino : ℕ
  pub gen : ℕ

-- `fd_cache`, `fd_cache_readers`, `fd_cache_writers`; the write verifier, by its bytes, and the
-- descriptors that have been closed, the last one first.
pub record Cache : Type 0 where
  pub entries : List Entry
  pub readers : ℕ
  pub writers : ℕ
  pub verifier : List ℕ
  pub closed : List ℕ

-- A call's file descriptor, or -1 and `errno`.
pub data Result : Type 0 where
  opened : ℕ → Result
  failed : ℕ → Result

-- The answers of `time`, `fsync` and `close` (whether they succeed), `open` and `fstat`; and what
-- `getpid() ^ rand()` gives while a slot is deleted, and, at `fd_entries`, after a loop over the slots.
pub record Sys : Type 0 where
  pub now : ℕ
  pub pid_rand : ℕ → ℕ
  pub fsync_ok : ℕ → Bool
  pub close_ok : ℕ → Bool
  pub open_file : FilePath → Kind → Result
  pub fstat : ℕ → Option Stat

abbrev pub unused : Kind → Entry
unused kind = record { fd = none; kind = kind; use_time = 0; dev = 0; ino = 0; gen = 0 }

-- `fd_cache_init`, over the variables' initial values.
unfoldable pub init : Cache
init = record {
  entries = replicate fd_entries (unused Kind.read);
  readers = 0;
  writers = 0;
  verifier = replicate 8 0;
  closed = [];
}

-- The first slot that satisfies a test, as the three searches of the file look for it.
unfoldable pub search_slot : (Entry → Bool) → List Entry → Option ℕ
search_slot test [] = none
search_slot test (e ∷ es) =
    let rest = search_slot test es in
    if test e then some 0 else elim rest [ none ↦ none | some i ↦ some (suc i) ]

abbrev pub in_use : Entry → Bool
in_use e = not (e.use_time == 0)

abbrev pub is_open : Entry → Bool
is_open e = elim e.fd [ none ↦ false | some fd ↦ true ]

abbrev pub is_unused : Entry → Bool
is_unused e = e.use_time == 0

abbrev pub has_fd : ℕ → Kind → Entry → Bool
has_fd fd kind e = elim e.fd [ none ↦ false | some n ↦ n == fd ] && kind_eq e.kind kind

abbrev pub has_fh : Handle → Kind → Entry → Bool
has_fh fh kind e = kind_eq e.kind kind && e.dev == fh.dev && e.ino == fh.ino && e.gen == fh.gen

unfoldable pub fd_cache_unused : Cache → Option ℕ
unfolding search_slot
fd_cache_unused c = search_slot is_unused c.entries

unfoldable pub idx_by_fd : Cache → ℕ → Kind → Option ℕ
unfolding search_slot
idx_by_fd c fd kind = search_slot (has_fd fd kind) c.entries

unfoldable pub idx_by_fh : Cache → Handle → Kind → Option ℕ
unfolding search_slot
idx_by_fh c fh kind = search_slot (has_fh fh kind) c.entries

-- The counters are decremented only for an entry with an open descriptor, which they count.
abbrev pub uncount : Kind → Cache → Cache
uncount Kind.read c = record c { readers = c.readers - 1 }
uncount Kind.write c = record c { writers = c.writers - 1 }

abbrev pub count_one : Kind → Cache → Cache
count_one Kind.read c = record c { readers = c.readers + 1 }
count_one Kind.write c = record c { writers = c.writers + 1 }

-- Only a descriptor for writing is synced.
abbrev pub sync_ok : Sys → Kind → ℕ → Bool
sync_ok sys Kind.read fd = true
sync_ok sys Kind.write fd = sys.fsync_ok fd

-- `regenerate_write_verifier` of src/daemon.c: the array is one of `char`, so one byte is written for
-- each of the two numbers.
unfoldable pub regenerate_write_verifier : Sys → ℕ → List ℕ → List ℕ
regenerate_write_verifier sys i wverf = set (set wverf 0 (sys.pid_rand i % 256)) 4 (sys.now % 256)

-- The end of `fd_cache_del`, once the descriptor is closed: `ok` is `res1 != -1`.
unfoldable pub finish_del : Sys → Cache → ℕ → Bool → Entry → Bool → Cache × Bool
unfolding regenerate_write_verifier
finish_del sys c idx keep_on_error e ok = (
  record c {
    verifier =
        if not ok && not keep_on_error
        then regenerate_write_verifier sys idx c.verifier
        else c.verifier;
    entries = set c.entries idx (if ok || not keep_on_error then unused e.kind else e);
  },
  ok,
)

unfoldable pub del_at : Sys → Cache → ℕ → Bool → Entry → Cache × Bool
unfolding finish_del
del_at sys c idx keep_on_error e = elim e.fd [
  | none ↦ finish_del sys c idx keep_on_error e false
  | some fd ↦
      let c' = uncount e.kind c in
      finish_del sys (record c' { closed = fd ∷ c.closed }) idx keep_on_error
        (record e { fd = none }) (sync_ok sys e.kind fd && sys.close_ok fd)
]

-- `fd_cache_del`. The callers pass a slot of the array, so the first case does not occur.
unfoldable pub fd_cache_del : Sys → Cache → ℕ → Bool → Cache × Bool
unfolding del_at
fd_cache_del sys c idx keep_on_error = elim (get_elem? c.entries idx) [
  | none ↦ (c, false)
  | some e ↦ del_at sys c idx keep_on_error e
]

-- `fd_cache_add`: nothing is added to a full cache.
unfoldable pub fd_cache_add : Sys → Cache → ℕ → Handle → Kind → Cache
unfolding fd_cache_unused
fd_cache_add sys c fd ufh kind = elim (fd_cache_unused c) [
  | none ↦ c
  | some idx ↦
      let c' = count_one kind c in
      record c' {
        entries = set c.entries idx (record {
          fd = some fd;
          kind = kind;
          use_time = sys.now;
          dev = ufh.dev;
          ino = ufh.ino;
          gen = ufh.gen;
        });
      }
]
