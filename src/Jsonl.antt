-- ===== src/Jsonl.antt =====
-- src/storage/jsonl_event_sink.cpp: the files that events are written to. The cache directory is
-- the contents of its files by their paths. What the file system does in a call, the readings of
-- the clock and the text of make_summary_line are arguments.
pub mod Fsync
pub mod Cache
pub mod Tests
use minilisysm.Prelude.{
  ℕ, ◌+◌, ◌*◌, Bool, true, false, ◌&&◌, ◌||◌, not, Option, none, some, List, [], ◌∷◌, ◌++◌, Bytes,
  codes, bytes_equality, length, replicate, ◌-◌, u32, add64, mul64, leb, ltb, if◌then◌else◌,
}
use minilisysm.Prelude.Decimal.{decimal}
use minilisysm.Event.{EventLevel}
use minilisysm.Config.{PersistenceConfig}
use minilisysm.Map.{Map, find, assign}
use minilisysm.Jsonl.Fsync.{FsyncState, Sync, fsync_if_allowed}
use minilisysm.Jsonl.Cache.{enforce_cache_limit}

pub record JsonlEventSink : Type 0 where
  pub files : Map Bytes Bytes
  pub stream_open : Bool
  pub summary_open : Bool
  pub current_path : Bytes
  pub current_summary_path : Bytes
  pub current_size : ℕ
  pub file_index : ℕ
  pub written_events : ℕ
  pub write_errors : ℕ
  pub rotated_files : ℕ
  pub fsync : FsyncState

-- What the file system does while an event is written: whether files open, whether the line and the
-- summary are written, how a sync goes, when files were written last and which are removed.
pub record Storage : Type 0 where
  pub opens : ℕ → Bool
  pub summary_opens : ℕ → Bool
  pub line_written : Bool
  pub summary_written : Bool
  pub sync : Sync
  pub last_write_time : Bytes → ℕ
  pub removed : Bytes → Bool

-- The bytes of a file, none where there is no such file.
abbrev pub bytes_of : Option Bytes → Bytes
bytes_of none = []
bytes_of (some text) = text

abbrev pub is_there : Option Bytes → Bool
is_there none = false
is_there (some text) = true

abbrev pub append_file : Bytes → Bytes → Map Bytes Bytes → Map Bytes Bytes
append_file path text files = assign path (bytes_of (find path files) ++ text) files

-- The path of a file with a number.
abbrev pub part_path : Bytes → Bytes → Bytes → ℕ → Bytes
part_path directory prefix extension index =
    let number = decimal 20 index [] in
    directory
    ++ prefix
    ++ codes "-part"
    ++ replicate (6 - length number) b'0'
    ++ number
    ++ extension

module _ (c : PersistenceConfig) (prefix : Bytes) (storage : Storage) where
  -- std::ofstream::open fails on a stream that is still open, as the summary is after a line that
  -- could not be written.
  abbrev pub open_summary : ℕ → JsonlEventSink → JsonlEventSink
  open_summary index s =
      let path = part_path (codes "summary/") prefix (codes ".summary.log") index in
      if c.summary_enable
      then (if storage.summary_opens index && not s.summary_open
          then record s {
            summary_open = true;
            current_summary_path = path;
            files = append_file path [] s.files;
          }
          else record s {
            summary_open = false;
            current_summary_path = path;
            write_errors = add64 s.write_errors 1;
          })
      else s

  unfoldable pub open_next_file : JsonlEventSink → JsonlEventSink
  open_next_file s =
      let index = u32 (s.file_index + 1) in
      let path = part_path (codes "jsonl/") prefix (codes ".jsonl") index in
      let existed = is_there (find path s.files) in
      let opened = storage.opens index in
      open_summary index (record s {
        file_index = index;
        current_path = path;
        stream_open = opened;
        files = if opened then append_file path [] s.files else s.files;
        current_size = if opened then length (bytes_of (find path s.files)) else 0;
        fsync = record s.fsync { needs_directory_sync = opened && not existed };
      })

  abbrev pub write_summary : Bytes → JsonlEventSink → JsonlEventSink
  write_summary text s =
      if c.summary_enable && s.summary_open
      then (if storage.summary_written
          then record s { files = append_file s.current_summary_path text s.files }
          else record s { write_errors = add64 s.write_errors 1; summary_open = false })
      else s

  unfoldable pub rotate_if_needed : JsonlEventSink → JsonlEventSink
  rotate_if_needed s =
      let next = open_next_file (record s {
        stream_open = false;
        summary_open = false;
        rotated_files = add64 s.rotated_files 1;
      }) in
      if ltb s.current_size (mul64 (mul64 c.file_rotate_mb 1024) 1024) then s else next

  -- What write_event does once the line is written.
  abbrev pub after_write : EventLevel → ℕ → Bytes → Bytes → JsonlEventSink → JsonlEventSink
  after_write level now line summary s =
      let sized = record s {
        files = append_file s.current_path line s.files;
        current_size = s.current_size + length line;
      } in
      let summarized = write_summary summary sized in
      let counted = record summarized { written_events = add64 summarized.written_events 1 } in
      let synced = record counted {
        fsync = (fsync_if_allowed c level now storage.sync counted.fsync).1;
      } in
      let rotated = rotate_if_needed synced in
      record rotated {
        files =
            enforce_cache_limit c storage.last_write_time storage.removed rotated.current_path
              rotated.current_summary_path rotated.files;
      }

  -- The line is that of the serializer; `false` where the event is not written.
  unfoldable pub write_event :
      EventLevel → ℕ → Bytes → Bytes → JsonlEventSink → Bool × JsonlEventSink
  write_event level now line summary s =
      let opened = if s.stream_open then s else open_next_file s in
      let written = after_write level now line summary opened in
      let failed = record opened { write_errors = add64 opened.write_errors 1 } in
      if not opened.stream_open
      then (false, failed)
      else if storage.line_written
      then (true, written)
      else (false, record failed { stream_open = false })
