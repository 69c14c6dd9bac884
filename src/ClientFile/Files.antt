-- ===== src/ClientFile/Files.antt =====
-- The state and the operations of the client_file module (builtin/client_file/client_file.cpp).
-- What goes through an archive is kept as what was put in. What is sent is a result.
use buildat.Base.{
  ℕ, Option, none, some, List, [], ◌∷◌, ◌++◌, map, Bool, true, false, not, if◌then◌else◌,
}
use buildat.Base.Keys.{Bytes, bytes_eq, bytes_eq_instance}
use buildat.Base.Map.{Map, lookup, insert}

pub record FileInfo : Type 0 where
  pub name : Bytes
  pub content : Bytes
  pub hash : Bytes
  pub path : Bytes

-- A callback of the file watch: the directory, and the name and the path of the file it is for.
pub record Watch : Type 0 where
  pub dir_path : Bytes
  pub name : Bytes
  pub path : Bytes

-- `paths` are the calls of the server's add_file_path(), the last one first.
pub record ClientFile : Type 0 where
  pub files : Map Bytes FileInfo
  pub watches : List Watch
  pub paths : List (Bytes × Bytes)

-- The constructor.
unfoldable pub client_file : ClientFile
client_file = record { files = []; watches = []; paths = [] }

-- The packets of the module, under the names that they have in the source.
pub data Message : Type 0 where
  announce_file : Bytes → Bytes → Message
  tell_after_all_files_transferred : Message
  file_content : Bytes → Bytes → Bytes → Message

-- What a call does: the module afterwards, and what is sent to which peer. `opened` is false for
-- the exception of a file that cannot be opened.
pub record Served : Type 0 where
  pub after : ClientFile
  pub sent : List (ℕ × Message)
  pub opened : Bool

-- name, content, path
pub record RestoreInfo : Type 0 where
  pub name : Bytes
  pub content : Bytes
  pub path : Bytes

unfoldable pub file_restore_info : FileInfo → RestoreInfo
file_restore_info info =
    if not (bytes_eq info.path [])
    then record { name = info.name; content = []; path = info.path }
    else record { name = info.name; content = info.content; path = [] }

-- on_unload(): what is stored as "client_file:restore_info".
unfoldable pub on_unload : ClientFile → List RestoreInfo
on_unload m = map (λ (f : Bytes × FileInfo). file_restore_info f.1) m.files

-- What a new client is told.
unfoldable pub on_client_connected : ℕ → ClientFile → List (ℕ × Message)
on_client_connected peer m =
    map (λ (f : Bytes × FileInfo). (peer, announce_file f.1.name f.1.hash)) m.files
    ++ (peer, tell_after_all_files_transferred) ∷ []

unfoldable pub on_request_file : ℕ → Bytes → Bytes → ClientFile → List (ℕ × Message)
on_request_file sender file_name file_hash m = elim (lookup file_name m.files) [
  | none ↦ []
  | some info ↦
      if not (bytes_eq info.hash file_hash)
      then []
      else (sender, file_content info.name info.hash info.content) ∷ []
]

-- The SHA-1 function and the files, both of the system; strip_file_name() of interface/fs.h; and
-- the peers that the network module lists.
module _ (calculate : Bytes → Bytes) (read_file : Bytes → Option Bytes)
    (strip_file_name : Bytes → Bytes) (peers : List ℕ) where
  unfoldable pub is_same : Bytes → Bytes → ClientFile → Bool
  is_same name hash m = elim (lookup name m.files) [
    | none ↦ false
    | some old_info ↦ bytes_eq old_info.hash hash
  ]

  unfoldable pub update_file_content : Bytes → Bytes → ClientFile → Served
  update_file_content name content m =
      let hash = calculate content in
      if is_same name hash m then record { after = m; sent = []; opened = true } else record {
        after = record m {
          files =
              insert name (record { name = name; content = content; hash = hash; path = [] })
                m.files;
        };
        sent = map (λ (peer : ℕ). (peer, announce_file name hash)) peers;
        opened = true;
      }

  unfoldable pub add_file_content : Bytes → Bytes → ClientFile → Served
  add_file_content name content m = update_file_content name content m

  -- The part of add_file_path() after the file was read.
  unfoldable pub add_read_file : Bytes → Bytes → Bytes → ClientFile → ClientFile
  add_read_file name path content m = record {
    files =
        insert name
          (record { name = name; content = content; hash = calculate content; path = path })
          m.files;
    watches =
        m.watches ++ record { dir_path = strip_file_name path; name = name; path = path } ∷ [];
    paths = (name, path) ∷ m.paths;
  }

  unfoldable pub add_file_path : Bytes → Bytes → ClientFile → Served
  add_file_path name path m = elim (read_file path) [
    | none ↦ record { after = m; sent = []; opened = false }
    | some content ↦ record { after = add_read_file name path content m; sent = []; opened = true }
  ]

  -- The callback of a watch, for a changed path.
  unfoldable pub watch_callback : Watch → Bytes → ClientFile → Served
  watch_callback w path m =
      if not (bytes_eq path w.path)
      then record { after = m; sent = []; opened = true }
      else elim (read_file w.path) [
        | none ↦ record { after = m; sent = []; opened = true }
        | some content ↦
            if bytes_eq content []
            then record { after = m; sent = []; opened = true }
            else update_file_content w.name content m
      ]

  unfoldable pub restore_file : RestoreInfo → ClientFile → Served
  restore_file info m =
      if not (bytes_eq info.path [])
      then add_file_path info.name info.path m
      else add_file_content info.name info.content m

  -- on_continue(), when the archive has been read: an exception ends it.
  unfoldable pub on_continue : List RestoreInfo → ClientFile → Served
  on_continue [] m = record { after = m; sent = []; opened = true }
  on_continue (info ∷ infos) m =
      let first = restore_file info m in
      let rest = on_continue infos first.after in
      if first.opened then record rest { sent = first.sent ++ rest.sent } else first
