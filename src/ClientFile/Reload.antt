-- ===== src/ClientFile/Reload.antt =====
-- A file on disk whose content changes (builtin/client_file/client_file.cpp).
use buildat.Base.{ℕ, ◌≡◌, ◌≢◌, refl, Option, some, List, [], ◌∷◌, ◌++◌, false, arith}
use buildat.Base.Keys.{Bytes, bytes_eq_refl, bytes_eq_instance}
use buildat.Base.Map.{lookup, lookup-insert_self, beq-ne}
use buildat.ClientFile.Files.{
  FileInfo, Watch, ClientFile, file_restore_info, is_same, update_file_content, add_file_content,
  add_read_file, add_file_path, watch_callback, restore_file,
}

module _ (calculate : Bytes → Bytes) (read_file : Bytes → Option Bytes)
    (strip_file_name : Bytes → Bytes) (peers : List ℕ) where
  not_same :
      (name hash : Bytes) (old : FileInfo) (m : ClientFile)
      → lookup name m.files ≡ some old
      → old.hash ≢ hash
      → is_same calculate read_file strip_file_name peers name hash m ≡ false
  unfolding is_same
  not_same name hash old m e differs = ground (arith, beq-ne old.hash hash differs)

  -- The watch calls update_file_content() for another content: the path is gone.
  changed_file :
      (w : Watch) (content : Bytes) (old : FileInfo) (m : ClientFile)
      → read_file w.path ≡ some content
      → content ≢ []
      → lookup w.name m.files ≡ some old
      → old.hash ≢ calculate content
      → lookup w.name
          (watch_callback calculate read_file strip_file_name peers w w.path m).after.files
        ≡ some (record { name = w.name; content = content; hash = calculate content; path = [] })
  unfolding watch_callback lookup update_file_content
  changed_file w content old m reads full held differs =
      rw
        (
          bytes_eq_refl w.path,
          reads,
          beq-ne content [] full,
          not_same w.name (calculate content) old m held differs,
        )
        (lookup-insert_self w.name _ m.files)

  content_restored :
      (name content : Bytes) (m : ClientFile)
      → (restore_file calculate read_file strip_file_name peers
          (record { name = name; content = content; path = [] })
          m).after.watches
        ≡ m.watches
  unfolding restore_file add_file_content update_file_content
  content_restored name content m = ground arith

  path_restored :
      (w : Watch) (content : Bytes) (old : FileInfo) (next : ClientFile)
      → read_file w.path ≡ some content
      → old.path ≡ w.path
      → old.name ≡ w.name
      → w.path ≢ []
      → (restore_file calculate read_file strip_file_name peers
          (file_restore_info old)
          next).after.watches
        ≡ next.watches
          ++ record { dir_path = strip_file_name w.path; name = w.name; path = w.path } ∷ []
  unfolding restore_file add_file_path file_restore_info add_read_file
  path_restored w content old next reads path name there = ground (arith, beq-ne w.path [] there)

  -- When the watched file of a name is changed, the path of the name is forgotten: if the file can
  -- be read and is not empty, and its hash is not the one held, then what on_unload() stores for
  -- the name is the content without a path, and a module that continues with that stored entry
  -- does not watch the file. A module that continues with the entry as it was before does, if it
  -- had a path.
  pub watch_callback-restore_file :
      (w : Watch) (content : Bytes) (old : FileInfo) (m next : ClientFile)
      → read_file w.path ≡ some content
      → content ≢ []
      → lookup w.name m.files ≡ some old
      → old.hash ≢ calculate content
      → old.path ≡ w.path
      → old.name ≡ w.name
      → w.path ≢ []
      → ((info : FileInfo) × (lookup w.name
              (watch_callback calculate read_file strip_file_name peers w w.path m).after.files
            ≡ some info)
          × (file_restore_info info ≡ record { name = w.name; content = content; path = [] })
          × ((restore_file calculate read_file strip_file_name peers
                (file_restore_info info)
                next).after.watches
              ≡ next.watches))
        × ((restore_file calculate read_file strip_file_name peers
              (file_restore_info old)
              next).after.watches
            ≡ next.watches
              ++ record { dir_path = strip_file_name w.path; name = w.name; path = w.path } ∷ [])
  unfolding file_restore_info
  watch_callback-restore_file w content old m next reads full held differs path name there = (
    (
      record { name = w.name; content = content; hash = calculate content; path = [] },
      changed_file w content old m reads full held differs,
      refl,
      content_restored w.name content next,
    ),
    path_restored w content old next reads path name there,
  )
