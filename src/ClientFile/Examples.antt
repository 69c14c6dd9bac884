-- ===== src/ClientFile/Examples.antt =====
-- The theorems on the client_file module at concrete inputs.
use buildat.Base.{◌≡◌, refl, ◌⊎◌, Option, some, [], ◌∷◌, ◌++◌, arith}
use buildat.Base.Keys.{Bytes, bytes_eq_instance}
use buildat.Base.Map.{lookup}
use buildat.Packet.Registry.{bytes}
use buildat.ClientFile.Files.{
  FileInfo, Watch, ClientFile, client_file, file_content, file_restore_info, on_request_file,
  watch_callback, restore_file,
}
use buildat.ClientFile.Requests.{updated, run, on_request_file-IsHashed}
use buildat.ClientFile.Reload.{watch_callback-restore_file}

-- A hash for the examples: the first byte; every file holds the same bytes.
abbrev calculate : Bytes → Bytes
calculate [] = []
calculate (b ∷ bs) = b ∷ []

abbrev new_content : Bytes
new_content = 50 ∷ 51 ∷ []

abbrev read_file : Bytes → Option Bytes
read_file path = some new_content

abbrev strip_file_name : Bytes → Bytes
strip_file_name path = []

abbrev name : Bytes
name = bytes "init.lua"

on_request_file-IsHashed_example :
    let answer =
      on_request_file 7 name
        (50 ∷ [])
        (run calculate read_file strip_file_name [] (updated name new_content ∷ []) client_file) in
    (answer ≡ [])
    ⊎ ((content : Bytes) × (answer ≡ (7, file_content name (50 ∷ []) content) ∷ [])
        × (calculate content ≡ 50 ∷ []))
on_request_file-IsHashed_example =
    on_request_file-IsHashed calculate read_file strip_file_name [] (updated name new_content ∷ [])
      7 name (50 ∷ [])

abbrev path : Bytes
path = bytes "/m/init.lua"

abbrev watch : Watch
watch = record { dir_path = []; name = name; path = path }

abbrev old : FileInfo
old = record { name = name; content = 49 ∷ []; hash = 49 ∷ []; path = path }

abbrev watching : ClientFile
watching = record { files = (name, old) ∷ []; watches = watch ∷ []; paths = (name, path) ∷ [] }

held : lookup name watching.files ≡ some old
unfolding lookup
held = refl

watch_callback-restore_file_example :
    ((info : FileInfo) × (lookup name
          (watch_callback calculate read_file strip_file_name [] watch path watching).after.files
        ≡ some info)
      × (file_restore_info info ≡ record { name = name; content = new_content; path = [] })
      × ((restore_file calculate read_file strip_file_name []
            (file_restore_info info)
            client_file).after.watches
          ≡ client_file.watches))
    × ((restore_file calculate read_file strip_file_name []
          (file_restore_info old)
          client_file).after.watches
        ≡ client_file.watches ++ record { dir_path = []; name = name; path = path } ∷ [])
watch_callback-restore_file_example =
    watch_callback-restore_file calculate read_file strip_file_name [] watch new_content old
      watching client_file refl (λ e. ground arith) held (λ e. ground arith) refl refl
      (λ e. ground arith)
