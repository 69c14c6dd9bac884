-- ===== src/ClientFile/Requests.antt =====
-- What the clients get (builtin/client_file/client_file.cpp).
use buildat.Base.{
  ℕ, ◌≡◌, refl, sym, ap, ◌∙◌, Option, some, List, [], ◌∷◌, if◌then◌else◌, arith, Bool-cases,
  Option-cases, inl, inr, ◌⊎◌,
}
use buildat.Base.Keys.{Bytes, bytes_eq, bytes_eq_iff, bytes_eq_instance}
use buildat.Base.Map.{lookup, insert, lookup-insert}
use buildat.ClientFile.Files.{
  FileInfo, Watch, ClientFile, client_file, file_content, RestoreInfo, on_request_file, is_same,
  update_file_content, add_file_content, add_read_file, add_file_path, watch_callback, restore_file,
  on_continue,
}

-- Every file is held under its name, with the hash of its content.
pub record IsHashed (calculate : Bytes → Bytes) (m : ClientFile) : Type 0 where
  pub hashed :
      (name : Bytes) (info : FileInfo)
      → lookup name m.files ≡ some info
      → (info.name ≡ name) × (info.hash ≡ calculate info.content)

inserted-IsHashed :
    (calculate : Bytes → Bytes) (m m' : ClientFile) (name content path : Bytes)
    → IsHashed calculate m
    → m'.files
      ≡ insert name
          (record { name = name; content = content; hash = calculate content; path = path })
          m.files
    → IsHashed calculate m'
inserted-IsHashed calculate m m' name content path v e = record {
  hashed = λ n info at.
      let new : FileInfo = record {
        name = name;
        content = content;
        hash = calculate content;
        path = path;
      } in
      let here : (if bytes_eq name n then some new else lookup n m.files) ≡ some info =
        sym (ap (lookup n) e ∙ lookup-insert name n new m.files) ∙ at in
      elim (Bool-cases (bytes_eq name n)) [
        | inl same ↦ ground (arith, bytes_eq_iff name n)
        | inr other ↦ v.hashed n info (ground arith)
      ];
}

module _ (calculate : Bytes → Bytes) (read_file : Bytes → Option Bytes)
    (strip_file_name : Bytes → Bytes) (peers : List ℕ) where
  update_file_content-IsHashed :
      (name content : Bytes) (m : ClientFile)
      → IsHashed calculate m
      → IsHashed calculate
          (update_file_content calculate read_file strip_file_name peers name content m).after
  unfolding update_file_content
  update_file_content-IsHashed name content m v =
      elim (Bool-cases
        (is_same calculate read_file strip_file_name peers name (calculate content) m)) [
          | inl same ↦ rw same v
          | inr new ↦ rw new (inserted-IsHashed calculate m _ name content [] v refl)
        ]

  add_file_path-IsHashed :
      (name path : Bytes) (m : ClientFile)
      → IsHashed calculate m
      → IsHashed calculate
          (add_file_path calculate read_file strip_file_name peers name path m).after
  unfolding add_read_file add_file_path
  add_file_path-IsHashed name path m v = elim (Option-cases (read_file path)) [
    | inl e ↦ rw (e, add_file_path) v
    | inr (content, e) ↦
        rw (e, add_file_path) (inserted-IsHashed calculate m _ name content path v refl)
  ]

  watch_callback-IsHashed :
      (w : Watch) (path : Bytes) (m : ClientFile)
      → IsHashed calculate m
      → IsHashed calculate (watch_callback calculate read_file strip_file_name peers w path m).after
  unfolding watch_callback
  watch_callback-IsHashed w path m v = elim (Bool-cases (bytes_eq path w.path)) [
    | inr other ↦ rw (other) v
    | inl mine ↦ elim (Option-cases (read_file w.path)) [
      | inl e ↦ rw (mine, e) v
      | inr (content, e) ↦ elim (Bool-cases (bytes_eq content [])) [
        | inl empty ↦ rw (mine, e, empty) v
        | inr full ↦ rw (mine, e, full) (update_file_content-IsHashed w.name content m v)
      ]
    ]
  ]

  restore_file-IsHashed :
      (info : RestoreInfo) (m : ClientFile)
      → IsHashed calculate m
      → IsHashed calculate (restore_file calculate read_file strip_file_name peers info m).after
  unfolding add_file_content restore_file
  restore_file-IsHashed info m v = elim (Bool-cases (bytes_eq info.path [])) [
    | inl e ↦ rw (e) (update_file_content-IsHashed info.name info.content m v)
    | inr e ↦ rw (e) (add_file_path-IsHashed info.name info.path m v)
  ]

  on_continue-IsHashed :
      (infos : List RestoreInfo) (m : ClientFile)
      → IsHashed calculate m
      → IsHashed calculate (on_continue calculate read_file strip_file_name peers infos m).after
  unfolding on_continue
  on_continue-IsHashed [] m v = v
  on_continue-IsHashed (info ∷ infos) m v =
      let first = restore_file calculate read_file strip_file_name peers info m in
      let v' = restore_file-IsHashed info m v in
      let rest = on_continue-IsHashed infos first.after v' in
      elim (Bool-cases first.opened) [ inl e ↦ rw e rest | inr e ↦ rw e v' ]

-- What can happen to the module.
pub data Operation : Type 0 where
  updated added : Bytes → Bytes → Operation
  changed : Watch → Bytes → Operation
  continued : List RestoreInfo → Operation

nothing : {info : FileInfo} (n : Bytes) → lookup n client_file.files ≡ some info → ⊥
unfolding lookup client_file
nothing n e = cc

answered :
    (calculate : Bytes → Bytes) (m : ClientFile)
    → IsHashed calculate m
    → (sender : ℕ) (name hash : Bytes)
    → let answer = on_request_file sender name hash m in
      (answer ≡ [])
      ⊎ ((content : Bytes) × (answer ≡ (sender, file_content name hash content) ∷ [])
          × (calculate content ≡ hash))
unfolding on_request_file
answered calculate m v sender name hash = elim (Option-cases (lookup name m.files)) [
  | inl e ↦ inl (rw (e, on_request_file) refl)
  | inr (info, e) ↦ elim (Bool-cases (bytes_eq info.hash hash)) [
    | inr other ↦ inl (rw (e, other, on_request_file) refl)
    | inl same ↦
        let h = (bytes_eq_iff info.hash hash).0 same in
        let (n, c) = v.hashed name info e in
        inr (
          info.content,
          rw (e, same, on_request_file)
              (ap (λ x. (sender, file_content x info.hash info.content) ∷ []) n
                ∙ ap (λ x. (sender, file_content name x info.content) ∷ []) h),
          sym c ∙ h,
        )
  ]
]

module _ (calculate : Bytes → Bytes) (read_file : Bytes → Option Bytes)
    (strip_file_name : Bytes → Bytes) (peers : List ℕ) where
  unfoldable pub serve : Operation → ClientFile → ClientFile
  serve (updated name content) m =
      (update_file_content calculate read_file strip_file_name peers name content m).after
  serve (added name path) m =
      (add_file_path calculate read_file strip_file_name peers name path m).after
  serve (changed w path) m =
      (watch_callback calculate read_file strip_file_name peers w path m).after
  serve (continued infos) m = (on_continue calculate read_file strip_file_name peers infos m).after

  unfoldable pub run : List Operation → ClientFile → ClientFile
  run [] m = m
  run (o ∷ os) m = run os (serve o m)

  serve-IsHashed :
      (o : Operation) (m : ClientFile) → IsHashed calculate m → IsHashed calculate (serve o m)
  unfolding serve
  serve-IsHashed (updated name content) m v =
      update_file_content-IsHashed calculate read_file strip_file_name peers name content m v
  serve-IsHashed (added name path) m v =
      add_file_path-IsHashed calculate read_file strip_file_name peers name path m v
  serve-IsHashed (changed w path) m v =
      watch_callback-IsHashed calculate read_file strip_file_name peers w path m v
  serve-IsHashed (continued infos) m v =
      on_continue-IsHashed calculate read_file strip_file_name peers infos m v

  run-IsHashed :
      (os : List Operation) (m : ClientFile) → IsHashed calculate m → IsHashed calculate (run os m)
  unfolding run
  run-IsHashed [] m v = v
  run-IsHashed (o ∷ os) m v = run-IsHashed os (serve o m) (serve-IsHashed o m v)

  -- After any operations on a module that was empty, a request for a name and a hash is either
  -- not answered, or it is answered to its sender with one packet with that name, that hash and
  -- a content that has that hash.
  pub on_request_file-IsHashed :
      (os : List Operation) (sender : ℕ) (name hash : Bytes)
      → let answer = on_request_file sender name hash (run os client_file) in
        (answer ≡ [])
        ⊎ ((content : Bytes) × (answer ≡ (sender, file_content name hash content) ∷ [])
            × (calculate content ≡ hash))
  on_request_file-IsHashed os sender name hash =
      answered calculate (run os client_file)
        (run-IsHashed os client_file (record { hashed = λ n info e. absurd (nothing n e) })) sender
        name hash
