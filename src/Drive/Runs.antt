-- ===== src/Drive/Runs.antt =====
-- rdpdr: whole sessions of requests, and what closing a file leaves.
use agent_rdp.Drive.{
  FilePath, FileSystem, Backend, new_backend, add_drive, DeviceIoRequest, InfoClass, SetBuffer,
  IoRequest, no_such_file, written, data_read, set_done, information, answer,
}
use agent_rdp.Drive.Files.{
  handle_of, write_to, write_device, read_from, read_device, close_device, set_on, set_information,
}
use agent_rdp.Drive.Queries.{information_on, query_information, handle_drive_io_request}
use agent_rdp.Drive.Table.{IsTable}
use agent_rdp.Drive.Confinement.{IsKeptBelow}
use agent_rdp.Drive.Requests.{IsServed, request-IsServed}
use agent_rdp.Base.{
  ℕ, ◌≡◌, refl, sym, ap, ◌∙◌, ◌≢◌, none, List, [], ◌∷◌, arith, ℕ_discrete, is_some, lookup, erase,
  lookup-erase,
}

-- The backend of a session, with the drives added in order.
unfoldable pub mapped : {H I : Type 0} → List (ℕ × FilePath) → Backend H I → Backend H I
unfolding add_drive
mapped [] b = b
mapped ((device, path) ∷ ds) b = mapped ds (add_drive b device path)

lookup-erased :
    {V : Type 0} (k : ℕ) (m : List (ℕ × V)) → lookup ℕ_discrete k (erase ℕ_discrete k m) ≡ none
lookup-erased k m = ground (arith, lookup-erase ℕ_discrete k k m)

-- A map has lost one key and is otherwise as it was.
abbrev pub IsWithout : {V : Type 0} → ℕ → List (ℕ × V) → List (ℕ × V) → Type 0
IsWithout k m m' =
    (lookup ℕ_discrete k m' ≡ none)
    × ((j : ℕ) → j ≢ k → lookup ℕ_discrete j m' ≡ lookup ℕ_discrete j m)

abbrev pub IsForgotten : {H I : Type 0} → ℕ → Backend H I → Backend H I → Type 0
IsForgotten k b b' =
    IsWithout k b.file_map b'.file_map
    × IsWithout k b.file_path_map b'.file_path_map
    × IsWithout k b.file_device_map b'.file_device_map
    × IsWithout k b.file_dir_map b'.file_dir_map
    × IsWithout k b.delete_on_close b'.delete_on_close

only-erased : {V : Type 0} (k : ℕ) (m : List (ℕ × V)) → IsWithout k m (erase ℕ_discrete k m)
only-erased k m = (lookup-erased k m, λ j ne. ground (arith, ne, lookup-erase ℕ_discrete j k m))

module _ {S H I : Type 0} (fs : FileSystem S H I) where
  unfoldable pub serve_all : Backend H I → S → List (DeviceIoRequest × IoRequest) → Backend H I × S
  unfolding handle_drive_io_request
  serve_all b s [] = (b, s)
  serve_all b s ((q, r) ∷ rs) = let o = handle_drive_io_request fs b s q r in serve_all o.0 o.1 rs

  abbrev IsNew : Backend H I → Type 0
  IsNew b =
      (b.file_map ≡ [])
      × (b.file_path_map ≡ [])
      × (b.file_device_map ≡ [])
      × (b.file_dir_map ≡ [])
      × (b.delete_on_close ≡ [])

  mapped-IsNew : (ds : List (ℕ × FilePath)) (b : Backend H I) → IsNew b → IsNew (mapped ds b)
  unfolding mapped add_drive
  mapped-IsNew [] b h = h
  mapped-IsNew ((device, path) ∷ ds) b h = mapped-IsNew ds (add_drive b device path) h

  new-IsTable : (b : Backend H I) → IsNew b → IsTable b.drive_paths b
  unfolding lookup
  new-IsTable b h = record {
    same_drives = refl;
    below = λ f p e. let x = ap (lookup ℕ_discrete f) h.1 in ground (arith, x, e);
    same_files = λ f.
        ap (λ m. is_some (lookup ℕ_discrete f m)) h.0
        ∙ sym (ap (λ m. is_some (lookup ℕ_discrete f m)) h.1);
    same_devices = λ f.
        ap (λ m. is_some (lookup ℕ_discrete f m)) h.2
        ∙ sym (ap (λ m. is_some (lookup ℕ_discrete f m)) h.1);
    listed_open = λ f e. let x = ap (lookup ℕ_discrete f) h.3 in ground (arith, x, e);
    marked_open = λ f e. let x = ap (lookup ℕ_discrete f) h.4 in ground (arith, x, e);
  }

  serve_all-lem :
      (drives : List (ℕ × FilePath)) (P : S → Type 0)
      → IsKeptBelow fs drives P
      → (rs : List (DeviceIoRequest × IoRequest)) (b : Backend H I) (s : S) → IsTable drives b
      → P s
      → IsTable drives (serve_all b s rs).0 × P (serve_all b s rs).1
  unfolding serve_all IsServed
  serve_all-lem drives P k [] b s t x = (t, x)
  serve_all-lem drives P k ((q, r) ∷ rs) b s t x =
      let o = handle_drive_io_request fs b s q r in
      let done = request-IsServed fs drives P k q b s r t x in
      serve_all-lem drives P k rs o.0 o.1 done.0 done.1

  -- However many requests of whatever kind the remote machine sends, in whatever order: all that
  -- the backend does to the file system is done to files that it opened and to paths that are a
  -- mapped drive's directory and then names, so what every such call keeps is kept; and its table of
  -- open files is in order.
  pub requests_stay_inside :
      (ds : List (ℕ × FilePath)) (P : S → Type 0)
      → IsKeptBelow fs (Backend.drive_paths {H = H} {I = I} (mapped ds new_backend)) P
      → (rs : List (DeviceIoRequest × IoRequest)) (s : S) → P s
      → IsTable
          (Backend.drive_paths {H = H} {I = I} (mapped ds new_backend))
          (serve_all (mapped ds new_backend) s rs).0
        × P (serve_all (mapped ds new_backend) s rs).1
  requests_stay_inside ds P k rs s x =
      let b : Backend H I = mapped ds new_backend in
      serve_all-lem b.drive_paths P k rs b s
        (new-IsTable b (mapped-IsNew ds new_backend (refl, refl, refl, refl, refl))) x

  -- A file that was closed is gone from every map, whatever was there before - its handle, path,
  -- device, listing and mark for deletion - and no other file's entry differs. Reading, writing,
  -- changing and asking about it then answer that there is no such file, and change nothing.
  pub closed_is_gone :
      (b : Backend H I) (s : S) (q : DeviceIoRequest) (offset n : ℕ) (bytes : List ℕ)
      (buffer : SetBuffer) (class : InfoClass)
      → IsForgotten q.file_id b (close_device fs b s q).0
        × (write_device fs (close_device fs b s q).0 s q offset bytes
            ≡ ((close_device fs b s q).0, s, answer q no_such_file (written 0) ∷ []))
        × (read_device fs (close_device fs b s q).0 s q n offset
            ≡ ((close_device fs b s q).0, s, answer q no_such_file (data_read []) ∷ []))
        × (set_information fs (close_device fs b s q).0 s q buffer
            ≡ ((close_device fs b s q).0, s, answer q no_such_file set_done ∷ []))
        × (query_information fs (close_device fs b s q).0 s q class
            ≡ ((close_device fs b s q).0, s, answer q no_such_file (information none) ∷ []))
  unfolding close_device write_device read_device set_information query_information
  closed_is_gone b s q offset n bytes buffer class =
      let b' = (close_device fs b s q).0 in
      let forgets : IsForgotten q.file_id b b' = (
        only-erased q.file_id b.file_map,
        only-erased q.file_id b.file_path_map,
        only-erased q.file_id b.file_device_map,
        only-erased q.file_id b.file_dir_map,
        only-erased q.file_id b.delete_on_close,
      ) in
      let no_handle = lookup-erased q.file_id b.file_map in
      let no_path = lookup-erased q.file_id b.file_path_map in
      (
        forgets,
        ap (λ o. write_to fs b' s q offset bytes (handle_of o)) no_handle,
        ap (λ o. read_from fs b' s q n offset (handle_of o)) no_handle,
        ap (set_on fs b' s q buffer) no_path,
        ap (λ o. (b', s, information_on fs b' s q class o ∷ [])) no_path,
      )
