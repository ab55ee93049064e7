-- ===== src/Drive/Confinement.antt =====
-- rdpdr: what a request does to the table of open files, and what it touches of the file system.
use agent_rdp.Drive.{
  FilePath, OpenOptions, FileSystem, Backend, DeviceIoRequest, NtStatus, Body, Response, answer,
}
use agent_rdp.Drive.Files.{
  handle_of, Handled, write_inner, written_as, write_to, read_inner, read_as, read_from, synced,
  deleted, delete_marked, close_device,
}
use agent_rdp.Drive.Table.{IsBelow, IsTable, close-IsTable}
use agent_rdp.Base.{
  ℕ, ◌≡◌, refl, Bool, true, false, not, Option, none, some, List, [], ◌∷◌, ℕ_discrete, ◌==◌,
  if_either, is_none, length, lookup,
}

module _ {S H I : Type 0} (fs : FileSystem S H I) (drives : List (ℕ × FilePath))
    (P : S → Type 0) where
  -- What the calls of the backend keep, as long as the paths they are given lie below the drives.
  pub record IsKeptBelow : Type 0 where
    pub by_create_dir_all :
        (s : S) (p : FilePath) → IsBelow drives p → P s → P (fs.create_dir_all s p).0
    pub by_open_file :
        (s : S) (p : FilePath) (o : OpenOptions) → IsBelow drives p → P s → P (fs.open_file s p o).0
    pub by_rename :
        (s : S) (p q : FilePath) → IsBelow drives p → IsBelow drives q → P s → P (fs.rename s p q).0
    pub by_remove_file : (s : S) (p : FilePath) → IsBelow drives p → P s → P (fs.remove_file s p).0
    pub by_remove_dir : (s : S) (p : FilePath) → IsBelow drives p → P s → P (fs.remove_dir s p).0
    pub by_read_dir : (s : S) (p : FilePath) → IsBelow drives p → P s → P (fs.read_dir s p).0
    pub by_next : (s : S) (i : I) → P s → P (fs.next s i).0
    pub by_seek : (s : S) (h : H) (n : ℕ) → P s → P (fs.seek s h n).0
    pub by_write : (s : S) (h : H) (bytes : List ℕ) → P s → P (fs.write s h bytes).0
    pub by_flush : (s : S) (h : H) → P s → P (fs.flush s h).0
    pub by_read : (s : S) (h : H) (n : ℕ) → P s → P (fs.read s h n).0
    pub by_sync_all : (s : S) (h : H) → P s → P (fs.sync_all s h).0
    pub by_set_len : (s : S) (h : H) (n : ℕ) → P s → P (fs.set_len s h n).0

  -- One answer, under the request's own header.
  unfoldable pub IsAnswer : DeviceIoRequest → List Response → Type 0
  IsAnswer q rs = (r : Response) × (rs ≡ r ∷ []) × (r.header ≡ q)

  pub record IsOrderly (q : DeviceIoRequest) (o : Handled fs) : Type 0 where
    pub table : IsTable drives o.0
    pub kept : P o.1
    pub answered : IsAnswer q o.2

  module _ (k : IsKeptBelow) (b : Backend H I) (t : IsTable drives b) (q : DeviceIoRequest) where
    pub same :
        (s : S)
        → P s
        → (status : NtStatus) (body : Body) → IsOrderly q (b, s, answer q status body ∷ [])
    unfolding IsAnswer
    same s h status body = record {
      table = t;
      kept = h;
      answered = (answer q status body, refl, refl);
    }

    write_inner-kept :
        (s : S) (h : H) (offset : ℕ) (bytes : List ℕ) → P s → P (write_inner fs s h offset bytes).0
    unfolding write_inner
    write_inner-kept s h offset bytes x =
        let a = k.by_seek s h offset x in
        let w = k.by_write (fs.seek s h offset).0 h bytes a in
        let f = k.by_flush (fs.write (fs.seek s h offset).0 h bytes).0 h w in
        if_either (λ (r : S × Option ℕ). P r.0) (not (fs.seek s h offset).1) a
          (if_either (λ (r : S × Option ℕ). P r.0)
            (is_none (fs.write (fs.seek s h offset).0 h bytes).1) w f)

    written_as-header : (n : ℕ) (o : Option ℕ) → (written_as fs q n o).header ≡ q
    written_as-header n none = refl
    written_as-header n (some m) = if_either (λ (r : Response). r.header ≡ q) (m == n) refl refl

    pub write_to-IsOrderly :
        (s : S) (offset : ℕ) (bytes : List ℕ) (o : Option H)
        → P s
        → IsOrderly q (write_to fs b s q offset bytes o)
    unfolding IsAnswer
    write_to-IsOrderly s offset bytes none x = same s x _ _
    write_to-IsOrderly s offset bytes (some h) x = record {
      table = t;
      kept = write_inner-kept s h offset bytes x;
      answered = (_, refl, written_as-header (length bytes) (write_inner fs s h offset bytes).1);
    }

    read_as-header : (o : Option (List ℕ)) → (read_as fs q o).header ≡ q
    read_as-header none = refl
    read_as-header (some bytes) = refl

    pub read_from-IsOrderly :
        (s : S) (len offset : ℕ) (o : Option H)
        → P s
        → IsOrderly q (read_from fs b s q len offset o)
    unfolding IsAnswer read_inner
    read_from-IsOrderly s len offset none x = same s x _ _
    read_from-IsOrderly s len offset (some h) x = record {
      table = t;
      kept =
          if_either (λ (r : S × Option (List ℕ)). P r.0) (fs.seek s h offset).1
            (k.by_read (fs.seek s h offset).0 h len (k.by_seek s h offset x))
            (k.by_seek s h offset x);
      answered = (_, refl, read_as-header (read_inner fs s h offset len).1);
    }

    deleted-kept : (s : S) (p : FilePath) → IsBelow drives p → P s → P (deleted fs s p)
    deleted-kept s p below x =
        let a = k.by_remove_file s p below x in
        if_either P (fs.remove_file s p).1 a (k.by_remove_dir (fs.remove_file s p).0 p below a)

    delete_marked-kept :
        (s : S) (m : Option Bool) (o : Option FilePath)
        → ((p : FilePath) → o ≡ some p → IsBelow drives p)
        → P s
        → P (delete_marked fs s m o)
    delete_marked-kept s none o h x = x
    delete_marked-kept s (some false) o h x = x
    delete_marked-kept s (some true) none h x = x
    delete_marked-kept s (some true) (some p) h x = deleted-kept s p (h p refl) x

    synced-kept : (s : S) (o : Option H) → P s → P (synced fs s o)
    synced-kept s none x = x
    synced-kept s (some h) x = k.by_sync_all s h x

    pub close_device-IsOrderly : (s : S) → P s → IsOrderly q (close_device fs b s q)
    unfolding close_device IsAnswer
    close_device-IsOrderly s x = record {
      table = close-IsTable drives b t q.file_id;
      kept =
          delete_marked-kept (synced fs s (handle_of (lookup ℕ_discrete q.file_id b.file_map)))
            (lookup ℕ_discrete q.file_id b.delete_on_close)
            (lookup ℕ_discrete q.file_id b.file_path_map) (t.below q.file_id)
            (synced-kept s (handle_of (lookup ℕ_discrete q.file_id b.file_map)) x);
      answered = (_, refl, refl);
    }
