-- ===== src/Storage/Sqlite/Refinement.antt =====
-- `SQLiteProofStore` against the contract of a store.
use atp_python.Base.{
  ◌≡◌, refl, subst, sym, ap, ◌∙◌, String, ◌==◌, arith, Bool, true, false, Option, none, some, List,
  [], Every, if◌then◌else◌,
}
use atp_python.Base.Dict.{
  NodupKeys, lookup, insert, erase, lookup-nil, lookup-insert, lookup-erase, insert-NodupKeys,
  erase-NodupKeys,
}
use atp_python.Python.DateTime.{DateTime}
use atp_python.Python.DateTime.Utc.{IsUtc}
use atp_python.Models.{StoredProof}
use atp_python.Storage.{ProofStore, key}
use atp_python.Storage.Contract.{
  Call, Contents, nothing, update, retained, is_expired, respond, respond_all, perform, perform_all,
  simulates,
}
use atp_python.Storage.Memory
use atp_python.Storage.Memory.{absent}
use atp_python.Storage.Memory.Interface.{memory}
use atp_python.Storage.Memory.Refinement.{collect, memory-respond_all}
use atp_python.Storage.Sqlite.{Codec, Row, SqliteStore, row_of, gc_cycle, current_rows, as_aware}
use atp_python.Storage.Sqlite
use atp_python.Storage.Sqlite.Reading.{IsReadable, kept-row_of, get_row_of, get_absent}
use atp_python.Storage.Sqlite.Cleanup.{kept, lookup-gc_cycle, current_rows-NodupKeys}
use atp_python.Storage.Sqlite.Expiry.{table-save}

abbrev pub clean : DateTime → SqliteStore → SqliteStore
clean now s = (gc_cycle now s).1

abbrev pub no_rows : SqliteStore
no_rows = record { table = []; gc_task = absent }

module _ (C : Codec) where
  abbrev pub sqlite : ProofStore
  sqlite = record {
    State = SqliteStore;
    save = Sqlite.save C;
    get = Sqlite.get C;
    delete = Sqlite.delete;
    list = Sqlite.list;
  }

  abbrev pub Fits : Call → Type 0
  Fits (Call.save p) = (IsReadable C) p
  Fits (Call.get k now) = Unit
  Fits (Call.delete k) = Unit
  Fits (Call.cleanup now) = IsUtc now

  abbrev row_for : Option StoredProof → Option Row
  row_for none = none
  row_for (some p) = some (row_of C p)

  same_proof : (p q : StoredProof) → (IsReadable C) p → some p ≡ some q → (IsReadable C) q
  same_proof p q h e = let same : p ≡ q = cc in subst (IsReadable C) same h

  branch-IsReadable :
      (b : Bool) (x y : Option StoredProof) (q : StoredProof)
      → (x ≡ some q → (IsReadable C) q)
      → (y ≡ some q → (IsReadable C) q)
      → (if b then x else y) ≡ some q
      → (IsReadable C) q
  branch-IsReadable true x y q yes_case no_case h = yes_case h
  branch-IsReadable false x y q yes_case no_case h = no_case h

  -- The table has for each task the row of the proof, and no other.
  record Shows (s : SqliteStore) (f : Contents) : Type 0 where
    unique : NodupKeys s.table
    rows : (k : String) → lookup k s.table ≡ row_for (f k)
    readable : (k : String) (p : StoredProof) → f k ≡ some p → (IsReadable C) p

  Shows-insert :
      (p : StoredProof) (s t : SqliteStore) (f : Contents)
      → t.table ≡ insert (key p) (row_of C p) s.table
      → (IsReadable C) p
      → Shows s f
      → Shows t (update (key p) (some p) f)
  Shows-insert p s t f same fits shows = record {
    unique = rw same (insert-NodupKeys (key p) (row_of C p) s.table shows.unique);
    rows = λ k. rw (same, lookup-insert) (ground (arith, shows.rows k));
    readable = λ k q.
        branch-IsReadable (key p == k) (some p) (f k) q (same_proof p q fits) (shows.readable k q);
  }

  Shows-erase :
      (k : String) (s t : SqliteStore) (f : Contents)
      → t.table ≡ erase k s.table
      → Shows s f
      → Shows t (update k none f)
  Shows-erase k s t f same shows = record {
    unique = rw same (erase-NodupKeys k s.table shows.unique);
    rows = λ j. rw (same, lookup-erase) (ground (arith, shows.rows j));
    readable = λ j q. branch-IsReadable (k == j) none (f j) q (λ h. cc) (shows.readable j q);
  }

  row_if :
      (b : Bool) (p : StoredProof)
      → row_for (if b then none else some p) ≡ (if b then none else some (row_of C p))
  row_if true p = refl
  row_if false p = refl

  Shows-clean :
      (now : DateTime) (s : SqliteStore) (f : Contents)
      → IsUtc now
      → Shows s f
      → Shows (clean now s) (respond (Call.cleanup now) f).1
  unfolding respond gc_cycle
  Shows-clean now s f at_now shows = record {
    unique = current_rows-NodupKeys now s.table shows.unique;
    rows = λ k.
        lookup-gc_cycle now k s shows.unique
        ∙ ap (kept now) (shows.rows k)
        ∙ kept_row (f k) (shows.readable k);
    readable =
        λ k q. branch-IsReadable (is_expired now (f k)) none (f k) q (λ h. cc) (shows.readable k q);
  }
    where
      kept_row :
          (o : Option StoredProof)
          → ((p : StoredProof) → o ≡ some p → (IsReadable C) p)
          → kept now (row_for o) ≡ row_for (if is_expired now o then none else o)
      kept_row none h = refl
      kept_row (some p) h =
          kept-row_of C now p (h p refl).2 at_now ∙ sym (row_if (is_expired now (some p)) p)

  Shows-dropped :
      (k : String) (b : Bool) (s t : SqliteStore) (f : Contents)
      → t.table ≡ (if b then erase k s.table else s.table)
      → Shows s f
      → Shows t (if b then update k none f else f)
  Shows-dropped k true s t f same shows = Shows-erase k s t f same shows
  Shows-dropped k false s t f same shows = record {
    unique = rw same shows.unique;
    rows = λ j. rw same (shows.rows j);
    readable = shows.readable;
  }

  Shows-get :
      (k : String) (now : DateTime) (s : SqliteStore) (f : Contents)
      → Shows s f
      → ((Sqlite.get C k now s).0 ≡ (respond (Call.get k now) f).0)
        × Shows (Sqlite.get C k now s).1 (respond (Call.get k now) f).1
  unfolding respond
  Shows-get k now s f shows = by_proof (f k) refl
    where
      by_proof :
          (o : Option StoredProof)
          → f k ≡ o
          → ((Sqlite.get C k now s).0 ≡ retained now (f k))
            × Shows (Sqlite.get C k now s).1 (if is_expired now (f k) then update k none f else f)
      by_proof none e = rw (e, get_absent C k now s (shows.rows k ∙ ap row_for e)) (refl, shows)
      by_proof (some p) e =
          let (outcome, table) =
            get_row_of C k now p s (shows.rows k ∙ ap row_for e) (shows.readable k p e) in
          rw e (
            outcome,
            Shows-dropped k (is_expired now (some p)) s (Sqlite.get C k now s).1 f table shows,
          )

  Shows-perform :
      (c : Call) (s : SqliteStore) (f : Contents)
      → Fits c
      → Shows s f
      → ((perform sqlite clean c s).0 ≡ (respond c f).0)
        × Shows (perform sqlite clean c s).1 (respond c f).1
  unfolding perform respond Sqlite.save Sqlite.delete
  Shows-perform (Call.save p) s f fits shows =
      (refl, Shows-insert p s (Sqlite.save C p s).1 f (table-save C p s) fits shows)
  Shows-perform (Call.get k now) s f fits shows = Shows-get k now s f shows
  Shows-perform (Call.delete k) s f fits shows =
      (refl, Shows-erase k s (Sqlite.delete k s).1 f refl shows)
  Shows-perform (Call.cleanup now) s f fits shows = (refl, Shows-clean now s f fits shows)

  no_rows-Shows : Shows no_rows nothing
  no_rows-Shows = record { unique = tt; rows = λ k. lookup-nil k; readable = λ k p h. cc }

  -- Where the texts of every proof that is saved read back as they were, and every expiry and every
  -- reading of a cleanup cycle is a time of UTC within the calendar: from an empty database, every
  -- sequence of saves, reads, deletions and cleanup cycles answers as the contract does, and
  -- therefore as the in-memory store does.
  pub sqlite-memory :
      (calls : List Call)
      → Every Fits calls
      → ((perform_all sqlite clean calls no_rows).0 ≡ (respond_all calls nothing).0)
        × ((perform_all sqlite clean calls no_rows).0
            ≡ (perform_all memory collect calls Memory.empty).0)
  unfolding lookup
  sqlite-memory calls fits =
      let (same, _) =
        simulates sqlite clean Fits Shows Shows-perform calls no_rows nothing fits no_rows-Shows in
      (same, same ∙ sym (memory-respond_all calls Memory.empty).0)
