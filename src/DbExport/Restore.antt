-- ===== src/DbExport/Restore.antt =====
-- What the files of scripts/db-export.mts hold of the database.
use gourl.Common.{
  ℕ, Bool, true, false, length, ltb, if◌then◌else◌, Option, some, List, [], ◌∷◌, Text, codes,
  is_empty, same, same_iff, same_refl, has_unit, not, none, ◌&&◌, includes, All, map, ◌≡◌, inl, inr,
  refl, ◌∙◌, Bool-cases,
}
use gourl.Platform.{ℤ}
use gourl.DbExport.{
  LinkRow, TokenRow, DailyClickRow, BackupRow, Database, dump_link, dump_token, dump_backup, Table,
  links_table, tokens_table, dailies_table, backups_table, Action, write_file, main, report, dump,
}
use gourl.DbExport.Rows.{
  restore_link, restore_token, restore_backup, IsFlag, same_links, same_tokens, same_backups,
}

-- What the database holds, all queries answered.
pub record Contents : Type 0 where
  pub links : List (LinkRow ℤ)
  pub tokens : List (TokenRow ℤ)
  pub dailies : List DailyClickRow
  pub backups : List (BackupRow ℕ)

-- What stands under a path after the actions: a write replaces the file of its path.
unfoldable pub disk : List Action → (Text → Option Table) → Text → Option Table
disk [] before path = before path
disk (write_file name rows ∷ rest) before path =
    disk rest (λ p. if same name p then some rows else before p) path
disk (a ∷ rest) before path = disk rest before path

-- The tables that the files hold, each read from the file of its name.
abbrev pub restore_links : Option Table → Option (List (LinkRow ℤ))
restore_links (some (links_table rows)) = some (map restore_link rows)
restore_links other = none

abbrev pub restore_tokens : Option Table → Option (List (TokenRow ℤ))
restore_tokens (some (tokens_table rows)) = some (map restore_token rows)
restore_tokens other = none

abbrev pub restore_dailies : Option Table → Option (List DailyClickRow)
restore_dailies (some (dailies_table rows)) = some rows
restore_dailies other = none

abbrev pub restore_backups : Option Table → Option (List (BackupRow ℕ))
restore_backups (some (backups_table rows)) = some (map restore_backup rows)
restore_backups other = none

-- `file` gives the path of a name in the directory of the export.
abbrev pub restored : (Text → Text) → (Text → Option Table) → Database
restored file stored = record {
  links = restore_links (stored (file (codes "links.json")));
  tokens = restore_tokens (stored (file (codes "tokens.json")));
  dailies = restore_dailies (stored (file (codes "daily-clicks.json")));
  backups = restore_backups (stored (file (codes "backups.json")));
}

-- A name that stays one part of a path.
abbrev pub is_file_name : Text → Bool
is_file_name n =
    not (is_empty n)
    && not (has_unit b'/' n)
    && not (has_unit 92 n)
    && not (same n (codes "."))
    && not (same n (codes ".."))

-- What is relied on of `path.join`: two file names of one directory are two paths.
abbrev pub KeepsApart : (Text → Text) → Type 0
KeepsApart file =
    (a b : Text) → is_file_name a ≡ true → is_file_name b ≡ true → file a ≡ file b → a ≡ b

abbrev pub answered : Contents → Database
answered c = record {
  links = some c.links;
  tokens = some c.tokens;
  dailies = some c.dailies;
  backups = some c.backups;
}

module _ (file : Text → Text) (apart : KeepsApart file) where
  other_path :
      (a b : Text)
      → is_file_name a ≡ true
      → is_file_name b ≡ true
      → same a b ≡ false
      → same (file a) (file b) ≡ false
  other_path a b h k ne = elim (Bool-cases (same (file a) (file b))) [
    | inl e ↦ absurd (cc ((same_iff a b).1 (apart a b h k ((same_iff (file a) (file b)).0 e)), ne))
    | inr e ↦ e
  ]

module _ (exists : Text → Bool) (join_path : Text → Text → Text)
    (open_db : Text → Option Database) where
  -- The last lines of the script write nothing.
  disk-report :
      (out_dir : Text) (l t d b : ℕ) (before : Text → Option Table) (path : Text)
      → disk (report exists join_path open_db out_dir l t d b) before path ≡ before path
  unfolding disk
  disk-report out_dir l t d b before path = elim (Bool-cases (ltb 0 t)) [
    | inl e ↦ rw (e) refl
    | inr e ↦ rw (e) refl
  ]

  module _ (out_dir : Text) (apart : KeepsApart (join_path out_dir)) (c : Contents)
      (before : Text → Option Table) where
    abbrev file : Text → Text
    file = join_path out_dir

    abbrev stored : Text → Option Table
    stored = disk (dump exists join_path open_db out_dir (answered c)) before

    no_report :
        (path : Text) (f : Text → Option Table)
        → disk
            (report exists join_path open_db out_dir
              (length c.links)
              (length c.tokens)
              (length c.dailies)
              (length c.backups))
            f
            path
          ≡ f path
    no_report path f =
        disk-report out_dir (length c.links) (length c.tokens) (length c.dailies) (length c.backups)
          f path

    at_links : stored (file (codes "links.json")) ≡ some (links_table (map dump_link c.links))
    unfolding disk same
    at_links =
        let name = codes "links.json" in
        no_report (file name) _
        ∙ rw
            (
              other_path file apart (codes "backups.json") name refl refl refl,
              other_path file apart (codes "daily-clicks.json") name refl refl refl,
              other_path file apart (codes "tokens.json") name refl refl refl,
              same_refl (file name),
            )
            refl

    at_tokens : stored (file (codes "tokens.json")) ≡ some (tokens_table (map dump_token c.tokens))
    unfolding disk same
    at_tokens =
        let name = codes "tokens.json" in
        no_report (file name) _
        ∙ rw
            (
              other_path file apart (codes "backups.json") name refl refl refl,
              other_path file apart (codes "daily-clicks.json") name refl refl refl,
              same_refl (file name),
            )
            refl

    at_dailies : stored (file (codes "daily-clicks.json")) ≡ some (dailies_table c.dailies)
    unfolding disk same
    at_dailies =
        let name = codes "daily-clicks.json" in
        no_report (file name) _
        ∙ rw
            (
              other_path file apart (codes "backups.json") name refl refl refl,
              same_refl (file name),
            )
            refl

    at_backups :
        stored (file (codes "backups.json")) ≡ some (backups_table (map dump_backup c.backups))
    unfolding disk
    at_backups =
        let name = codes "backups.json" in no_report (file name) _ ∙ rw (same_refl (file name)) refl

    restored-dump :
        All (λ r. IsFlag r.deleted) c.links
        → All (λ r. IsFlag r.deleted) c.tokens
        → restored file stored ≡ answered c
    restored-dump ls ts =
        rw
          (
            at_links,
            at_tokens,
            at_dailies,
            at_backups,
            same_links c.links ls,
            same_tokens c.tokens ts,
            same_backups c.backups,
          )
          refl

  -- Nothing is lost: where the script is called with the path of a database that exists, opens and
  -- answers the queries, and the deleted flags are 0 or 1, the tables are read again from the files
  -- of their names in the directory, whatever stood there before: every row with every column, in
  -- order, deleted rows and tokens included. `path.join` keeps two file names apart.
  pub restored-main :
      (db_path out_dir : Text) (c : Contents) (before : Text → Option Table)
      → is_empty db_path ≡ false
      → includes (db_path ∷ out_dir ∷ []) (codes "--help") ≡ false
      → includes (db_path ∷ out_dir ∷ []) (codes "-h") ≡ false
      → exists db_path ≡ true
      → open_db db_path ≡ some (answered c)
      → KeepsApart (join_path out_dir)
      → All (λ r. IsFlag r.deleted) c.links
      → All (λ r. IsFlag r.deleted) c.tokens
      → restored
          (join_path out_dir)
          (disk (main exists join_path open_db (db_path ∷ out_dir ∷ [])) before)
        ≡ answered c
  unfolding main disk
  restored-main db_path out_dir c before full no_help no_h there opened apart ls ts =
      rw (main, no_help, no_h, full, there, opened) (restored-dump out_dir apart c before ls ts)
