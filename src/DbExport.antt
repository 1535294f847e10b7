-- ===== src/DbExport.antt =====
-- scripts/db-export.mts: the dump of the database into four files of JSON. SQLite, the file system
-- and `JSON.stringify` are parameters; a run is the list of what it does, with its exit code.
pub mod Restore
pub mod Rows
pub mod Start
use Prim.Native.String.{String}
use gourl.Common.{
  ℕ, Bool, true, false, ◌||◌, not, if◌then◌else◌, Option, none, some, List, [], ◌∷◌, ◌++◌, Text,
  codes, map, includes, is_empty, length, ltb,
}
use gourl.Platform.{ℤ, pos, negsuc}
use gourl.Platform.Decimal.{decimal}

-- A row of `links` with the type of its last column: the number of the database or a Boolean.
pub record LinkRow (D : Type 0) : Type 0 where
  pub id : ℕ
  pub code : Text
  pub url : Text
  pub title : Text
  pub description : Text
  pub expires_at : ℤ
  pub click_count : ℕ
  pub created_at : ℤ
  pub updated_at : ℤ
  pub deleted : D

pub record TokenRow (D : Type 0) : Type 0 where
  pub id : ℕ
  pub token : Text
  pub token_prefix : Text
  pub note : Text
  pub created_at : ℤ
  pub deleted : D

pub record DailyClickRow : Type 0 where
  pub link_id : Option ℕ
  pub code : Text
  pub date : Text
  pub count : ℕ

-- A row of `backups` with the type of its number: the database's or a text.
pub record BackupRow (B : Type 0) : Type 0 where
  pub b_id : B
  pub link_id : ℕ
  pub code : Text
  pub url : Text
  pub title : Text
  pub description : Text
  pub expires_at : ℤ
  pub click_count : ℕ
  pub created_at : ℤ
  pub updated_at : ℤ
  pub backed_at : ℤ

-- What the four queries give, each in the order of its query; none where a query throws.
pub record Database : Type 0 where
  pub links : Option (List (LinkRow ℤ))
  pub tokens : Option (List (TokenRow ℤ))
  pub dailies : Option (List DailyClickRow)
  pub backups : Option (List (BackupRow ℕ))

abbrev pub is_set : ℤ → Bool
is_set (pos n) = ltb 0 n
is_set (negsuc n) = true

abbrev pub dump_link : LinkRow ℤ → LinkRow Bool
dump_link r = record {
  id = r.id;
  code = r.code;
  url = r.url;
  title = r.title;
  description = r.description;
  expires_at = r.expires_at;
  click_count = r.click_count;
  created_at = r.created_at;
  updated_at = r.updated_at;
  deleted = is_set r.deleted;
}

abbrev pub dump_token : TokenRow ℤ → TokenRow Bool
dump_token r = record {
  id = r.id;
  token = r.token;
  token_prefix = r.token_prefix;
  note = r.note;
  created_at = r.created_at;
  deleted = is_set r.deleted;
}

-- `b-${r.b_id}`
abbrev pub backup_id : ℕ → Text
backup_id n = b'b' ∷ b'-' ∷ decimal n

abbrev pub dump_backup : BackupRow ℕ → BackupRow Text
dump_backup r = record {
  b_id = backup_id r.b_id;
  link_id = r.link_id;
  code = r.code;
  url = r.url;
  title = r.title;
  description = r.description;
  expires_at = r.expires_at;
  click_count = r.click_count;
  created_at = r.created_at;
  updated_at = r.updated_at;
  backed_at = r.backed_at;
}

-- The rows of one file.
pub data Table : Type 0 where
  links_table : List (LinkRow Bool) → Table
  tokens_table : List (TokenRow Bool) → Table
  dailies_table : List DailyClickRow → Table
  backups_table : List (BackupRow Text) → Table

-- The lines on the console.
pub data Line : Type 0 where
  help missing_path note_private : Line
  not_found : Text → Line
  wrote : ℕ → ℕ → ℕ → ℕ → Text → Line

pub data Action : Type 0 where
  print warn complain : Line → Action
  make_dir open_read_only : Text → Action
  write_file : Text → Table → Action
  exit_with : ℕ → Action

-- `exists` is the file system's answer, `join_path` is `path.join`, and `open_db` gives what the
-- database holds, or none where it cannot be opened.
module _ (exists : Text → Bool) (join_path : Text → Text → Text)
    (open_db : Text → Option Database) where
  -- An uncaught exception ends the process with code 1, the end of the script with code 0.
  abbrev pub then_with {ℓ} : {A : Type ℓ} → Option A → (A → List Action) → List Action
  then_with none rest = exit_with 1 ∷ []
  then_with (some a) rest = rest a

  abbrev pub report : Text → ℕ → ℕ → ℕ → ℕ → List Action
  report out_dir links tokens dailies backups =
      print (wrote links tokens dailies backups out_dir)
        ∷ (if ltb 0 tokens then warn note_private ∷ [] else [])
      ++ exit_with 0 ∷ []

  abbrev pub dump : Text → Database → List Action
  dump out_dir db = then_with db.links (λ ls.
      write_file (join_path out_dir (codes "links.json")) (links_table (map dump_link ls))
      ∷ then_with db.tokens (λ ts.
        write_file (join_path out_dir (codes "tokens.json")) (tokens_table (map dump_token ts))
        ∷ then_with db.dailies (λ ds.
          write_file (join_path out_dir (codes "daily-clicks.json")) (dailies_table ds)
          ∷ then_with db.backups (λ bs.
            write_file (join_path out_dir (codes "backups.json"))
              (backups_table (map dump_backup bs))
            ∷ report out_dir (length ls) (length ts) (length ds) (length bs)))))

  abbrev pub export_from : Text → Text → List Action
  export_from db_path out_dir =
      make_dir out_dir ∷ open_read_only db_path ∷ then_with (open_db db_path) (dump out_dir)

  abbrev pub checked_start : Text → Text → List Action
  checked_start db_path out_dir =
      if is_empty db_path
      then complain missing_path ∷ exit_with 1 ∷ []
      else if not (exists db_path)
      then complain (not_found db_path) ∷ exit_with 1 ∷ []
      else export_from db_path out_dir

  abbrev pub with_paths : List Text → List Action
  with_paths [] = checked_start [] (codes ".")
  with_paths (db_path ∷ []) = checked_start db_path (codes ".")
  with_paths (db_path ∷ out_dir ∷ more) = checked_start db_path out_dir

  -- The whole script, on the arguments after the name of the script.
  unfoldable pub main : List Text → List Action
  main args =
      if includes args (codes "--help") || includes args (codes "-h")
      then print help ∷ exit_with 0 ∷ []
      else with_paths args
