-- ===== src/Import.antt =====
-- frontend/src/components/ImportDialog.tsx: loading a file into the dialog's text, and importing
-- the text. Numbers, JSON and its printing are the browser's.
pub mod Comments
pub mod View
use Prim.Native.String.{String}
use gourl.Common.{
  ℕ, Bool, true, false, not, if◌then◌else◌, Option, none, some, List, [], ◌∷◌, ◌++◌, map, keep,
  Text, codes, split, join, starts_with, same, or_else, is_empty,
}
use gourl.Csv.{parse_csv}
use gourl.Api.Types.{
  BatchCreateResponse, Outcome, resolved, rejected, thrown, Message, t, t_numbers, plain, Kind,
  success, failure, api_message,
}

pub data Conflict : Type 0 where
  error skip update : Conflict

pub record Dialog : Type 0 where
  pub text : Text
  pub conflict : Conflict
  pub busy : Bool

pub data Effect : Type 0 where
  toast : Message → Kind → Effect
  on_imported on_close : Effect

abbrev pub newline : ℕ
newline = 10

abbrev pub is_comment : Text → Bool
is_comment line = starts_with line (b'#' ∷ [])

-- `raw.split('\n').filter((l) => !l.startsWith('#')).join('\n')`
unfoldable pub strip_comments : Text → Text
strip_comments raw = join (newline ∷ []) (keep (λ l. not (is_comment l)) (split newline raw))

-- `s.endsWith(suffix)`
unfoldable pub ends_with : Text → Text → Bool
ends_with [] suffix = same [] suffix
ends_with (c ∷ s) suffix = if same (c ∷ s) suffix then true else ends_with s suffix

-- `r.key`, undefined where the table has no such column
unfoldable pub cell : Text → List (Text × Text) → Option Text
cell key [] = none
cell key ((k, v) ∷ obj) = if same k key then some v else cell key obj

-- `if (r.key)`
unfoldable pub full_cell : Text → List (Text × Text) → Option Text
full_cell key obj = elim (cell key obj) [
  | none ↦ none
  | some v ↦ if is_empty v then none else some v
]

module _ {N : Type 0} (to_number : Text → N) (is_falsy : N → Bool) where
  pub data ImportExpiry : Type 0 where
    number : N → ImportExpiry
    as_text : Text → ImportExpiry

  -- The item of a row, as it is printed; a field that is `none` is not printed.
  pub record LoadedItem : Type 0 where
    pub url : Option Text
    pub code : Option Text
    pub title : Option Text
    pub description : Option Text
    pub expires_at : Option ImportExpiry
    pub created_at : Option N

  abbrev pub read_expiry : Text → ImportExpiry
  read_expiry s = if is_falsy (to_number s) then as_text s else number (to_number s)

  unfoldable pub item_of : List (Text × Text) → LoadedItem
  item_of r = record {
    url = cell (codes "url") r;
    code = full_cell (codes "code") r;
    title = full_cell (codes "title") r;
    description = full_cell (codes "description") r;
    expires_at = elim (full_cell (codes "expires_at") r) [
      | none ↦ none
      | some s ↦ some (read_expiry s)
    ];
    created_at = elim (full_cell (codes "created_at") r) [
      | none ↦ none
      | some s ↦ some (to_number s)
    ];
  }

-- `loadFile` of a file, by its name and the text it is read as, or a failed read. `lower` is
-- `toLowerCase`, and `print` is `JSON.stringify(items, null, 2)` of the rows' items.
module _ (lower : Text → Text) (print : List (List (Text × Text)) → Text) where
  -- `name.toLowerCase().endsWith('.csv')`
  unfoldable pub is_csv : Text → Bool
  is_csv name = ends_with (lower name) (codes ".csv")

  unfoldable pub load_file : Text → Option Text → Dialog → Dialog × List Effect
  load_file name none d = (d, toast (t "form.fileReadFailed") failure ∷ [])
  load_file name (some raw) d =
      if is_csv name
      then (record d { text = print (parse_csv lower (strip_comments raw)) }, [])
      else (record d { text = raw }, [])

-- What `submit` distinguishes in the result of `JSON.parse`: an array, an object with its `items`
-- where these are an array, or another value.
pub data Parsed (J : Type 0) : Type 0 where
  array : List J → Parsed J
  object : Option (List J) → Parsed J
  other_value : Parsed J

module _ {J : Type 0} (parse_json : Text → Option (Parsed J)) where
  -- `none` is an exception, of the parser or of `submit` itself.
  unfoldable pub items_of : Text → Option (List J)
  items_of text = elim (parse_json text) [
    | none ↦ none
    | some (array items) ↦ some items
    | some (object items) ↦ items
    | some other_value ↦ none
  ]

  -- `submit`, up to the request; the text is parsed before it.
  unfoldable pub submit : Dialog → Dialog × List Effect × Option (List J × Conflict)
  submit d = if d.busy then (d, [], none) else elim (items_of d.text) [
    | none ↦ (d, toast (t "form.importFailed") failure ∷ [], none)
    | some items ↦ (record d { busy = true }, [], some (items, d.conflict))
  ]

-- `submit`, when the request has ended.
unfoldable pub settled : Outcome BatchCreateResponse → Dialog → Dialog × List Effect
settled (resolved res) d = (
  record d { text = []; busy = false },
  toast
        (t_numbers "form.importResults"
          (res.succeeded ∷ res.skipped ∷ res.updated ∷ res.failed ∷ []))
        success
      ∷ on_imported
      ∷ on_close
      ∷ [],
)
settled other d =
    (record d { busy = false }, toast (api_message "form.importFailed" other) failure ∷ [])
