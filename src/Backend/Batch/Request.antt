-- ===== src/Backend/Batch/Request.antt =====
-- What the server reads from the request of frontend/src/components/BatchCreateDialog.tsx.
use mathlib.Core.Path.{subst}
use gourl.Common.{
  ℕ, suc, false, Option, none, some, List, [], ◌∷◌, ◌++◌, map, Text, is_empty, length,
  length-append, or_else, All, All-append, ◌≡◌, refl, sym, ap, ◌∙◌, arith, ltb, ◌||◌, Bool-cases,
  inl, inr, split, trim, ◌≤◌,
}
use gourl.Platform.{Url, ℤ}
use gourl.Platform.Calendar.{Date}
use gourl.Batch.{
  Item, ok, err, skip, invalid_syntax, invalid_url, invalid_date, parse_batch_line, LineResult,
}
use gourl.Batch.Urls.{HasUrl, OkHasUrl, parse_batch_line-OkHasUrl}
use gourl.Api.Types.{ImportItem, unix}
use gourl.BatchDialog.{
  Validation, Dialog, Request, validate_line, validate_from, validate, on_create, no_validation,
  newline, flag_line,
}
use gourl.BatchDialog.Laws.{on_create_sends}
use gourl.Backend.Items.{CreateRequest, lenient_item, lenient_items}

-- An item of the dialog as the request carries it.
abbrev pub import_item : Item → ImportItem
import_item item = record {
  url = item.url;
  code = item.code;
  title = none;
  description = none;
  expires_at = elim item.expires_at [ none ↦ none | some n ↦ some (unix n) ];
  created_at = none;
  deleted = none;
}

-- An item of the dialog as the handler works with it.
abbrev pub received : Item → CreateRequest
received item = record {
  url = item.url;
  code = or_else item.code [];
  title = [];
  description = [];
  expires_at = item.expires_at;
  created_at = none;
  deleted = false;
}

module _ (as_expiry : Text → Option ℤ) where
  lenient_fields :
      (url : Text) (code : Option Text) (expires_at : Option ℤ)
      → is_empty url ≡ false
      → let item : Item = record { url = url; code = code; expires_at = expires_at } in
        lenient_item as_expiry (import_item item) ≡ some (received item)
  unfolding lenient_item
  lenient_fields url code none h = rw h refl
  lenient_fields url code (some n) h = rw h refl

  lenient_item-received :
      (item : Item) → HasUrl item → lenient_item as_expiry (import_item item) ≡ some (received item)
  lenient_item-received item h = lenient_fields item.url item.code item.expires_at h

  pub lenient_items-received :
      (items : List Item)
      → All HasUrl items
      → lenient_items as_expiry (map import_item items) ≡ some (map received items)
  unfolding lenient_items
  lenient_items-received [] h = refl
  lenient_items-received (i ∷ items) (k, h) =
      cc (lenient_item-received i k, lenient_items-received items h)

module _ (parse_url : Text → Option Url) (get_time : Date → ℤ) where
  -- What the loop of `validate` keeps.
  abbrev IsAligned : Validation → Type 0
  IsAligned v = All HasUrl v.items × (length v.items ≡ length v.valid_lines)

  add_result :
      (i : ℕ) (raw : Text) (v : Validation) (r : LineResult)
      → IsAligned v
      → OkHasUrl r
      → IsAligned (elim r [
        | ok item ↦ record v {
          items = v.items ++ item ∷ [];
          valid_lines = v.valid_lines ++ trim raw ∷ [];
        }
        | err reason ↦ flag_line i reason v
      ])
  add_result i raw v (ok item) (h, same_length) k = (
    All-append HasUrl v.items (item ∷ []) h (k, tt),
    omega (arith, same_length, length-append {0} v.items, length-append {0} v.valid_lines),
  )
  add_result i raw v (err skip) h k = h
  add_result i raw v (err invalid_syntax) h k = h
  add_result i raw v (err invalid_url) h k = h
  add_result i raw v (err invalid_date) h k = h

  add_line :
      (i : ℕ) (raw : Text) (v : Validation)
      → IsAligned v
      → IsAligned (validate_line parse_url get_time i raw v)
  unfolding validate_line
  add_line i raw v h =
      add_result i raw v (parse_batch_line parse_url get_time raw) h
        (parse_batch_line-OkHasUrl parse_url get_time raw)

  add_lines :
      (i : ℕ) (lines : List Text) (v : Validation)
      → IsAligned v
      → IsAligned (validate_from parse_url get_time i lines v)
  unfolding validate_from
  add_lines i [] v h = h
  add_lines i (raw ∷ lines) v h = add_lines (suc i) lines _ (add_line i raw v h)

  -- A request that the create button sends has items, each with a URL, and as many lines.
  pub on_create-IsAligned :
      (d : Dialog) (q : Request)
      → (on_create parse_url get_time d).1 ≡ some q
      → All HasUrl q.items × (length q.items ≡ length q.lines) × (1 ≤ length q.items)
  unfolding validate
  on_create-IsAligned d q h =
      let v = validate parse_url get_time d.text in
      let (full, same_length) : IsAligned v =
        add_lines 0 (split newline d.text) no_validation (tt, refl) in
      let sends = on_create_sends parse_url get_time d in
      elim (Bool-cases (ltb 0 (length v.error_lines) || ltb (length v.items) 1 || d.busy)) [
        | inl e ↦ absurd (cc (sym h, rw e at sends))
        | inr e ↦
            let q_is : record { lines = v.valid_lines; items = v.items } ≡ q =
              ap (λ o. or_else o q) (sym (rw e at sends) ∙ h) in
            let least : 1 ≤ length v.items = ground (arith, e) in
            subst
              (λ r. All HasUrl r.items × (length r.items ≡ length r.lines) × (1 ≤ length r.items))
              q_is (full, same_length, least)
      ]
