-- ===== src/Mcp/Titles/Hints.antt =====
-- The titles that are filled in leave every other field of a tool, and every hint, as the runtime
-- declared it.
use localcloud_cli.Prelude.{◌≡◌, refl, sym, ap, ◌∙◌, true, false, Option, none, some, if_both}
use localcloud_cli.Text.{Text, codes, ◌==◌, is_empty}
use localcloud_cli.Value.{Value, null, str, list, dict, Entries, end, items, get, or_null, truthy}
use localcloud_cli.Value.Equal.{set_entry}
use localcloud_cli.Value.Assign.{get-set_other, get-set_same}
use localcloud_cli.Mcp.Titles.{
  title_key, annotations_key, is_titled, fill_title, chosen_title, fill_titles, annotated,
  named_tool, titled_tool,
}

-- What a tool declares about itself.
abbrev pub entries_of : Option Value → Entries
entries_of (some (dict es)) = es
entries_of o = end

abbrev pub annotations_of : Entries → Entries
annotations_of tool = entries_of (get annotations_key (items tool))

-- Only titles that were missing differ.
pub record IsFilled (tool filled : Entries) : Type 0 where
  pub fields :
      (k : Text)
      → (title_key == k) ≡ false
      → (annotations_key == k) ≡ false
      → get k (items filled) ≡ get k (items tool)
  pub hints :
      (k : Text)
      → (title_key == k) ≡ false
      → get k (items (annotations_of filled)) ≡ get k (items (annotations_of tool))
  pub title : is_titled tool ≡ true → get title_key (items filled) ≡ get title_key (items tool)
  pub hint :
      is_titled (annotations_of tool) ≡ true
      → get title_key (items (annotations_of filled)) ≡ get title_key (items (annotations_of tool))

fill_title-other :
    (v : Value) (es : Entries) (k : Text)
    → (title_key == k) ≡ false
    → get k (items (fill_title v es)) ≡ get k (items es)
unfolding fill_title
fill_title-other v es k h =
    if_both (λ o. get k (items o) ≡ get k (items es)) (is_titled es) _ _ refl
      (get-set_other title_key k v es h)

fill_title-kept : (v : Value) (es : Entries) → is_titled es ≡ true → fill_title v es ≡ es
unfolding fill_title
fill_title-kept v es h = rw h refl

annotations_apart : (annotations_key == title_key) ≡ false
unfolding codes ◌==◌
annotations_apart = refl

title_apart : (title_key == annotations_key) ≡ false
unfolding codes ◌==◌
title_apart = refl

fill_titles-annotations :
    (name : Text) (tool annotations : Entries)
    → annotations_of (fill_titles name tool annotations)
      ≡ fill_title (chosen_title name tool annotations) annotations
unfolding fill_titles
fill_titles-annotations name tool annotations =
    let title = chosen_title name tool annotations in
    ap entries_of (
      fill_title-other title (set_entry annotations_key (dict (fill_title title annotations)) tool)
        annotations_key title_apart
      ∙ get-set_same annotations_key (dict (fill_title title annotations)) tool)

is_titled-set :
    (v : Value) (es : Entries) → is_titled (set_entry annotations_key v es) ≡ is_titled es
unfolding is_titled
is_titled-set v es =
    ap (λ o. truthy (or_null o)) (get-set_other annotations_key title_key v es annotations_apart)

fill_titles-IsFilled :
    (name : Text) (tool annotations : Entries)
    → annotations_of tool ≡ annotations
    → IsFilled tool (fill_titles name tool annotations)
unfolding fill_titles
fill_titles-IsFilled name tool annotations same =
    let title = chosen_title name tool annotations in
    let new = dict (fill_title title annotations) in
    let declared = fill_titles-annotations name tool annotations in
    record {
      fields = λ k t a.
          fill_title-other title (set_entry annotations_key new tool) k t
          ∙ get-set_other annotations_key k new tool a;
      hints = λ k t.
          ap (λ es. get k (items es)) declared
          ∙ fill_title-other title annotations k t
          ∙ ap (λ es. get k (items es)) (sym same);
      title = λ h.
          ap (λ es. get title_key (items es))
            (fill_title-kept title (set_entry annotations_key new tool)
              (is_titled-set new tool ∙ h))
          ∙ get-set_other annotations_key title_key new tool annotations_apart;
      hint = λ h.
          ap (λ es. get title_key (items es))
            (declared ∙ fill_title-kept title annotations (ap is_titled (sym same) ∙ h) ∙ sym same);
    }

same-IsFilled : (tool : Entries) → IsFilled tool tool
same-IsFilled tool = record {
  fields = λ k t a. refl;
  hints = λ k t. refl;
  title = λ h. refl;
  hint = λ h. refl;
}

annotated-IsFilled :
    (name : Text) (tool : Entries) (o : Option Value)
    → get annotations_key (items tool) ≡ o
    → IsFilled tool (annotated name tool o)
annotated-IsFilled name tool none e = fill_titles-IsFilled name tool end (ap entries_of e)
annotated-IsFilled name tool (some null) e = fill_titles-IsFilled name tool end (ap entries_of e)
annotated-IsFilled name tool (some (dict es)) e =
    fill_titles-IsFilled name tool es (ap entries_of e)
annotated-IsFilled name tool (some (Value.bool b)) e = same-IsFilled tool
annotated-IsFilled name tool (some (Value.int n)) e = same-IsFilled tool
annotated-IsFilled name tool (some (Value.float t n)) e = same-IsFilled tool
annotated-IsFilled name tool (some (str t)) e = same-IsFilled tool
annotated-IsFilled name tool (some (Value.other t)) e = same-IsFilled tool
annotated-IsFilled name tool (some (list vs)) e = same-IsFilled tool

named_tool-IsFilled : (tool : Entries) (o : Option Value) → IsFilled tool (named_tool tool o)
named_tool-IsFilled tool (some (str name)) =
    if_both (IsFilled tool) (is_empty name) _ _ (same-IsFilled tool)
      (annotated-IsFilled name tool (get annotations_key (items tool)) refl)
named_tool-IsFilled tool none = same-IsFilled tool
named_tool-IsFilled tool (some null) = same-IsFilled tool
named_tool-IsFilled tool (some (dict es)) = same-IsFilled tool
named_tool-IsFilled tool (some (Value.bool b)) = same-IsFilled tool
named_tool-IsFilled tool (some (Value.int n)) = same-IsFilled tool
named_tool-IsFilled tool (some (Value.float t n)) = same-IsFilled tool
named_tool-IsFilled tool (some (Value.other t)) = same-IsFilled tool
named_tool-IsFilled tool (some (list vs)) = same-IsFilled tool

-- Filling the titles of a tool changes no field but `title` and `annotations`, no annotation but
-- `title` (so the hints that say whether a tool is safe stay as declared), and neither title where
-- the runtime gave one.
pub titled_tool-IsFilled :
    (tool : Entries)
    → (filled : Entries) × (titled_tool (dict tool) ≡ dict filled) × IsFilled tool filled
unfolding titled_tool
titled_tool-IsFilled tool = (_, refl, named_tool-IsFilled tool (get (codes "name") (items tool)))
