-- ===== src/Mcp/Titles.antt =====
-- The display titles that `_forward` of mcp_stdio.py fills into the runtime's list of tools.
pub mod Hints
use localcloud_cli.Prelude.{
  Bool, true, false, not, List, [], ◌∷◌, ◌++◌, Option, none, some, map, if◌then◌else◌,
}
use localcloud_cli.Text.{Text, codes, ◌==◌, elem, is_empty, remove_prefix}
use localcloud_cli.Text.Upper.{upper, upper_char}
use localcloud_cli.Value.{
  Value, null, str, list, dict, Values, nil, cons, Entries, end, items, get, or_null, truthy,
}
use localcloud_cli.Value.Equal.{set_entry}
use localcloud_cli.Endpoints.Proxy.{split}

abbrev pub acronyms : List Text
acronyms = codes "api" ∷ codes "sdk" ∷ codes "sql" ∷ codes "iam" ∷ []

unfoldable pub title_word : Text → Text
unfolding elem upper
title_word word = if elem word acronyms then upper word else word

-- " ".join(words)
abbrev pub join_words : List Text → Text
join_words [] = []
join_words (word ∷ []) = word
join_words (word ∷ next ∷ more) = word ++ b' ' ∷ join_words (next ∷ more)

-- title[:1].upper() + title[1:]
abbrev pub capitalized : Text → Text
capitalized [] = []
capitalized (c ∷ s) = upper_char c ++ s

unfoldable pub display_title : Text → Text
unfolding split remove_prefix title_word upper_char
display_title name =
    capitalized
      (join_words (map title_word (split b'_' (remove_prefix name (codes "localcloud_")))))

abbrev pub title_key : Text
title_key = codes "title"

abbrev pub annotations_key : Text
annotations_key = codes "annotations"

unfoldable pub is_titled : Entries → Bool
unfolding get truthy
is_titled es = truthy (or_null (get title_key (items es)))

-- `if not d.get("title"): d["title"] = title`
unfoldable pub fill_title : Value → Entries → Entries
unfolding is_titled set_entry
fill_title title es = if is_titled es then es else set_entry title_key title es

-- `tool.get("title") or annotations.get("title")`, or else a title made of the name
unfoldable pub chosen_title : Text → Entries → Entries → Value
unfolding is_titled get display_title
chosen_title name tool annotations =
    if is_titled tool
    then or_null (get title_key (items tool))
    else if is_titled annotations
    then or_null (get title_key (items annotations))
    else str (display_title name)

unfoldable pub fill_titles : Text → Entries → Entries → Entries
unfolding chosen_title fill_title set_entry
fill_titles name tool annotations =
    let title = chosen_title name tool annotations in
    fill_title title (set_entry annotations_key (dict (fill_title title annotations)) tool)

-- A tool of that name; annotations that are no object leave it as it is.
abbrev pub annotated : Text → Entries → Option Value → Entries
annotated name tool none = fill_titles name tool end
annotated name tool (some null) = fill_titles name tool end
annotated name tool (some (dict annotations)) = fill_titles name tool annotations
annotated name tool (some v) = tool

abbrev pub named_tool : Entries → Option Value → Entries
named_tool tool (some (str name)) =
    if is_empty name then tool else annotated name tool (get annotations_key (items tool))
named_tool tool o = tool

unfoldable pub titled_tool : Value → Value
unfolding get fill_titles
titled_tool (dict tool) = dict (named_tool tool (get (codes "name") (items tool)))
titled_tool v = v

unfoldable pub titled_tools : Values → Values
unfolding titled_tool
titled_tools nil = nil
titled_tools (cons tool tools) = cons (titled_tool tool) (titled_tools tools)

abbrev pub with_titled : Entries → Option Value → Value
with_titled result (some (list tools)) =
    dict (set_entry (codes "tools") (list (titled_tools tools)) result)
with_titled result o = dict result

-- The result of `tools/list`.
unfoldable pub titled_result : Value → Value
unfolding titled_tools get set_entry
titled_result (dict result) = with_titled result (get (codes "tools") (items result))
titled_result v = v
