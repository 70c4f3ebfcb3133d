-- ===== src/Config/Document/Skipping.antt =====
-- What the validation of a document establishes, and what skipping it changes.
use localcloud_cli.Prelude.{
  ◌≡◌, Bool, true, false, List, Option, none, some, Result, ok, raise, host_error, raise_if, ◌>>◌,
  Agrees, Agrees-refl, Agrees-bind, Exception,
}
use localcloud_cli.Text.{Text, codes}
use localcloud_cli.Value.{Value, null, bool, int, float, str, other, list, dict, Items, items}
use localcloud_cli.Config.Fields.{invalid}
use localcloud_cli.Config.Document.{
  Diagnostics, has_unknown, enforce_or_record, reject_or_record, object_section, known_fields,
  version, context, host, tls, mcp, services, object_field, named_fields, validate_config_document,
  reject_legacy_config, reject_flat_config,
}

enforce-Agrees :
    (violated : Bool) (d : Diagnostics)
    → Agrees (enforce_or_record false violated d) (enforce_or_record true violated d)
unfolding enforce_or_record
enforce-Agrees true d = record { at = λ a h. cc }
enforce-Agrees false d = Agrees-refl (ok d)

reject-Agrees :
    (r : Result (Unit {0})) (d : Diagnostics)
    → Agrees (reject_or_record false r d) (reject_or_record true r d)
unfolding reject_or_record
reject-Agrees (ok u) d = Agrees-refl (ok d)
reject-Agrees (raise (host_error c)) d = record { at = λ a h. cc }
reject-Agrees (raise Exception.value_error) d = record { at = λ a h. cc }
reject-Agrees (raise Exception.type_error) d = record { at = λ a h. cc }
reject-Agrees (raise Exception.key_error) d = record { at = λ a h. cc }
reject-Agrees (raise Exception.os_error) d = record { at = λ a h. cc }
reject-Agrees (raise Exception.file_not_found) d = record { at = λ a h. cc }
reject-Agrees (raise Exception.unicode_error) d = record { at = λ a h. cc }
reject-Agrees (raise Exception.runtime_error) d = record { at = λ a h. cc }
reject-Agrees (raise Exception.recursion_error) d = record { at = λ a h. cc }
reject-Agrees (raise Exception.index_error) d = record { at = λ a h. cc }

section-Agrees :
    (fields : List Text) (broken : Items → Bool) (o : Option Value) (d : Diagnostics)
    → Agrees (object_section false fields broken o d) (object_section true fields broken o d)
unfolding object_section
section-Agrees fields broken none d = Agrees-refl (ok d)
section-Agrees fields broken (some (dict es)) d =
    Agrees-bind _ _ _ _ (enforce-Agrees (has_unknown fields (items es)) d)
      λ more. Agrees-refl (raise_if (broken (items es)) invalid >> ok more)
section-Agrees fields broken (some null) d = Agrees-refl (raise invalid)
section-Agrees fields broken (some (bool b)) d = Agrees-refl (raise invalid)
section-Agrees fields broken (some (int n)) d = Agrees-refl (raise invalid)
section-Agrees fields broken (some (float t n)) d = Agrees-refl (raise invalid)
section-Agrees fields broken (some (str t)) d = Agrees-refl (raise invalid)
section-Agrees fields broken (some (other t)) d = Agrees-refl (raise invalid)
section-Agrees fields broken (some (list vs)) d = Agrees-refl (raise invalid)

known_fields-Agrees :
    (raw : Items) (d : Diagnostics) → Agrees (known_fields false raw d) (known_fields true raw d)
unfolding known_fields
known_fields-Agrees raw d = enforce-Agrees _ d

version-Agrees : (raw : Items) (d : Diagnostics) → Agrees (version false raw d) (version true raw d)
unfolding version
version-Agrees raw d = enforce-Agrees _ d

context-Agrees : (raw : Items) (d : Diagnostics) → Agrees (context false raw d) (context true raw d)
unfolding context
context-Agrees raw d = search section-Agrees

host-Agrees : (raw : Items) (d : Diagnostics) → Agrees (host false raw d) (host true raw d)
unfolding host
host-Agrees raw d = search section-Agrees

tls-Agrees : (raw : Items) (d : Diagnostics) → Agrees (tls false raw d) (tls true raw d)
unfolding tls
tls-Agrees raw d = search section-Agrees

mcp-Agrees : (raw : Items) (d : Diagnostics) → Agrees (mcp false raw d) (mcp true raw d)
unfolding mcp
mcp-Agrees raw d = search section-Agrees

services-Agrees :
    (raw : Items) (d : Diagnostics) → Agrees (services false raw d) (services true raw d)
unfolding services
services-Agrees raw d = search section-Agrees

validate-Agrees :
    (raw : Items) (d : Diagnostics)
    → Agrees (validate_config_document false raw d) (validate_config_document true raw d)
unfolding validate_config_document
validate-Agrees raw d = Agrees-bind _ _ _ _ (Agrees-refl (named_fields raw)) λ _.
    Agrees-bind _ _ _ _ (reject-Agrees (reject_legacy_config raw) d) λ d1.
      Agrees-bind _ _ _ _ (reject-Agrees (reject_flat_config raw) d1) λ d2.
        Agrees-bind _ _ _ _ (known_fields-Agrees raw d2) λ d3.
          Agrees-bind _ _ _ _ (version-Agrees raw d3) λ d4.
            Agrees-bind _ _ _ _ (context-Agrees raw d4) λ d5.
              Agrees-bind _ _ _ _ (host-Agrees raw d5) λ d6.
                Agrees-bind _ _ _ _ (tls-Agrees raw d6) λ d7.
                  Agrees-bind _ _ _ _ (mcp-Agrees raw d7) λ d8.
                    Agrees-bind _ _ _ _ (Agrees-refl (object_field (codes "server") raw)) λ _.
                      Agrees-bind _ _ _ _ (services-Agrees raw d8)
                        λ d9. Agrees-refl (object_field (codes "infrastructure") raw >> ok d9)

-- A document that is accepted is accepted with `skip_validation` too, with the same diagnostics.
pub validate_config_document-skip :
    (raw : Items) (d d' : Diagnostics)
    → validate_config_document false raw d ≡ ok d'
    → validate_config_document true raw d ≡ ok d'
validate_config_document-skip raw d = (validate-Agrees raw d).at
