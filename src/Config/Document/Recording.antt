-- ===== src/Config/Document/Recording.antt =====
-- What a validation that skips records.
use localcloud_cli.Prelude.{
  ◌≡◌, Bool, true, not, List, [], ◌∷◌, ◌++◌, Option, none, some, Code, Result, ok, raise,
  host_error, raise_if, Returns, Returns-ok, Returns-raise, Returns-if, Returns-bind, Returns-after,
  Exception, invalid_config,
}
use localcloud_cli.Text.{Text, codes}
use localcloud_cli.Value.{Value, null, bool, int, float, str, other, list, dict, Items, items}
use localcloud_cli.Config.Fields.{invalid}
use localcloud_cli.Config.Document.{
  Diagnostics, skipped, has_unknown, enforce_or_record, reject_or_record, object_section,
  validate_config_document, reject_legacy_config, reject_flat_config, known_fields, version,
  context, host, tls, mcp, services, object_field, named_fields,
}

-- The later diagnostics are the former ones and then checks that were skipped, none without `skip`.
pub data Extends (skip : Bool) (d : Diagnostics) : Diagnostics → Type 0 where
  same : Extends skip d d
  record_check :
      {e : Diagnostics} (c : Code)
      → skip ≡ true
      → Extends skip d e
      → Extends skip d (e ++ skipped c ∷ [])

Extends-trans :
    {skip : Bool} {d e f : Diagnostics} → Extends skip d e → Extends skip e f → Extends skip d f
Extends-trans h same = h
Extends-trans h (record_check c on k) = record_check c on (Extends-trans h k)

module _ (skip : Bool) where
  enforce-Extends :
      (violated : Bool) (d : Diagnostics)
      → Returns (Extends skip d) (enforce_or_record skip violated d)
  unfolding enforce_or_record
  enforce-Extends violated d =
      Returns-if (not violated) _ _ (λ h. Returns-ok d same)
        λ h.
          Returns-if skip _ _ (λ on. Returns-ok _ (record_check invalid_config on same))
            λ off. Returns-raise invalid

  reject-Extends :
      (r : Result (Unit {0})) (d : Diagnostics)
      → Returns (Extends skip d) (reject_or_record skip r d)
  unfolding reject_or_record
  reject-Extends (ok u) d = Returns-ok d same
  reject-Extends (raise (host_error c)) d =
      Returns-if skip _ _ (λ on. Returns-ok _ (record_check c on same))
        λ off. Returns-raise (host_error c)
  reject-Extends (raise Exception.value_error) d = Returns-raise _
  reject-Extends (raise Exception.type_error) d = Returns-raise _
  reject-Extends (raise Exception.key_error) d = Returns-raise _
  reject-Extends (raise Exception.os_error) d = Returns-raise _
  reject-Extends (raise Exception.file_not_found) d = Returns-raise _
  reject-Extends (raise Exception.unicode_error) d = Returns-raise _
  reject-Extends (raise Exception.runtime_error) d = Returns-raise _
  reject-Extends (raise Exception.recursion_error) d = Returns-raise _
  reject-Extends (raise Exception.index_error) d = Returns-raise _

  section-Extends :
      (fields : List Text) (broken : Items → Bool) (o : Option Value) (d : Diagnostics)
      → Returns (Extends skip d) (object_section skip fields broken o d)
  unfolding object_section
  section-Extends fields broken none d = Returns-ok d same
  section-Extends fields broken (some (dict es)) d =
      Returns-bind _ _ (enforce-Extends (has_unknown fields (items es)) d)
        λ more h. Returns-after (raise_if (broken (items es)) invalid) _ λ u _. Returns-ok more h
  section-Extends fields broken (some null) d = Returns-raise invalid
  section-Extends fields broken (some (bool b)) d = Returns-raise invalid
  section-Extends fields broken (some (int n)) d = Returns-raise invalid
  section-Extends fields broken (some (float t n)) d = Returns-raise invalid
  section-Extends fields broken (some (str t)) d = Returns-raise invalid
  section-Extends fields broken (some (other t)) d = Returns-raise invalid
  section-Extends fields broken (some (list vs)) d = Returns-raise invalid

  known_fields-Extends :
      (raw : Items) (d : Diagnostics) → Returns (Extends skip d) (known_fields skip raw d)
  unfolding known_fields
  known_fields-Extends raw d = enforce-Extends _ d

  version-Extends : (raw : Items) (d : Diagnostics) → Returns (Extends skip d) (version skip raw d)
  unfolding version
  version-Extends raw d = enforce-Extends _ d

  context-Extends : (raw : Items) (d : Diagnostics) → Returns (Extends skip d) (context skip raw d)
  unfolding context
  context-Extends raw d = search section-Extends

  host-Extends : (raw : Items) (d : Diagnostics) → Returns (Extends skip d) (host skip raw d)
  unfolding host
  host-Extends raw d = search section-Extends

  tls-Extends : (raw : Items) (d : Diagnostics) → Returns (Extends skip d) (tls skip raw d)
  unfolding tls
  tls-Extends raw d = search section-Extends

  mcp-Extends : (raw : Items) (d : Diagnostics) → Returns (Extends skip d) (mcp skip raw d)
  unfolding mcp
  mcp-Extends raw d = search section-Extends

  services-Extends :
      (raw : Items) (d : Diagnostics) → Returns (Extends skip d) (services skip raw d)
  unfolding services
  services-Extends raw d = search section-Extends

  validate-Extends :
      (raw : Items) (d : Diagnostics)
      → Returns (Extends skip d) (validate_config_document skip raw d)
  unfolding validate_config_document
  validate-Extends raw d = Returns-after (named_fields raw) _ λ _ _.
      Returns-bind _ _ (reject-Extends (reject_legacy_config raw) d) λ d1 h1.
        Returns-bind _ _ (reject-Extends (reject_flat_config raw) d1) λ d2 h2.
          Returns-bind _ _ (known_fields-Extends raw d2) λ d3 h3.
            Returns-bind _ _ (version-Extends raw d3) λ d4 h4.
              Returns-bind _ _ (context-Extends raw d4) λ d5 h5.
                Returns-bind _ _ (host-Extends raw d5) λ d6 h6.
                  Returns-bind _ _ (tls-Extends raw d6) λ d7 h7.
                    Returns-bind _ _ (mcp-Extends raw d7) λ d8 h8.
                      Returns-after (object_field (codes "server") raw) _ λ _ _.
                        Returns-bind _ _ (services-Extends raw d8) λ d9 h9.
                          Returns-after (object_field (codes "infrastructure") raw) _ λ _ _.
                            Returns-ok d9 (
                              Extends-trans
                                (Extends-trans
                                  (Extends-trans
                                    (Extends-trans
                                      (Extends-trans
                                        (Extends-trans (Extends-trans (Extends-trans h1 h2) h3) h4)
                                        h5)
                                      h6)
                                    h7)
                                  h8)
                                h9)

  -- A validation that accepts a document keeps the diagnostics it is given and only adds checks that
  -- were skipped, which it does only with `skip_validation`.
  pub validate_config_document-Extends :
      (raw : Items) (d e : Diagnostics)
      → validate_config_document skip raw d ≡ ok e
      → Extends skip d e
  validate_config_document-Extends raw d = (validate-Extends raw d).at
