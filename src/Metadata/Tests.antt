-- ===== src/Metadata/Tests.antt =====
-- Metadata before and after.
use auto_ops.Json.{set_field}
use auto_ops.Prelude.{trim}
use auto_ops.Prelude.{take_units}
use auto_ops.Prelude.{◌≤◌, ◌≡◌, refl, true}
use auto_ops.Json.{Json, null, bool, num, str, arr, obj, nil, cons, end, field, integer}
use auto_ops.Metadata.{sanitize_metadata, max_keys}
use auto_ops.Metadata.Laws.{AllSafe, count_fields, sanitize_metadata-AllSafe}

abbrev mixed : Json
mixed = obj (
    field " image " (str "nginx:1.25") (
      field "apiToken" (str "abc") (
        field "note" (str "Bearer abc") (
          field "ports" (arr (cons (num (integer 80)) (cons null nil)))
            (field "limits" (obj end) (field "__proto__" (bool true) end))))))

curated :
    sanitize_metadata mixed
    ≡ field "image" (str "nginx:1.25") (
        field "apiToken" (str "[REDACTED]") (
          field "note"
            (str "[REDACTED]")
            (field "ports" (str "[2 items]") (field "limits" (str "[object]") end))))
unfolding sanitize_metadata take_units trim set_field
curated = refl

sanitize_metadata-AllSafe_example :
    AllSafe (sanitize_metadata mixed) × (count_fields (sanitize_metadata mixed) ≤ max_keys)
sanitize_metadata-AllSafe_example = sanitize_metadata-AllSafe mixed
