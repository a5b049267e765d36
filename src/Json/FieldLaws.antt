-- ===== src/Json/FieldLaws.antt =====
-- Reading a field that was set.
use auto_ops.Prelude.{◌≡◌, refl, String, some, arith, ◌==◌, if◌then◌else◌, eq_iff, ==_self}
use auto_ops.Json.{Json, Fields, end, field, get_field, set_field}

pub get_field-set_field :
    (k j : String) (v : Json) (fs : Fields)
    → get_field j (set_field k v fs) ≡ (if k == j then some v else get_field j fs)
unfolding get_field set_field
get_field-set_field k j v end = refl
get_field-set_field k j v (field i w fs) =
    ground (arith, eq_iff k j, eq_iff i k, eq_iff i j, get_field-set_field k j v fs)

pub get_field-set_field_self :
    (k : String) (v : Json) (fs : Fields) → get_field k (set_field k v fs) ≡ some v
get_field-set_field_self k v fs = rw (get_field-set_field, ==_self)
