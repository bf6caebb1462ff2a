-- ===== src/Operator/Value/Fields.antt =====
-- A field of a map after a write.
use ogo.Base.{String, ◌≡◌, false, some, ◌==◌, arith, eq_iff}
use ogo.Operator.Value.{Value, text, number, flag, end, item, entry, field, set_field}

pub field-set_field : (k : String) (v m : Value) → field k (set_field k v m) ≡ some v
unfolding field set_field
field-set_field k v (text s) = ground (arith, eq_iff k k)
field-set_field k v (number n) = ground (arith, eq_iff k k)
field-set_field k v (flag b) = ground (arith, eq_iff k k)
field-set_field k v end = ground (arith, eq_iff k k)
field-set_field k v (item u m) = ground (arith, eq_iff k k)
field-set_field k v (entry j u m) = ground (arith, field-set_field k v m, eq_iff k k, eq_iff j k)

pub field-set_other :
    (j k : String) (v m : Value) → (k == j) ≡ false → field j (set_field k v m) ≡ field j m
unfolding field set_field
field-set_other j k v (text s) h = ground arith
field-set_other j k v (number n) h = ground arith
field-set_other j k v (flag b) h = ground arith
field-set_other j k v end h = ground arith
field-set_other j k v (item u m) h = ground arith
field-set_other j k v (entry i u m) h =
    ground (arith, field-set_other j k v m h, eq_iff i k, eq_iff i j, eq_iff k j)
