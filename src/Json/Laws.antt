-- ===== src/Json/Laws.antt =====
-- How `insert`, `value` and `contains` of an object answer one another.
use text.Mathlib.Text.{◌==◌}
use text.Mathlib.TextEquality.{eq_iff}
use epic_kfc.Base.{String, true, ◌≡◌, ◌≢◌, arith, refl, if◌then◌else◌}
use epic_kfc.Json.{QJsonValue, QJsonObject, end, field, value, contains, insert}

pub value-insert :
    (k j : String) (w : QJsonValue) (o : QJsonObject)
    → value j (insert k w o) ≡ (if k == j then w else value j o)
unfolding value insert
value-insert k j w end = refl
value-insert k j w (field i v o) =
    ground (arith, value-insert k j w o, eq_iff i k, eq_iff i j, eq_iff k j)

pub contains-insert :
    (k j : String) (w : QJsonValue) (o : QJsonObject)
    → contains j o ≡ true
    → contains j (insert k w o) ≡ true
unfolding contains insert
contains-insert k j w end h = ground arith
contains-insert k j w (field i v o) h =
    ground (arith, contains-insert k j w o, eq_iff i k, eq_iff i j)

pub insert-insert :
    (k : String) (v w : QJsonValue) (o : QJsonObject) → insert k v (insert k w o) ≡ insert k v o
unfolding insert
insert-insert k v w end = ground (arith, eq_iff k k)
insert-insert k v w (field i u o) = ground (arith, insert-insert k v w o, eq_iff i k, eq_iff k k)

pub insert-value : (k : String) (o : QJsonObject) → contains k o ≡ true → insert k (value k o) o ≡ o
unfolding insert contains value
insert-value k end h = ground arith
insert-value k (field i u o) h = ground (arith, insert-value k o, eq_iff i k)

-- An insertion under a key that is there commutes with one under another key.
pub insert_comm :
    (k j : String) (v w : QJsonValue) (o : QJsonObject)
    → k ≢ j
    → contains k o ≡ true
    → insert k v (insert j w o) ≡ insert j w (insert k v o)
unfolding insert contains
insert_comm k j v w end ne h = ground arith
insert_comm k j v w (field i u o) ne h =
    ground (arith, insert_comm k j v w o, eq_iff i k, eq_iff i j, eq_iff k j, eq_iff j k)
