-- ===== src/Json.antt =====
-- The JSON values of Qt that client/src/storage/JsonLocalStore.cpp reads and writes: a
-- QJsonObject as its keys with their values, by Qt's documented meaning of each method.
pub mod Laws
use text.Mathlib.Text.{◌==◌}
use epic_kfc.Base.{ℤ, pos, String, QString, Bool, true, false, not, List, [], ◌∷◌, if◌then◌else◌}

mutual
  pub data QJsonValue : Type 0 where
    undefined : QJsonValue
    null : QJsonValue
    bool : Bool → QJsonValue
    double : ℤ → QJsonValue
    string : QString → QJsonValue
    array : QJsonArray → QJsonValue
    object : QJsonObject → QJsonValue

  pub data QJsonArray : Type 0 where
    nil : QJsonArray
    cons : QJsonValue → QJsonArray → QJsonArray

  pub data QJsonObject : Type 0 where
    end : QJsonObject
    field : String → QJsonValue → QJsonObject → QJsonObject

unfoldable pub value : String → QJsonObject → QJsonValue
value k end = undefined
value k (field j v o) = let rest = value k o in if j == k then v else rest

unfoldable pub contains : String → QJsonObject → Bool
contains k end = false
contains k (field j v o) = let rest = contains k o in if j == k then true else rest

-- an entry with the key is replaced where it stands
unfoldable pub insert : String → QJsonValue → QJsonObject → QJsonObject
insert k w end = field k w end
insert k w (field j v o) = let rest = insert k w o in if j == k then field k w o else field j v rest

-- the initializer list of a QJsonObject, whose keys differ
abbrev pub fields : List (String × QJsonValue) → QJsonObject
fields [] = end
fields ((k, v) ∷ rest) = field k v (fields rest)

abbrev pub objects : List QJsonObject → QJsonArray
objects [] = nil
objects (o ∷ os) = cons (object o) (objects os)

-- toString, toInt, toBool, toObject, toArray give a default on a value of another kind
abbrev pub to_string : QJsonValue → QString
to_string (string s) = s
to_string _ = []

abbrev pub to_int_or : ℤ → QJsonValue → ℤ
to_int_or default (double n) = n
to_int_or default _ = default

abbrev pub to_int : QJsonValue → ℤ
to_int = to_int_or (pos 0)

abbrev pub to_bool : QJsonValue → Bool
to_bool (bool b) = b
to_bool _ = false

abbrev pub to_object : QJsonValue → QJsonObject
to_object (object o) = o
to_object _ = end

abbrev elements : QJsonArray → List QJsonValue
elements nil = []
elements (cons v vs) = v ∷ elements vs

abbrev pub to_array : QJsonValue → List QJsonValue
to_array (array vs) = elements vs
to_array _ = []
