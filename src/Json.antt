-- ===== src/Json.antt =====
-- A value that JSON.parse gives, and how the program looks into it. An object has each key once.
use mailmon.Base.{String, Bool, true, false, Option, none, some, List, [], ◌∷◌, ◌==◌, if◌then◌else◌}

mutual
  -- A number is kept as JavaScript prints it.
  pub data Json : Type 0 where
    null : Json
    boolean : Bool → Json
    number : String → Json
    text : String → Json
    array : Items → Json
    object : Fields → Json

  pub data Items : Type 0 where
    no_items : Items
    item : Json → Items → Items

  pub data Fields : Type 0 where
    no_fields : Fields
    field : String → Json → Fields → Fields

abbrev pub field_of : String → Fields → Option Json
field_of key no_fields = none
field_of key (field name value members) = if name == key then some value else field_of key members

-- value[key] where isRecord(value), that is typeof value === "object" and value is not null: an
-- array is a record, without the keys that the program asks for.
unfoldable pub get : String → Json → Option Json
get key (object members) = field_of key members
get key value = none

unfoldable pub is_record : Json → Bool
is_record (object _) = true
is_record (array _) = true
is_record value = false

abbrev pub as_text : Option Json → Option String
as_text (some (text s)) = some s
as_text value = none

-- A property that is a string.
unfoldable pub get_text : String → Json → Option String
unfolding get
get_text key value = as_text (get key value)

abbrev pub is_record_field : Option Json → Option Json
is_record_field none = none
is_record_field (some value) = if is_record value then some value else none

-- A property that is itself a record.
unfoldable pub get_record : String → Json → Option Json
unfolding get is_record
get_record key value = is_record_field (get key value)

unfoldable pub items_of : Items → List Json
items_of no_items = []
items_of (item value rest) = value ∷ items_of rest

abbrev pub as_items : Option Json → Option (List Json)
as_items (some (array values)) = some (items_of values)
as_items value = none

-- A property that is an array.
unfoldable pub get_items : String → Json → Option (List Json)
unfolding get items_of
get_items key value = as_items (get key value)
