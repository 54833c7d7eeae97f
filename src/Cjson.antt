-- ===== src/Cjson.antt =====
-- cJSON, the library in which the program keeps its documents: what src/config.c, src/queue.c and
-- src/download_state.c call of it, and the documented behaviour that theorems rely on.
use avar.Base.{Bool, List, Option, false, none, some, true, ℕ, ◌^◌, ◌≡◌, ◌≤◌}
use avar.CString.{Text, str_eq}

pub record Cjson : Type 1 where
  pub Json : Type 0
  -- A printed document. The program passes it from `cJSON_PrintUnformatted` to `cJSON_Parse`.
  pub JsonText : Type 0
  pub print : Json → JsonText
  pub parse : JsonText → Option Json
  pub new_null : Json
  pub new_bool : Bool → Json
  pub new_number : ℕ → Json
  pub new_string : Text → Json
  pub new_object : Json
  pub is_object : Json → Bool
  -- `cJSON_IsString(item)` with `item->valuestring`.
  pub string_value : Json → Option Text
  -- `cJSON_IsNumber(item)` with `item->valuedouble` printed by "%.0f".
  pub number_text : Json → Option Text
  -- `cJSON_IsNumber(item)` with `(uint64_t)item->valuedouble`.
  pub number_value : Json → Option ℕ
  pub bool_value : Json → Option Bool
  -- The items of an array, and the array that has them: `cJSON_GetArrayItem` reads, and
  -- `cJSON_AddItemToArray`, `cJSON_ReplaceItemInArray` and `cJSON_DeleteItemFromArray` change them.
  pub array_items : Json → Option (List Json)
  pub new_array : List Json → Json
  -- `cJSON_GetArraySize(object) == 0`
  pub has_no_members : Json → Bool
  -- `cJSON_GetObjectItemCaseSensitive`
  pub get_item : Json → Text → Option Json
  -- Another value for the member in its place, as by `cJSON_ReplaceItemInObjectCaseSensitive` or by a
  -- change inside of it; nothing where there is no such member.
  pub put_item : Json → Text → Json → Json
  -- A member behind the others: `cJSON_AddItemToObject` and its relatives.
  pub add_item : Json → Text → Json → Json
  -- `cJSON_DeleteItemFromObjectCaseSensitive`
  pub delete_item : Json → Text → Json

module _ (cj : Cjson) where
  open cj use {
    Json, print, parse, new_null, new_string, new_bool, new_number, new_object, is_object,
    string_value, number_value, bool_value, array_items, new_array, get_item, put_item, add_item,
  }

  pub record IsLawful : Type 0 where
    pub parse-print : (v : Json) → parse (print v) ≡ some v
    pub string-new : (t : Text) → string_value (new_string t) ≡ some t
    pub string-null : string_value new_null ≡ none
    -- A `double` has every whole number up to 2 ^ 53.
    pub number-new : (n : ℕ) → n ≤ 2 ^ 53 → number_value (new_number n) ≡ some n
    pub bool-new : (b : Bool) → bool_value (new_bool b) ≡ some b
    pub items-new : (xs : List Json) → array_items (new_array xs) ≡ some xs
    pub is_object-new : is_object new_object ≡ true
    pub is_object-put : (o : Json) (k : Text) (v : Json) → is_object (put_item o k v) ≡ is_object o
    pub is_object-add : (o : Json) (k : Text) (v : Json) → is_object (add_item o k v) ≡ is_object o
    pub get-new : (k : Text) → get_item new_object k ≡ none
    pub get-put :
        (o : Json) (k : Text) (v w : Json)
        → get_item o k ≡ some w
        → get_item (put_item o k v) k ≡ some v
    pub get-put_other :
        (o : Json) (k j : Text) (v : Json)
        → str_eq k j ≡ false
        → get_item (put_item o k v) j ≡ get_item o j
    pub get-add :
        (o : Json) (k : Text) (v : Json)
        → is_object o ≡ true
        → get_item o k ≡ none
        → get_item (add_item o k v) k ≡ some v
    pub get-add_other :
        (o : Json) (k j : Text) (v : Json)
        → str_eq k j ≡ false
        → get_item (add_item o k v) j ≡ get_item o j
    -- Nothing changes where a member gets the value that it has.
    pub put-get : (o : Json) (k : Text) (v : Json) → get_item o k ≡ some v → put_item o k v ≡ o
