-- ===== src/Json.antt =====
-- The JSON values of the crate serde_json, as src/claude_code_state/chat.rs reads and writes them. An object is a list
-- of its entries, whose order no operation reads; a number that is no `u64` is its text.
pub mod Laws
use Prim.Native.Nat.{ℕ, zero, suc}
use text.Mathlib.Text.{◌==◌ as str_eq}
use clewdr_hub.Common.{String, Bool, Option, none, some, if◌then◌else◌, and_then}

mutual
  pub data Json : Type 0 where
    null : Json
    boolean : Bool → Json
    number : ℕ → Json
    other_number : String → Json
    string : String → Json
    array : Items → Json
    object : Fields → Json

  pub data Items : Type 0 where
    nil : Items
    cons : Json → Items → Items

  pub data Fields : Type 0 where
    end : Fields
    field : String → Json → Fields → Fields

-- `Map::get` and `Map::insert`.
unfoldable pub get_field : String → Fields → Option Json
get_field k end = none
get_field k (field j v fs) = if str_eq j k then some v else get_field k fs

unfoldable pub insert_field : String → Json → Fields → Fields
insert_field k v end = field k v end
insert_field k v (field j w fs) =
    let rest = insert_field k v fs in if str_eq j k then field j v fs else field j w rest

-- `Value::as_object`, `as_array`, `as_str`, `as_u64`, and `Value::get` with a key.
abbrev pub as_object : Json → Option Fields
as_object (object fs) = some fs
as_object null = none
as_object (boolean b) = none
as_object (number n) = none
as_object (other_number t) = none
as_object (string t) = none
as_object (array xs) = none

abbrev pub as_array : Json → Option Items
as_array (array xs) = some xs
as_array null = none
as_array (boolean b) = none
as_array (number n) = none
as_array (other_number t) = none
as_array (string t) = none
as_array (object fs) = none

abbrev pub as_str : Json → Option String
as_str (string t) = some t
as_str null = none
as_str (boolean b) = none
as_str (number n) = none
as_str (other_number t) = none
as_str (array xs) = none
as_str (object fs) = none

abbrev pub as_u64 : Json → Option ℕ
as_u64 (number n) = some n
as_u64 null = none
as_u64 (boolean b) = none
as_u64 (other_number t) = none
as_u64 (string t) = none
as_u64 (array xs) = none
as_u64 (object fs) = none

abbrev pub get_key : String → Json → Option Json
get_key k v = and_then (as_object v) (λ fs. get_field k fs)

-- `Vec` of values: its length, an element, a write and a push.
unfoldable pub count_items : Items → ℕ
count_items nil = 0
count_items (cons x xs) = suc (count_items xs)

unfoldable pub get_item : ℕ → Items → Option Json
get_item i nil = none
get_item zero (cons x xs) = some x
get_item (suc i) (cons x xs) = get_item i xs

unfoldable pub set_item : ℕ → Json → Items → Items
set_item i v nil = nil
set_item zero v (cons x xs) = cons v xs
set_item (suc i) v (cons x xs) = cons x (set_item i v xs)

unfoldable pub push_item : Json → Items → Items
push_item v nil = cons v nil
push_item v (cons x xs) = cons x (push_item v xs)
