-- ===== src/Common/Request.antt =====
-- `RequestContext` of nivasa-common/src/lib.rs. What it keeps under a type, `Box<dyn Any>`, is an
-- element of `Data`: the key is the identifier of the type, so a downcast to that type succeeds. A
-- `serde_json::Value` is an element of `Value`, and the record `Json` has that library's accessors.
use nivasa.Prelude.{Text, get_text, put_text, lookup, insert_map, ℕ, Bool, Option, List, []}

pub record Json (Value : Type 0) : Type 0 where
  pub as_str : Value → Option Text
  pub as_bool : Value → Option Bool
  pub as_u64 : Value → Option ℕ
  pub as_array : Value → Option (List Value)

pub record RequestContext (Data Value : Type 0) : Type 0 where
  pub request_data : List (ℕ × Data)
  pub handler_metadata : List (Text × Value)
  pub class_metadata : List (Text × Value)
  pub custom_data : List (Text × Value)

module _ {Data Value : Type 0} where
  abbrev pub new : RequestContext Data Value
  new = record { request_data = []; handler_metadata = []; class_metadata = []; custom_data = [] }

  -- Those that store return the new context and the value that was there.
  unfoldable pub insert_request_data :
      RequestContext Data Value → ℕ → Data → RequestContext Data Value × Option Data
  insert_request_data self type_id value = (
    record self { request_data = insert_map type_id value self.request_data },
    lookup type_id self.request_data,
  )

  unfoldable pub get_request_data : RequestContext Data Value → ℕ → Option Data
  get_request_data self type_id = lookup type_id self.request_data

  unfoldable pub set_handler_metadata :
      RequestContext Data Value → Text → Value → RequestContext Data Value × Option Value
  set_handler_metadata self key value = (
    record self { handler_metadata = put_text key value self.handler_metadata },
    get_text key self.handler_metadata,
  )

  unfoldable pub set_class_metadata :
      RequestContext Data Value → Text → Value → RequestContext Data Value × Option Value
  set_class_metadata self key value = (
    record self { class_metadata = put_text key value self.class_metadata },
    get_text key self.class_metadata,
  )

  unfoldable pub set_custom_data :
      RequestContext Data Value → Text → Value → RequestContext Data Value × Option Value
  set_custom_data self key value = (
    record self { custom_data = put_text key value self.custom_data },
    get_text key self.custom_data,
  )

  abbrev pub handler_value : RequestContext Data Value → Text → Option Value
  handler_value self key = get_text key self.handler_metadata

  abbrev pub class_value : RequestContext Data Value → Text → Option Value
  class_value self key = get_text key self.class_metadata

  abbrev pub custom_value : RequestContext Data Value → Text → Option Value
  custom_value self key = get_text key self.custom_data
