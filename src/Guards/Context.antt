-- ===== src/Guards/Context.antt =====
-- `ExecutionContext` of nivasa-guards/src/lib.rs. A value behind `dyn Any` is told apart by the types
-- that the guards downcast to; every other type is `other_value`.
use nivasa.Prelude.{Text, put_text, Option, none, some, List, []}
use nivasa.Common.Request.{RequestContext}

pub data ContextValue (Other : Type 0) : Type 0 where
  owned_text static_text : Text → ContextValue Other
  owned_texts static_texts : List Text → ContextValue Other
  other_value : Other → ContextValue Other

abbrev pub ContextDataMap : Type 0 → Type 0
ContextDataMap Other = List (Text × ContextValue Other)

pub record ExecutionContext (Data Value Other : Type 0) : Type 0 where
  pub request : ContextValue Other
  pub request_context : Option (RequestContext Data Value)
  pub handler_metadata : ContextDataMap Other
  pub class_metadata : ContextDataMap Other
  pub custom_data : ContextDataMap Other

module _ {Data Value Other : Type 0} where
  unfoldable pub new : ContextValue Other → ExecutionContext Data Value Other
  new request = record {
    request = request;
    request_context = none;
    handler_metadata = [];
    class_metadata = [];
    custom_data = [];
  }

  unfoldable pub with_request_context :
      ExecutionContext Data Value Other
      → RequestContext Data Value
      → ExecutionContext Data Value Other
  with_request_context self context = record self { request_context = some context }

  unfoldable pub with_handler_metadata :
      ExecutionContext Data Value Other
      → Text
      → ContextValue Other
      → ExecutionContext Data Value Other
  with_handler_metadata self key value = record self {
    handler_metadata = put_text key value self.handler_metadata;
  }

  unfoldable pub with_class_metadata :
      ExecutionContext Data Value Other
      → Text
      → ContextValue Other
      → ExecutionContext Data Value Other
  with_class_metadata self key value = record self {
    class_metadata = put_text key value self.class_metadata;
  }

  unfoldable pub with_custom_data :
      ExecutionContext Data Value Other
      → Text
      → ContextValue Other
      → ExecutionContext Data Value Other
  with_custom_data self key value = record self {
    custom_data = put_text key value self.custom_data;
  }
