-- ===== src/Tests/Derive.antt =====
-- The macro on a trait with a value method and a stream method.
use mathlib.Core.List.{Memᴰ}
use zzrpc.Prelude.{
  ℕ, ◌≡◌, ◌↔◌, refl, true, false, is_some, if◌then◌else◌, ◌==◌, Option, none, some, List, [], ◌∷◌,
  map, length,
}
use zzrpc.Derive.{
  GenericArgument, PathArguments, TypeParamBound, Syntax, ReturnType, FnArg, Method, TraitItem,
  ItemTrait, Future, Signature, Call, Output, methods, pattern_arguments, is_stream, modify_trait,
  api, impl_api, api_method, future, call_future, extract_return_type, extract_stream_item_type,
}
use zzrpc.Derive.Laws.{call_of, signature_of, taken, answered_by, filled, names, api-Fits}
use zzrpc.Derive.Fields.{
  ConsumerCode, sender_field, consumer_senders, channel, sender_init, state_inits, handler, drainer,
  impl_consumer_state, state_fields, consumer_state, select_arm, impl_consume, new_future, consumer,
}
use zzrpc.Derive.Fields.Code.{code_of}
use zzrpc.Derive.Fields.Resolve.{distinct}
use zzrpc.Derive.Fields.Typing.{WellTyped}
use zzrpc.Derive.Fields.Checked.{outputs, consumer-WellTyped}
use zzrpc.Derive.Fields.Unique.{fields-distinct}
use zzrpc.Derive.Serving.{Request, serve, impl_produce, request_of_call}
use zzrpc.Derive.Serving.Arguments.{call-served}
use zzrpc.Derive.Panics.{AllAccepted, modify_trait-accepted}

-- Type 9 is `impl Stream<Item = 3>`, type 8 an `impl` of two traits.
abbrev bounds : ℕ → Option (List (TypeParamBound ℕ))
bounds ty =
    if ty == 9
    then some (
        TypeParamBound.trait_ (
          record {
            ident = "Stream";
            arguments = PathArguments.angle_bracketed (GenericArgument.assoc_type "Item" 3 ∷ []);
          }
          ∷ [])
        ∷ [])
    else (if ty == 8 then some (TypeParamBound.other ∷ TypeParamBound.other ∷ []) else none)

abbrev types : Syntax
types = record {
  Ty = ℕ;
  unit = 0;
  impl_trait = bounds;
  to_pascal = λ name. name;
  to_snake = λ name. name;
}

abbrev add : Method ℕ
add = record {
  ident = "add";
  is_async = true;
  has_generics = false;
  inputs = FnArg.receiver ∷ FnArg.typed "a" 1 ∷ FnArg.typed "b" 2 ∷ [];
  output = ReturnType.type_ 1;
}

abbrev numbers : Method ℕ
numbers = record {
  ident = "numbers";
  is_async = true;
  has_generics = false;
  inputs = FnArg.receiver ∷ [];
  output = ReturnType.type_ 9;
}

abbrev service : ItemTrait ℕ
service = record {
  has_generics = false;
  items = TraitItem.fn add ∷ TraitItem.other ∷ TraitItem.fn numbers ∷ [];
}

abbrev signatures : List (Signature ℕ)
signatures =
    record { ident = "add"; inputs = add.inputs; output = Future.value_request 1 }
    ∷ record { ident = "numbers"; inputs = numbers.inputs; output = Future.stream_request 3 }
    ∷ []

service_taken : modify_trait types service ≡ some signatures
unfolding modify_trait extract_stream_item_type
service_taken = refl

api-Fits_example :
    (out : Output ℕ) × (api types service ≡ some out)
    × (out.signatures ≡ signatures)
    × (map (λ c. c.signature) out.calls ≡ signatures)
    × (map (answered_by types) out.responses ≡ map (λ g. g.output) signatures)
    × (map (λ v. v.is_stream) out.responses
        ≡ map (λ m. is_stream types m.output) (methods service.items))
    × (map (λ c. c.variant) out.calls ≡ map (λ v. v.ident) out.responses)
    × (map (filled types) out.calls ≡ map (names types) out.requests)
api-Fits_example = api-Fits types service signatures service_taken

modify_trait-accepted_example :
    (is_some (modify_trait types service) ≡ true)
    ↔ ((service.has_generics ≡ false) × AllAccepted types (methods service.items))
modify_trait-accepted_example = modify_trait-accepted types service

names_differ : distinct (map (λ m. types.to_snake m.ident) (methods service.items)) ≡ true
unfolding methods
names_differ = refl

consumer-WellTyped_example :
    (code : ConsumerCode ℕ) × (consumer types service.items ≡ some code)
    × WellTyped code (outputs types signatures)
consumer-WellTyped_example = consumer-WellTyped types service signatures service_taken names_differ

abbrev service_code : ConsumerCode ℕ
service_code = code_of types ((add, 1) ∷ (numbers, 3) ∷ [])

service_generated : consumer types service.items ≡ some service_code
unfolding consumer consumer_senders sender_field consumer_state state_fields impl_consumer_state
    channel sender_init state_inits handler drainer impl_consume select_arm new_future impl_api
    api_method future call_future extract_return_type extract_stream_item_type is_stream methods
    call_of signature_of taken
service_generated = refl

fields-distinct_example :
    (distinct (map (λ f. f.0) service_code.state)
      ≡ distinct (map (λ m. types.to_snake m.ident) (methods service.items)))
    × (distinct (map (λ f. f.0) service_code.senders)
        ≡ distinct (map (λ m. types.to_snake m.ident) (methods service.items)))
fields-distinct_example =
    fields-distinct types service signatures service_code service_taken service_generated

abbrev add_call : Call ℕ
add_call = record {
  signature = record { ident = "add"; inputs = add.inputs; output = Future.value_request 1 };
  variant = "add";
  fields = "a" ∷ "b" ∷ [];
}

add_called : api_method types add ≡ some add_call
unfolding api_method future call_future pattern_arguments
add_called = refl

add_in_service : Memᴰ add (methods service.items)
unfolding methods
add_in_service = Memᴰ.head refl

arguments_differ : distinct (pattern_arguments add.inputs) ≡ true
unfolding pattern_arguments
arguments_differ = refl

abbrev five_and_seven : List ℕ
five_and_seven = 5 ∷ 7 ∷ []

two_values : length five_and_seven ≡ length (pattern_arguments add.inputs)
unfolding pattern_arguments
two_values = refl

call-served_example :
    (r : Request ℕ) × (request_of_call types add_call five_and_seven ≡ some r)
    × (serve (impl_produce types service.items) r
        ≡ some ("add", five_and_seven, "add", is_stream types add.output))
call-served_example =
    call-served types service.items add add_call five_and_seven add_in_service names_differ
      arguments_differ two_values add_called
