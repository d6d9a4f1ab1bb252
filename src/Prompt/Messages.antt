-- ===== src/Prompt/Messages.antt =====
-- `recordsToMessages` of internal/prompt/assembler.go on a log.
use coragent.Base.{Bool, true, false, ◌≡◌, List, [], ◌∷◌, ◌++◌, map, arith, All}
use coragent.Errors.{Result, ok, err}
use coragent.Transcript.{
  Record, Kind, Payload, text, call, result, empty_object, invalid, decode_payload, user_message,
  assistant_block, tool_call, tool_result,
}
use coragent.Provider.{ToolCall, Message, user, assistant, tool}
use coragent.Prompt.{is_tool_call}

-- What the model sees, one item at a time: a message that holds no calls, or one call of a message.
pub data Item : Type 0 where
  said : Message → Item
  called : ToolCall → Item

abbrev items_of : Message → List ToolCall → List Item
items_of m [] = said m ∷ []
items_of m (c ∷ cs) = called c ∷ map called cs

unfoldable pub items_in : List Message → List Item
items_in [] = []
items_in (m ∷ ms) = items_of m m.calls ++ items_in ms

-- What one record is to the model, by its kind and payload: the words of the user or of the assistant, a call, or the
-- result of a call with its ID; and nothing for the facts about runs. A payload `{}` is one without words.
unfoldable pub item_of : Kind → Payload → List Item
item_of user_message (text t) =
    said (record { role = user; content = t; call_id = []; calls = [] }) ∷ []
item_of user_message empty_object =
    said (record { role = user; content = []; call_id = []; calls = [] }) ∷ []
item_of assistant_block (text t) =
    said (record { role = assistant; content = t; call_id = []; calls = [] }) ∷ []
item_of assistant_block empty_object =
    said (record { role = assistant; content = []; call_id = []; calls = [] }) ∷ []
item_of tool_call (call c) =
    called (record { id = c.call_id; name = c.name; arguments = c.arguments }) ∷ []
item_of tool_call empty_object = called (record { id = []; name = []; arguments = invalid [] }) ∷ []
item_of tool_result (result r) =
    said (record { role = tool; content = r.content; call_id = r.call_id; calls = [] }) ∷ []
item_of tool_result empty_object =
    said (record { role = tool; content = []; call_id = []; calls = [] }) ∷ []
item_of _ _ = []

-- The items of a log, record by record.
unfoldable pub items_from : List Record → List Item
unfolding item_of
items_from [] = []
items_from (r ∷ rs) = item_of r.kind r.payload ++ items_from rs

-- The payload of every record decodes as its kind says.
abbrev pub Decodes : List Record → Type 0
Decodes = All (λ (r : Record). (p : Payload) × (decode_payload r.kind r.payload ≡ ok p))

abbrev accepts : {A : Type 0} → Result A → Bool
accepts (ok a) = true
accepts (err e) = false

pub is_tool_call-eq : (k : Kind) → is_tool_call k ≡ true → k ≡ tool_call
is_tool_call-eq k h = ground arith

abbrev items_of_result : Result (List Message) → List Item
items_of_result (ok ms) = items_in ms
items_of_result (err e) = []
