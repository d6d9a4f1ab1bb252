-- ===== src/SessionCommand.antt =====
-- internal/sessioncommand/command.go: the control envelope and its checks. The payload is the document that
-- the strict decoder reads.
use coragent.Base.{not, ◌&&◌, [], Bytes, blank, leb, length}
use coragent.Errors.{Result, ok, err, ◌>>=◌, ◌>>◌, require, invalid_command}

pub data CommandKind : Type 0 where
  submit cancel resume close : CommandKind
  unknown_kind : Bytes → CommandKind

-- `prompt` is an object with that one field, `empty_object` is `{}`, and `malformed` is any other
-- payload: one that is empty, is not JSON, has unknown fields, or has data after the object.
pub data CommandPayload : Type 0 where
  prompt : Bytes → CommandPayload
  empty_object malformed : CommandPayload

pub record Command : Type 0 where
  pub id : Bytes
  pub session_id : Bytes
  pub kind : CommandKind
  pub payload : CommandPayload

unfoldable pub new_submit : Bytes → Bytes → Command
new_submit id p = record { id = id; session_id = []; kind = submit; payload = prompt p }

unfoldable pub new_cancel : Bytes → Command
new_cancel id = record { id = id; session_id = []; kind = cancel; payload = empty_object }

unfoldable pub new_resume : Bytes → Command
new_resume id = record { id = id; session_id = []; kind = resume; payload = empty_object }

unfoldable pub new_close : Bytes → Command
new_close id = record { id = id; session_id = []; kind = close; payload = empty_object }

-- `ForSession`.
unfoldable pub for_session : Command → Bytes → Command
for_session c session_id = record c { session_id = session_id }

-- `decode` into `SubmitPayload`: an absent prompt is empty.
unfoldable pub decode_prompt : CommandPayload → Result Bytes
decode_prompt (prompt p) = ok p
decode_prompt empty_object = ok []
decode_prompt malformed = err invalid_command

-- `decode` into a payload without fields.
unfoldable pub decode_empty : CommandPayload → Result (Unit {0})
decode_empty empty_object = ok tt
decode_empty (prompt p) = err invalid_command
decode_empty malformed = err invalid_command

-- `DecodeSubmit`.
unfoldable pub decode_submit : Command → Result Bytes
unfolding decode_prompt
decode_submit c = elim c.kind [ submit ↦ decode_prompt c.payload | _ ↦ err invalid_command ]

-- `Validate`.
unfoldable pub validate : Command → Result (Unit {0})
unfolding decode_submit decode_empty
validate c = do
  require (not (blank c.id)) invalid_command
  elim c.kind [
    | submit ↦
        decode_submit c >>= λ p. require (not (blank p) && leb (length p) 262144) invalid_command
    | unknown_kind k ↦ err invalid_command
    | _ ↦ decode_empty c.payload
  ]
