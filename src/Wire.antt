-- ===== src/Wire.antt =====
-- The payloads that the client hands to `socket.send`: features/chat/ChatArena.tsx,
-- features/chat/useChat.ts and features/stories/useStoryWorkflows.ts. `H` is the type of a
-- ratchet header.
use ep2pchat.Base.{String, Bool, Option, some, List, [], ◌∷◌}

-- A message or an event that is encrypted for one device.
pub record Encrypted (H : Type 0) : Type 0 where
  pub temp_id : String
  pub recipient_device_id : String
  pub ciphertext : String
  pub ephemeral_public_key : Option String
  pub used_opk_id : Option String
  pub header : H

pub data Outgoing (H : Type 0) : Type 0 where
  -- MESSAGE_ACK and MESSAGE_READ
  message_id : String → Outgoing H
  -- MESSAGE_SEND
  message : Encrypted H → Outgoing H
  -- TYPING_EVENT
  typing : String → Bool → Outgoing H
  -- STORY_KEY_SHARE: a device, a ciphertext and a header
  story_key : String → String → H → Outgoing H

-- The fields of the object that a message is the JSON of, before it is encrypted.
abbrev pub text_fields : String → Option String → List (String × Option String)
text_fields text parent = ("type", some "text") ∷ ("body", some text) ∷ ("parent_id", parent) ∷ []
