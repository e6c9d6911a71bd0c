-- ===== src/Vault/Buffers/Tests.antt =====
-- The conversions of bytes at a concrete input.
use ep2pchat.Base.{String, ◌≡◌, refl, some, [], ◌∷◌, arith}
use ep2pchat.Vault.Buffers.{
  WindowBase64, buffer_to_base64, base64_to_buffer, base64_to_buffer-buffer_to_base64,
}

-- Texts of bytes as they are.
abbrev plain : WindowBase64
plain = record { btoa = some; atob = some; atob-btoa = λ bs s h e. (s, refl, refl) }

base64_to_buffer-buffer_to_base64_example :
    (t : String) × (buffer_to_base64 plain (0 ∷ 104 ∷ 255 ∷ []) ≡ some t)
    × (base64_to_buffer plain t ≡ some (0 ∷ 104 ∷ 255 ∷ []))
base64_to_buffer-buffer_to_base64_example =
    base64_to_buffer-buffer_to_base64 plain (0 ∷ 104 ∷ 255 ∷ [])
      (omega arith, (omega arith, (omega arith, tt)))
