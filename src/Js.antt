-- ===== src/Js.antt =====
-- The JavaScript values that the code of auth/src inspects: what is observed of an unknown value
-- (`Js/Value`), the lengths and character classes of texts (`Js/Text`), JSON texts with sorted
-- keys (`Js/Json`) and base64url (`Js/Base64`).
pub mod Value
pub mod Text
pub mod Json
pub mod Base64
