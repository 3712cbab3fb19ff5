-- ===== src/Core/Inputs.antt =====
-- What the operations of auth/src/core/auth-core.ts read of their input.
use nestjs_yalc.Prelude.{String, List, [], ◌∷◌}
use nestjs_yalc.Js.Value.{Value}
use nestjs_yalc.Directory.Validation.Shapes.{get}
use nestjs_yalc.Core.Errors.{invalid_input, Result, ok, ◌>>=◌}
use nestjs_yalc.Core.Types.{RequestContext}
use nestjs_yalc.Core.Validation.{exact_input, text_of, Operation, context_for}

unfoldable pub token_input : List String → Value → Operation → Result (String × RequestContext)
unfolding exact_input text_of context_for
token_input origins raw operation = do
  input ← exact_input raw ("token" ∷ "context" ∷ []) ("token" ∷ "context" ∷ [])
  token ← text_of (get "token" input) 8192 invalid_input
  context ← context_for (get "context" input) operation origins
  ok (token, context)

-- The three parts of the input of `login`, read.
pub record LoginInput : Type 0 where
  pub provider_id : String
  pub proof : Value
  pub context : RequestContext

abbrev login_keys : List String
login_keys = "providerId" ∷ "proof" ∷ "context" ∷ []

unfoldable pub login_input : List String → Value → Result LoginInput
unfolding exact_input text_of context_for
login_input origins raw = do
  input ← exact_input raw login_keys login_keys
  provider_id ← text_of (get "providerId" input) 80 invalid_input
  context ← context_for (get "context" input) Operation.login origins
  ok (record { provider_id = provider_id; proof = get "proof" input; context = context })
