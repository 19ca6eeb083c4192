-- ===== src/Adapter/Http/Settings.antt =====
-- core/adapter/http/settings_handler.go
use agentic_delegator.Prelude.{String}
use agentic_delegator.Exec.{State, Result, ok, err}
use agentic_delegator.Usecase.Settings.{
  SetAnthropicCredentials, MintApiKey, MintApiKeyOutput, RevokeApiKey, set_anthropic, mint, revoke,
}
use agentic_delegator.Adapter.Http.Response.{
  Response, empty, minted, error_response, domain_error, respond,
}

pub record SettingsHandler (W : Type 0) : Type 0 where
  pub set_anthropic : SetAnthropicCredentials W
  pub mint : MintApiKey W
  pub revoke : RevokeApiKey W

abbrev pub no_content : Unit {0} → Response
no_content x = record { code = 204; body = empty }

abbrev pub minted_key : MintApiKeyOutput → Response
minted_key out = record { code = 200; body = minted out.key.id out.plaintext out.key.prefix }

-- A decoded body is the text of its one field.
module _ {W : Type 0} (h : SettingsHandler W) where
  unfoldable pub set_anthropic_handler : String → Result String → State W Response
  set_anthropic_handler uid (err e) w = (error_response 400 "invalid json", w)
  set_anthropic_handler uid (ok api_key) w =
      respond domain_error no_content
        (set_anthropic h.set_anthropic (record { user_id = uid; api_key = api_key })) w

  unfoldable pub revoke_handler : String → String → State W Response
  revoke_handler uid id =
      respond domain_error no_content (revoke h.revoke (record { id = id; user_id = uid }))

  unfoldable pub mint_handler : String → Result String → State W Response
  mint_handler uid (err e) w = (error_response 400 "invalid json", w)
  mint_handler uid (ok name) w =
      respond domain_error minted_key (mint h.mint (record { user_id = uid; name = name })) w
