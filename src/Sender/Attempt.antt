-- ===== src/Sender/Attempt.antt =====
-- worker/sender.go: `sendWithCfg`, one attempt to hand a message to its provider. What it sets on
-- the message in memory is not read again, so it is left out.
use spur_messaging.Prelude.{String, Bool, true, false, ◌&&◌, concat, [], ◌∷◌, if◌then◌else◌}
use spur_messaging.Domain.Errors.{other}
use spur_messaging.Domain.Message.{
  Channel, whatsapp, sms, email, other_channel, MessageStatus, provider_submitted, Direction,
  outbound, inbound, Message,
}
use spur_messaging.Calls.{Op, pure, fail, ◌>>=◌, ◌>>◌, call}
use spur_messaging.Sender.Env.{
  ProviderSetup, ProviderSendResult, SenderCall, SenderEnv, asked_provider, updated_status,
  sent_email, sent_message, charged,
}
use spur_messaging.Sender.Request.{email_request, send_request, usage_charge}

abbrev is_outbound : Direction → Bool
is_outbound outbound = true
is_outbound inbound = false

module _ (env : SenderEnv) where
  abbrev pub find_setup : Message → Op SenderCall ProviderSetup
  find_setup msg =
      call (λ h. env.get_provider h msg.tenant_id msg.channel)
        (asked_provider msg.tenant_id msg.channel)

  abbrev pub put_status : Message → MessageStatus → String → Op SenderCall (Unit {0})
  put_status msg status provider_id =
      call (λ h. env.update_status h msg.tenant_id msg.id status provider_id)
        (updated_status msg.tenant_id msg.id status provider_id)

  -- The `switch` on the channel.
  unfoldable pub hand_over :
      Channel → Message → (provider cfg : ProviderSetup) → Op SenderCall ProviderSendResult
  unfolding email_request
  hand_over email msg provider cfg =
      if provider.is_email_provider
      then (let req = email_request env.uuid_string msg in
          call (λ h. env.send_email h provider cfg req) (sent_email req))
      else fail (other "provider does not support EmailProvider interface")
  hand_over whatsapp msg provider cfg =
      call (λ h. env.send h provider cfg (send_request msg)) (sent_message (send_request msg))
  hand_over sms msg provider cfg =
      call (λ h. env.send h provider cfg (send_request msg)) (sent_message (send_request msg))
  hand_over (other_channel s) msg provider cfg =
      fail (other (concat ("unsupported channel: " ∷ s ∷ [])))

  -- What follows an accepted message: its status, then the charge.
  unfoldable pub settle : Message → ProviderSetup → ProviderSendResult → Op SenderCall (Unit {0})
  settle msg cfg result = do
    put_status msg result.status result.provider_message_id
    if env.has_billing && is_outbound msg.direction
        then (let charge = usage_charge msg cfg result in
            call (λ h. env.record_charge h charge) (charged charge))
        else pure tt

  -- `sendWithCfg`: the provider is looked up anew, the configuration is the first one's.
  unfoldable pub send_with_cfg : Message → ProviderSetup → Op SenderCall (Unit {0})
  unfolding hand_over settle
  send_with_cfg msg cfg = do
    provider ← find_setup msg
    put_status msg provider_submitted ""
    result ← hand_over msg.channel msg provider cfg
    settle msg cfg result
