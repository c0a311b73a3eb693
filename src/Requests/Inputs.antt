-- ===== src/Requests/Inputs.antt =====
-- The values that the validation returns. An optional property that is left out is `none`.
use resend_conversation_serv.Prelude.{ℕ, Bool, Option, List}
use resend_conversation_serv.Prelude.Text.{Text}

pub record EmailIdentityInput : Type 0 where
  pub address : Text
  pub name : Option Text

pub record EmailTagInput : Type 0 where
  pub name : Text
  pub value : Text

pub record EmailAttachmentRefInput : Type 0 where
  pub id : Text
  pub content_id : Option Text

pub record TopicInput : Type 0 where
  pub type : Text
  pub external_id : Text
  pub title : Text

pub record ParticipantInput : Type 0 where
  pub email : Text
  pub name : Option Text

pub record MessageInput : Type 0 where
  pub text : Option Text
  pub html : Option Text
  pub reply_to_name : Option Text

pub record CreateConversationInput : Type 0 where
  pub topic : TopicInput
  pub participant : ParticipantInput
  pub subject : Option Text
  pub message : MessageInput

-- The message of an accepted reply, `{ text, html, replyToMessageId, replyToName }`.
pub record ReplyInput : Type 0 where
  pub text : Option Text
  pub html : Option Text
  pub reply_to_message_id : Option Text
  pub reply_to_name : Option Text

pub record FirstMessageV2Input : Type 0 where
  pub text : Option Text
  pub html : Option Text
  pub from : EmailIdentityInput
  pub to : Option (List EmailIdentityInput)
  pub reply_to : EmailIdentityInput
  pub tags : Option (List EmailTagInput)
  pub attachments : Option (List EmailAttachmentRefInput)

pub record CreateConversationV2Input : Type 0 where
  pub topic : TopicInput
  pub participant : ParticipantInput
  pub subject : Option Text
  pub message : FirstMessageV2Input

pub record MessageV2Input : Type 0 where
  pub text : Option Text
  pub html : Option Text
  pub reply_to_message_id : Option Text
  pub from : EmailIdentityInput
  pub to : Option (List EmailIdentityInput)
  pub reply_to : EmailIdentityInput
  pub tags : Option (List EmailTagInput)
  pub attachments : Option (List EmailAttachmentRefInput)

pub record DirectEmailV2Input : Type 0 where
  pub from : EmailIdentityInput
  pub to : List EmailIdentityInput
  pub subject : Text
  pub text : Option Text
  pub html : Option Text
  pub tags : Option (List EmailTagInput)
  pub attachments : Option (List EmailAttachmentRefInput)

-- What the configuration says of attachments: `attachmentsEnabled()` and the `maxCount` of
-- `resolveAttachmentLimits()`.
pub record AttachmentSettings : Type 0 where
  pub enabled : Bool
  pub max_count : ℕ
