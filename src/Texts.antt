-- ===== src/Texts.antt =====
-- client/src/support/ClientConstants.h: the texts with values in them that the services show.
-- `QString::arg` puts the values into the places of the text.
use epic_kfc.Base.{QString, text, ◌++◌}

abbrev pub auth_required : QString
auth_required = text "You must /login before using this command."

abbrev pub registered_user : QString → QString
registered_user name = text "Registered " ++ name ++ text ". Use /login to start a session."

abbrev pub anchor_unavailable : QString → QString
anchor_unavailable id = text "No blockchain anchor is available for " ++ id ++ text " yet."

abbrev pub anchor_pending : QString → QString → QString → QString
anchor_pending id status chain =
    text "Blockchain anchor for "
    ++ id
    ++ text " is "
    ++ status
    ++ text " on "
    ++ chain
    ++ text ". Verification will be available once it is confirmed."

abbrev pub anchor_failed : QString → QString → QString
anchor_failed id chain =
    text "Blockchain anchor for "
    ++ id
    ++ text " failed on "
    ++ chain
    ++ text ". Fidelity cannot be verified yet."

abbrev pub anchor_verified : QString → QString → QString → QString
anchor_verified id chain status =
    text "Blockchain anchor verified for "
    ++ id
    ++ text " on "
    ++ chain
    ++ text ". Status: "
    ++ status
    ++ text "."

abbrev pub anchor_verified_with_transaction : QString → QString → QString → QString → QString
anchor_verified_with_transaction id chain status transaction =
    text "Blockchain anchor verified for "
    ++ id
    ++ text " on "
    ++ chain
    ++ text ". Status: "
    ++ status
    ++ text ". Transaction: "
    ++ transaction

abbrev pub anchor_mismatch : QString → QString
anchor_mismatch id =
    text "Blockchain anchor check failed for " ++ id ++ text ". Fidelity could not be verified."

abbrev pub trust_mismatch : QString
trust_mismatch = text "Trust mismatch. Sending is blocked."

abbrev pub sent_message_ciphertext_only : QString
sent_message_ciphertext_only = text "<sent message encrypted for recipient>"

abbrev pub sent_message_local_copy_unavailable : QString
sent_message_local_copy_unavailable =
    text "This sent message was cached before local sender-copy encryption was available."

abbrev pub empty_username : QString
empty_username = text "Username must not be empty."
