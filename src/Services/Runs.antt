-- ===== src/Services/Runs.antt =====
-- client/src/services/Services.cpp: the callbacks by what they wait for, the services by the
-- calls that the controller makes, and the runs of both in any order.
pub mod Progress
pub mod Operations
pub mod Ends
pub mod Finish
use epic_kfc.Base.{ℤ, QString, List, [], ◌∷◌, ◌++◌, ◌≡◌}
use epic_kfc.Models.{sent, received}
use epic_kfc.Events.{Event, ServiceCall}
use epic_kfc.Services.{
  Env, World, Step, Pending, Reply, Output, event, ask, register_reply, login_reply, logout_reply,
  upsert_reply, upload_reply, trust_address, trust_bundle, received_list, sent_list,
  conversations_received, conversations_sent, unread_received, send_address, forward_address,
  pinned_bundle, sent_reply, forwarded_reply, read_address, read_received, read_sent, revoke_reply,
  delete_reply, anchor_reply, verification_reply,
}
use epic_kfc.Services.Session.{register_user, user_registered, login, logged_in, logout, logged_out}
use epic_kfc.Services.Keys.{
  ensure_device_keys_uploaded, device_keys_upserted, pre_keys_uploaded, trust_username,
  trust_address_resolved, trust_bundle_fetched,
}
use epic_kfc.Services.Lists.{
  list_received, list_sent, list_conversations, list_unread_senders, listed,
  conversations_listed_received, conversations_listed_sent, unread_listed, revoke, revoked,
  delete_message, deleted,
}
use epic_kfc.Services.Sending.{
  send, send_address_resolved, message_sent, forward, forward_address_resolved, message_forwarded,
  pinned_bundle_arrived, download,
}
use epic_kfc.Services.Reading.{read, read_address_resolved, read_listed_received, read_listed_sent}
use epic_kfc.Services.Anchors.{verify, anchor_fetched, anchor_verified_reply}

module _ (key_text : QString → ℤ → QString) (env : Env) where
  -- the callback that takes an answer
  abbrev pub answer : (p : Pending) → Reply p → Step
  answer register_reply r = user_registered r
  answer (login_reply password) r = logged_in env password r
  answer logout_reply r = logged_out env r
  answer upsert_reply r = device_keys_upserted env r
  answer upload_reply r = pre_keys_uploaded env r
  answer trust_address r = trust_address_resolved env r
  answer (trust_bundle address) r = trust_bundle_fetched env address r
  answer received_list r = listed env received r
  answer sent_list r = listed env sent r
  answer conversations_received r = conversations_listed_received env r
  answer conversations_sent r = conversations_listed_sent env key_text r
  answer unread_received r = unread_listed env key_text r
  answer (send_address plaintext) r = send_address_resolved env plaintext r
  answer (forward_address id) r = forward_address_resolved env id r
  answer (pinned_bundle pin purpose) r = pinned_bundle_arrived env pin purpose r
  answer (sent_reply copy) r = message_sent env copy r
  answer (forwarded_reply copy) r = message_forwarded env copy r
  answer (read_address username page) r = read_address_resolved env username page r
  answer (read_received address username page) r = read_listed_received env address username page r
  answer (read_sent address username page) r = read_listed_sent env address username page r
  answer (revoke_reply id) r = revoked env id r
  answer (delete_reply id) r = deleted env id r
  answer (anchor_reply id) r = anchor_fetched env id r
  answer (verification_reply id) r = anchor_verified_reply env id r

  -- the service that the controller calls
  abbrev pub serve : ServiceCall → Step
  serve (ServiceCall.register_user username email password) = register_user username email password
  serve (ServiceCall.login username password) = login username password
  serve ServiceCall.logout = logout env
  serve ServiceCall.list_conversations = list_conversations env
  serve ServiceCall.list_unread_senders = list_unread_senders env
  serve ServiceCall.list_received = list_received env
  serve ServiceCall.list_sent = list_sent env
  serve (ServiceCall.read_conversation username page) = read env username page
  serve (ServiceCall.forward id username) = forward env id username
  serve (ServiceCall.revoke id) = revoke env id
  serve (ServiceCall.delete_message id) = delete_message env id
  serve (ServiceCall.download id) = download env id
  serve (ServiceCall.verify id) = verify id
  serve (ServiceCall.trust_username username) = trust_username env username
  serve (ServiceCall.send username plaintext) = send env username plaintext
  serve ServiceCall.ensure_device_keys_uploaded = ensure_device_keys_uploaded env
